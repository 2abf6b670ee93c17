-- ===== src/Lib.antt =====
-- The layer2 node: the compact Merkle tree over block hashes, the byte buffers of its wire format,
-- blocks and transactions, and the token contracts over the caches of the contract storage.
--
-- Parts, and the files that model them:
--   * Common: the byte formats. node/common/safeMath.go (SafeMath), zero_copy_source.go (Source),
--     zero_copy_sink.go (Sink); Common/Words has encoding/binary's little-endian words, and
--     Common/Bytes says at value level what the sink appends. A source is its data and its offset;
--     a sink is its backing array, whose length is the capacity, and the length in use.
--     Common/Source/Bounds and Reading, and Common/Sink/Append, prove things of them;
--     Common/Source/Codec composes decoders. BigInt is node/common/bigint.go.
--   * Merkle: node/merkle/util.go (Util), merkle_hasher.go (Hasher), merkle_tree.go (Tree for
--     CompactMerkleTree, Marshal for its bytes, Verify and Consistency for MerkleVerifier; Proof for
--     MerkleProve, StoredProof for the proofs that a tree makes from its hash store). Hashes are
--     byte strings, and crypto/sha256 is a parameter `sha256`, of which nothing is assumed. `none`
--     is a panic. Merkle/Forest says what the kept hashes stand for; Bits, HashFull and Append
--     carry the proofs of Root, and Merkle/Verify/Audit that of the audit paths.
--   * Native: node/core/states/storage_item.go and state_base.go (Item),
--     node/smartcontract/service/native/utils/store.go (Store), and ont/utils.go, ont/states.go and
--     ong/ong.go of the same service (Token). The cache that contracts write to is the interface
--     `Db`: any state with a read, a write and a deletion of keys that keep apart. A token operation
--     takes the cache and gives the new one, or an error, after which the cache is dropped.
--     LinkedList is utils/linked_list.go, doubly linked lists over the same cache,
--     and Unbind is utils/unbind_ong.go. Args is utils/serialization.go with the encodings of
--     ont/states.go; Execution is what the handlers use of node/smartcontract/smart_contract.go;
--     Ong and Ont are the handlers of ong/ong.go and ont/ont.go on encoded arguments, with the
--     grant of ONG for a held ONT balance, which calls the ONG contract.
--     Token/Spec is the token as maps of balances and allowances; Token/Refinement and
--     Token/Allowance relate the two, and Token/Supply is about sums of balances.
--   * State: node/core/store/overlaydb/overlaydb.go (Overlay, the write set of a block) and
--     node/smartcontract/storage/cachedb.go (Cache, that of a transaction). The memory table, a
--     changed goleveldb, and the store, leveldb, are the interfaces MemDb and PersistStore of
--     State/Backing. Iterator is overlaydb/iterator.go. Cache/Storage shows that the cache is a `Db`.
--   * Ledger: node/core/payload (Payload), and transaction.go, mutable_transaction.go, header.go and
--     block.go of node/core/types (Transaction, Header with Header/Raw, Block), with
--     node/common/merkle_tree.go (MerkleRoot). Fields has the ways in which they read the source: the
--     code tests the end of the data only behind the last read of a group. `sha256` and the public
--     keys are parameters; a signature is the two scripts of RawSig.
--     Program is node/core/program/program.go, the scripts of signatures and keys.
--   * Validator: node/validator/increment/increment.go (Increment).
--   * Vm: node/vm/neovm/value_stack.go (ValueStack), over any type of values, and types/int_value.go
--     (IntValue), whose values are an int64 or a big.Int.
--   * CrossVm: node/vm/crossvm_codec (Codec), with node/common/int128.go (Common/Int128).
--   * TxPool: node/txnpool/common/transaction_pool.go, the pool as a list of hashes with entries.
--     TxPool/Reach has the calls as steps from the empty pool, and Drain repeats the rounds in which
--     transactions are chosen for a block and cleaned.
--     Recent says on its own which entries count as verified at a height.
--   * Base: the shared names, Boolean tests, lists, and the pair of a value and an error. Tests:
--     sample data and the theorems applied to it.
-- The contracts read and write storage items, whose bytes the byte source reads; the token keys are
-- concatenated addresses.
--
-- Bounds: words are natural numbers reduced modulo 2 ^ 8, 2 ^ 16, 2 ^ 32 or 2 ^ 64 where the code's
-- types wrap; an `int` is 64 bits wide. The loops over the bits of a uint32 (countBit, highBit,
-- AppendHash, the audit path) and the recursion of _hash_full run on a fuel of 33, which is enough
-- for numbers below 2 ^ 32: each round clears a bit or halves the number. The loops over a linked
-- list take their fuel as an argument, since a stored list may go round. The digits of a big integer
-- and the levels of a Merkle root run on a fuel of the number and of the number of hashes; the
-- loops of a program parser have one more than the bytes of the program, since each round takes a
-- byte, and so has the decoder of nested values.
--
-- Not modelled: the persistent stores; the values, the executor and the services of the virtual
-- machine, PushAsArray of its stack among them; consensus, the actors
-- around the transaction pool, the HTTP services and the operator daemon; the iterator over a
-- contract's storage; the table of registered native handlers and the gas of a call; event
-- notifications, which leave the cache alone; error texts.
pub mod Base
pub mod Common
pub mod Merkle
pub mod Native
pub mod TxPool
pub mod CrossVm
pub mod Validator
pub mod Vm
pub mod State
pub mod Ledger
pub mod Tests
