-- ===== src/Tests.antt =====
-- Sample data, and runs of the models at it: a small hash function, a tree of three leaves, and a
-- contract's cache as an association list.
mod MerkleRuns
mod CodecRuns
mod TokenRuns
mod ListRuns
mod ProofRuns
mod StateRuns
mod ArgRuns
mod LedgerRuns
mod VmRuns
mod PoolRuns
mod ProgramRuns
mod IteratorRuns
mod IncrementRuns
mod IntRuns
mod CodecValueRuns
use layer.Base.{
  ℕ, ◌+◌, ◌*◌, ◌%◌, ◌<◌, ◌≡◌, refl, Bool, true, false, Option, none, some, List, [], ◌∷◌, ◌++◌,
  length, replicate, bytes_equal, if◌then◌else◌,
}
use layer.Merkle.Hasher.{Uint256, hash_children}
use layer.Merkle.Tree.{CompactMerkleTree, empty_hash}
use layer.Native.Store.{Read, found, missing, Db}

abbrev checksum : List ℕ → ℕ
checksum [] = 7
checksum (b ∷ bs) = (b + 31 * checksum bs) % 256

-- Thirty-two bytes that depend on the input.
abbrev pub digest : List ℕ → Uint256
digest bs = checksum bs ∷ replicate 31 1

abbrev pub leaf_a : Uint256
leaf_a = replicate 32 1

abbrev pub leaf_b : Uint256
leaf_b = replicate 32 2

abbrev pub leaf_c : Uint256
leaf_c = replicate 32 3

abbrev pub leaf_d : Uint256
leaf_d = replicate 32 4

abbrev pub tree3 : CompactMerkleTree
tree3 = record {
  mintree_h = 1;
  hashes = hash_children digest leaf_a leaf_b ∷ leaf_c ∷ [];
  hash_store = none;
  root_hash = empty_hash;
  tree_size = 3;
}

-- The newest entry of a key counts, and an entry without a value is a deletion.
abbrev pub Entries : Type 0
Entries = List (List ℕ × Option (List ℕ))

abbrev read_entry : Option (List ℕ) → Read
read_entry none = missing
read_entry (some v) = found v

abbrev get_entry : Entries → List ℕ → Read
get_entry [] j = missing
get_entry (e ∷ entries) j = if bytes_equal e.0 j then read_entry e.1 else get_entry entries j

abbrev pub entries_db : Db Entries
entries_db = record {
  get = get_entry;
  put = λ s k v. (k, some v) ∷ s;
  delete = λ s k. (k, none) ∷ s;
  get-put = λ s k v j h. refl;
  get-delete = λ s k j. refl;
}
