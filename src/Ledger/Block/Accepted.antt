-- ===== src/Ledger/Block/Accepted.antt =====
-- What every block that is read has passed, whatever bytes it came from.
use layer.Base.{
  ℕ, zero, suc, ◌≤◌, ◌≡◌, sym, ap, ◌∙◌, true, not, List, [], ◌∷◌, All, length, ltb, bytes_equal,
  bytes_equal→eq, Outcome, ok, >>=-eq-ok, fail_if-eq-ok, arith,
}
use layer.Common.Source.{ZeroCopySource, next_var_uint}
use layer.Ledger.Fields.{
  Error, word_last, last_field, with_raw, passed, duplicated_transaction, mismatched_root,
  too_many_signatures,
}
use layer.Ledger.MerkleRoot.{compute_merkle_root}
use layer.Ledger.Transaction.{
  tx_max_sig_size, RawSig, Unsigned, Transaction, check_size, deserialize_sig, read_sigs,
  read_signatures, read_unsigned, read_signed, deserialize_transaction,
}
use layer.Ledger.Header.{PublicKeys, deserialize_header}
use layer.Ledger.Block.{Block, masked, transaction_hashes, read_transactions, deserialize_block}
use layer.Ledger.Block.RoundTrip.{Fresh}

-- The result of a last step.
result_of :
    {A : Type 0} {a a' : A} {s s' : ZeroCopySource}
    → ◌≡◌ {A = Outcome Error (A × ZeroCopySource)} (ok (a, s)) (ok (a', s'))
    → a ≡ a'
result_of e = ground arith

read_sigs-length :
    (n : ℕ) (source s' : ZeroCopySource) (sigs : List RawSig)
    → read_sigs n source ≡ ok (sigs, s')
    → length sigs ≡ n
unfolding read_sigs
read_sigs-length zero source s' sigs e = ap length (sym (result_of e))
read_sigs-length (suc n) source s' sigs e =
    let (sig, h, e1) = >>=-eq-ok (deserialize_sig source) _ e in
    let (rest, k, e2) = >>=-eq-ok (read_sigs n sig.1) _ e1 in
    ap length (sym (result_of e2)) ∙ ap suc (read_sigs-length n sig.1 rest.1 rest.0 k)

read_signatures-few :
    (source s' : ZeroCopySource) (sigs : List RawSig)
    → read_signatures source ≡ ok (sigs, s')
    → length sigs ≤ tx_max_sig_size
unfolding read_signatures
read_signatures-few source s' sigs e =
    let (count, h, e1) = >>=-eq-ok (last_field (next_var_uint source)) _ e in
    let (few, e2) = fail_if-eq-ok (ltb tx_max_sig_size count.0) too_many_signatures _ e1 in
    let size = read_sigs-length count.0 count.1 s' sigs e2 in ground arith

-- A read that keeps its bytes gives the value that the read gives.
with_raw-value :
    {A : Type 0} (check : ℕ → Outcome Error (Unit {0}))
    (decode : ZeroCopySource → Outcome Error (A × ZeroCopySource)) (source s' : ZeroCopySource)
    (a : A) (raw : List ℕ)
    → with_raw check decode source ≡ ok ((a, raw), s')
    → (behind : ZeroCopySource) × (decode source ≡ ok (a, behind))
unfolding with_raw
with_raw-value check decode source s' a raw e =
    let (r, h, e1) = >>=-eq-ok (decode source) _ e in
    let (done, k, e2) = >>=-eq-ok (check (passed source.off r.1)) _ e1 in
    (r.1, h ∙ λ i. ok ((result_of e2 i).0, r.1))

read_signed-few :
    (source s' : ZeroCopySource) (v : (Unsigned × List ℕ) × List RawSig)
    → read_signed source ≡ ok (v, s')
    → length v.1 ≤ tx_max_sig_size
unfolding read_signed
read_signed-few source s' v e =
    let (u, h, e1) = >>=-eq-ok (with_raw (λ n. ok tt) read_unsigned source) _ e in
    let (sigs, k, e2) = >>=-eq-ok (read_signatures u.1) _ e1 in
    rw (← result_of e2) (read_signatures-few u.1 sigs.1 sigs.0 k)

abbrev pub HasFewSignatures : Transaction → Type 0
HasFewSignatures tx = length tx.sigs ≤ tx_max_sig_size

module _ (sha256 : List ℕ → List ℕ) where
  deserialize_transaction-HasFewSignatures :
      (source s' : ZeroCopySource) (tx : Transaction)
      → deserialize_transaction sha256 source ≡ ok (tx, s')
      → HasFewSignatures tx
  unfolding deserialize_transaction
  deserialize_transaction-HasFewSignatures source s' tx e =
      let (t, h, e1) = >>=-eq-ok (with_raw check_size read_signed source) _ e in
      let (behind, k) = with_raw-value check_size read_signed source t.1 t.0.0 t.0.1 h in
      rw (← result_of e1) (read_signed-few source behind t.0.0 k)

  module _ {K : Type 0} (keys : PublicKeys K) where
    read_transactions-Fresh :
        (n : ℕ) (mask : List (List ℕ)) (source s' : ZeroCopySource) (txs : List Transaction)
        → read_transactions keys sha256 n mask source ≡ ok (txs, s')
        → Fresh mask txs × All HasFewSignatures txs
    unfolding read_transactions Fresh
    read_transactions-Fresh zero mask source s' txs e = rw (← result_of e) (tt, tt)
    read_transactions-Fresh (suc n) mask source s' txs e =
        let (tx, h, e1) = >>=-eq-ok (deserialize_transaction sha256 source) _ e in
        let (new, e2) = fail_if-eq-ok (masked mask tx.0.hash) duplicated_transaction _ e1 in
        let (rest, k, e3) =
          >>=-eq-ok (read_transactions keys sha256 n (tx.0.hash ∷ mask) tx.1) _ e2 in
        let (fresh, few) = read_transactions-Fresh n (tx.0.hash ∷ mask) tx.1 rest.1 rest.0 k in
        rw (← result_of e3)
          ((new, fresh), (deserialize_transaction-HasFewSignatures source tx.1 tx.0 h, few))

    -- Whatever the source, a block that is read has no transaction hash twice, at most 16
    -- signatures on each transaction, and a header whose transactions root is the Merkle root of
    -- the hashes.
    pub deserialize_block-Fresh :
        (source s' : ZeroCopySource) (b : Block K)
        → deserialize_block keys sha256 source ≡ ok (b, s')
        → Fresh [] b.transactions
          × All HasFewSignatures b.transactions
          × (b.header.unsigned.transactions_root
              ≡ compute_merkle_root sha256 (transaction_hashes b.transactions))
    unfolding deserialize_block
    deserialize_block-Fresh source s' b e =
        let (header, h, e1) = >>=-eq-ok (deserialize_header keys source) _ e in
        let (count, k, e2) = >>=-eq-ok (word_last 4 header.1) _ e1 in
        let (txs, l, e3) = >>=-eq-ok (read_transactions keys sha256 count.0 [] count.1) _ e2 in
        let root = compute_merkle_root sha256 (transaction_hashes txs.0) in
        let (right, e4) =
          fail_if-eq-ok (not (bytes_equal header.0.unsigned.transactions_root root)) mismatched_root
            _ e3 in
        let equal : bytes_equal header.0.unsigned.transactions_root root ≡ true = ground arith in
        let (fresh, few) = read_transactions-Fresh count.0 [] count.1 txs.1 txs.0 l in
        rw (← result_of e4)
          (fresh, few, bytes_equal→eq header.0.unsigned.transactions_root root equal)
