-- ===== src/Ledger/Transaction/RoundTrip.antt =====
-- A transaction is read back from the bytes that `serialize` writes, with its raw bytes and the hash
-- of its signed part.
use layer.Base.{
  ℕ, ◌^◌, ◌<◌, ◌≤◌, ◌≡◌, refl, sym, false, List, [], ◌∷◌, ◌++◌, length, ltb, ◌==◌, not, ok, arith,
}
use layer.Common.Bytes.{uint32_bytes, uint64_bytes, var_uint_bytes}
use layer.Common.Source.{next_var_uint, next_var_bytes}
use layer.Common.Source.Codec.{Reads, Reads-then, Reads-end, Reads-whole, Reads-nothing}
use layer.Ledger.Fields.{byte_field, word_field, bytes_last, regular_field, last_field, with_raw}
use layer.Ledger.Fields.Reads.{
  byte_field-Reads, word_field-Reads, bytes_last-Reads, regular_bytes-Reads, last_bytes-Reads,
  last_count-Reads, with_raw-Reads,
}
use layer.Ledger.Payload.{deserialize_invoke, deserialize_deploy, validate_deploy_code}
use layer.Ledger.Payload.RoundTrip.{deserialize_invoke-Reads, deserialize_deploy-Reads}
use layer.Ledger.Transaction.{
  max_tx_size, tx_max_sig_size, deploy_type, invoke_neo_type, Payload, invoke, deploy, RawSig,
  Unsigned, Transaction, payload_bytes, unsigned_bytes, sig_bytes, sigs_bytes, transaction_bytes,
  read_invoke, read_deploy, read_payload, read_unsigned, deserialize_sig, read_sigs,
  read_signatures, check_size, read_signed, deserialize_transaction, transaction_from_raw_bytes,
}

-- The type says which payload it is, and a contract to deploy passes its tests.
unfoldable pub Fits : ℕ → Payload → Type 0
Fits tx_type (invoke pl) = tx_type ≡ invoke_neo_type
Fits tx_type (deploy pl) = (tx_type ≡ deploy_type) × (validate_deploy_code pl ≡ ok tt)

pub record IsUnsigned (tx : Unsigned) : Type 0 where
  pub system_id : tx.system_id < 256 ^ 4
  pub nonce : tx.nonce < 256 ^ 4
  pub gas_price : tx.gas_price < 256 ^ 8
  pub gas_limit : tx.gas_limit < 256 ^ 8
  pub payer : length tx.payer ≡ 20
  pub payload : Fits tx.tx_type tx.payload
  pub attributes : tx.attributes ≡ 0

read_payload-Reads :
    (ty : ℕ) (pl : Payload) → Fits ty pl → Reads (read_payload ty) (payload_bytes pl) pl
unfolding Fits read_payload payload_bytes read_invoke read_deploy
read_payload-Reads ty (invoke pl) same =
    rw same (Reads-end deserialize_invoke _ (deserialize_invoke-Reads pl) (λ s. refl))
read_payload-Reads ty (deploy pl) (same, valid) =
    rw same (Reads-end deserialize_deploy _ (deserialize_deploy-Reads pl valid) (λ s. refl))

read_unsigned-Reads : (tx : Unsigned) → IsUnsigned tx → Reads read_unsigned (unsigned_bytes tx) tx
unfolding read_unsigned unsigned_bytes uint32_bytes uint64_bytes
read_unsigned-Reads tx is =
    let zero_attributes : not (tx.attributes == 0) ≡ false =
      let z = is.attributes in ground arith in
    Reads-then byte_field _ (byte_field-Reads tx.version) (
      Reads-then byte_field _ (byte_field-Reads tx.tx_type) (
        Reads-then (word_field 4) _ (word_field-Reads 4 tx.system_id is.system_id) (
          Reads-then (word_field 4) _ (word_field-Reads 4 tx.nonce is.nonce) (
            Reads-then (word_field 8) _ (word_field-Reads 8 tx.gas_price is.gas_price) (
              Reads-then (word_field 8) _ (word_field-Reads 8 tx.gas_limit is.gas_limit) (
                Reads-then (bytes_last 20) _ (bytes_last-Reads 20 tx.payer is.payer) (
                  Reads-then (read_payload tx.tx_type) _
                    (read_payload-Reads tx.tx_type tx.payload is.payload)
                    (Reads-end (λ source. last_field (next_var_uint source)) _
                      (last_count-Reads tx.attributes (let z = is.attributes in omega arith))
                      (λ s.
                        rw zero_attributes
                          (λ i. ok (record tx { attributes = sym is.attributes i }, s)))))))))))

deserialize_sig-Reads : (sig : RawSig) → Reads deserialize_sig (sig_bytes sig) sig
unfolding deserialize_sig sig_bytes
deserialize_sig-Reads sig =
    Reads-then (λ source. regular_field (next_var_bytes source)) _ (regular_bytes-Reads sig.invoke)
      (Reads-end (λ source. last_field (next_var_bytes source)) _ (last_bytes-Reads sig.verify)
        (λ s. refl))

read_sigs-Reads : (sigs : List RawSig) → Reads (read_sigs (length sigs)) (sigs_bytes sigs) sigs
unfolding read_sigs sigs_bytes
read_sigs-Reads [] = Reads-nothing []
read_sigs-Reads (sig ∷ sigs) =
    Reads-then deserialize_sig _ (deserialize_sig-Reads sig)
      (Reads-end (read_sigs (length sigs)) _ (read_sigs-Reads sigs) (λ s. refl))

read_signatures-Reads :
    (sigs : List RawSig)
    → length sigs ≤ tx_max_sig_size
    → Reads read_signatures (var_uint_bytes (length sigs) ++ sigs_bytes sigs) sigs
unfolding read_signatures
read_signatures-Reads sigs few =
    let within : ltb tx_max_sig_size (length sigs) ≡ false = ground arith in
    Reads-then (λ source. last_field (next_var_uint source)) _
      (last_count-Reads (length sigs) (omega arith)) (rw within (read_sigs-Reads sigs))

read_signed-Reads :
    (tx : Unsigned) (sigs : List RawSig)
    → IsUnsigned tx
    → length sigs ≤ tx_max_sig_size
    → Reads read_signed (transaction_bytes tx sigs) ((tx, unsigned_bytes tx), sigs)
unfolding read_signed transaction_bytes
read_signed-Reads tx sigs is few =
    Reads-then (with_raw (λ n. ok tt) read_unsigned) _
      (with_raw-Reads (λ n. ok tt) read_unsigned (read_unsigned-Reads tx is) refl)
      (Reads-end read_signatures _ (read_signatures-Reads sigs few) (λ s. refl))

-- What reading gives.
abbrev pub signed : (List ℕ → List ℕ) → Unsigned → List RawSig → Transaction
signed sha256 tx sigs = record {
  unsigned = tx;
  sigs = sigs;
  raw = transaction_bytes tx sigs;
  hash = sha256 (sha256 (unsigned_bytes tx));
}

pub deserialize_transaction-Reads :
    (sha256 : List ℕ → List ℕ) (tx : Unsigned) (sigs : List RawSig)
    → IsUnsigned tx
    → length sigs ≤ tx_max_sig_size
    → length (transaction_bytes tx sigs) ≤ max_tx_size
    → Reads (deserialize_transaction sha256) (transaction_bytes tx sigs) (signed sha256 tx sigs)
unfolding deserialize_transaction check_size
deserialize_transaction-Reads sha256 tx sigs is few small =
    let within : ltb max_tx_size (length (transaction_bytes tx sigs)) ≡ false = ground arith in
    Reads-end (with_raw check_size read_signed) _
      (with_raw-Reads check_size read_signed (read_signed-Reads tx sigs is few) (rw within))
      (λ s. refl)

-- For a transaction whose fields fit their types, whose payload is of its type and passes the
-- tests of its kind, with at most 16 signatures and at most 1024 * 1024 bytes in all,
-- `TransactionFromRawBytes` reads from what `serialize` writes the same fields and signatures,
-- keeps all the bytes as the raw transaction, and takes the hash of the signed part alone.
pub transaction_from_raw_bytes-transaction_bytes :
    (sha256 : List ℕ → List ℕ) (tx : Unsigned) (sigs : List RawSig)
    → IsUnsigned tx
    → length sigs ≤ tx_max_sig_size
    → length (transaction_bytes tx sigs) ≤ max_tx_size
    → transaction_from_raw_bytes sha256 (transaction_bytes tx sigs) ≡ ok (signed sha256 tx sigs)
unfolding transaction_from_raw_bytes
transaction_from_raw_bytes-transaction_bytes sha256 tx sigs is few small =
    let within : ltb max_tx_size (length (transaction_bytes tx sigs)) ≡ false = ground arith in
    rw (
      within,
      Reads-whole (deserialize_transaction sha256)
          (deserialize_transaction-Reads sha256 tx sigs is few small) (omega arith),
    )
