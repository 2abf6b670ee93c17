-- ===== src/Ledger/Transaction.antt =====
-- node/core/types/transaction.go: transactions as bytes, and how they are read from a peer or from
-- the store. `sha256` is a parameter.
pub mod RoundTrip
use layer.Base.{
  ℕ, zero, suc, ◌*◌, Bool, not, List, [], ◌∷◌, ◌++◌, length, ltb, ◌==◌, if◌then◌else◌, Outcome, ok,
  err, ◌>>=◌, ◌>>◌, fail_if,
}
use layer.Common.Bytes.{uint32_bytes, uint64_bytes, var_uint_bytes, var_bytes}
use layer.Common.Source.{ZeroCopySource, new_source, next_var_uint, next_var_bytes}
use layer.Ledger.Fields.{
  Error, unsupported_type, attributes_not_zero, too_many_signatures, too_long, byte_field,
  word_field, bytes_last, regular_field, last_field, with_raw,
}
use layer.Ledger.Payload.{
  InvokeCode, invoke_bytes, deserialize_invoke, DeployCode, deploy_bytes, deserialize_deploy,
}

abbrev pub max_tx_size : ℕ
max_tx_size = 1024 * 1024

abbrev pub tx_max_sig_size : ℕ
tx_max_sig_size = 16

-- `Deploy` and `InvokeNeo` of `TransactionType`.
abbrev pub deploy_type : ℕ
deploy_type = 0xd0

abbrev pub invoke_neo_type : ℕ
invoke_neo_type = 0xd1

pub data Payload : Type 0 where
  invoke : InvokeCode → Payload
  deploy : DeployCode → Payload

pub record RawSig : Type 0 where
  pub invoke : List ℕ
  pub verify : List ℕ

-- The signed part of a transaction.
pub record Unsigned : Type 0 where
  pub version : ℕ
  pub tx_type : ℕ
  pub system_id : ℕ
  pub nonce : ℕ
  pub gas_price : ℕ
  pub gas_limit : ℕ
  pub payer : List ℕ
  pub payload : Payload
  pub attributes : ℕ

pub record Transaction : Type 0 where
  pub unsigned : Unsigned
  pub sigs : List RawSig
  pub raw : List ℕ
  pub hash : List ℕ

unfoldable pub payload_bytes : Payload → List ℕ
payload_bytes (invoke pl) = invoke_bytes pl
payload_bytes (deploy pl) = deploy_bytes pl

-- `serializeUnsigned` of mutable_transaction.go.
unfoldable pub unsigned_bytes : Unsigned → List ℕ
unsigned_bytes tx =
    (tx.version ∷ [])
    ++ ((tx.tx_type ∷ [])
        ++ (uint32_bytes tx.system_id
            ++ (uint32_bytes tx.nonce
                ++ (uint64_bytes tx.gas_price
                    ++ (uint64_bytes tx.gas_limit
                        ++ (tx.payer
                            ++ (payload_bytes tx.payload ++ var_uint_bytes tx.attributes)))))))

unfoldable pub sig_bytes : RawSig → List ℕ
sig_bytes self = var_bytes self.invoke ++ var_bytes self.verify

unfoldable pub sigs_bytes : List RawSig → List ℕ
sigs_bytes [] = []
sigs_bytes (sig ∷ sigs) = sig_bytes sig ++ sigs_bytes sigs

-- `serialize` of mutable_transaction.go, at signatures that are encoded already.
unfoldable pub transaction_bytes : Unsigned → List RawSig → List ℕ
transaction_bytes tx sigs = unsigned_bytes tx ++ (var_uint_bytes (length sigs) ++ sigs_bytes sigs)

unfoldable pub read_invoke : ZeroCopySource → Outcome Error (Payload × ZeroCopySource)
read_invoke source = do pl ← deserialize_invoke source; ok (invoke pl.0, pl.1)

unfoldable pub read_deploy : ZeroCopySource → Outcome Error (Payload × ZeroCopySource)
read_deploy source = do pl ← deserialize_deploy source; ok (deploy pl.0, pl.1)

-- The switch on the type.
unfoldable pub read_payload : ℕ → ZeroCopySource → Outcome Error (Payload × ZeroCopySource)
read_payload tx_type source =
    if tx_type == invoke_neo_type
    then read_invoke source
    else if tx_type == deploy_type
    then read_deploy source
    else err unsupported_type

-- `deserializationUnsigned`
unfoldable pub read_unsigned : ZeroCopySource → Outcome Error (Unsigned × ZeroCopySource)
read_unsigned source = do
  version ← byte_field source
  tx_type ← byte_field version.1
  system_id ← word_field 4 tx_type.1
  nonce ← word_field 4 system_id.1
  gas_price ← word_field 8 nonce.1
  gas_limit ← word_field 8 gas_price.1
  payer ← bytes_last 20 gas_limit.1
  payload ← read_payload tx_type.0 payer.1
  attributes ← last_field (next_var_uint payload.1)
  let tx : Unsigned = record {
    version = version.0;
    tx_type = tx_type.0;
    system_id = system_id.0;
    nonce = nonce.0;
    gas_price = gas_price.0;
    gas_limit = gas_limit.0;
    payer = payer.0;
    payload = payload.0;
    attributes = 0;
  }
  fail_if (not (attributes.0 == 0)) attributes_not_zero >> ok (tx, attributes.1)

unfoldable pub deserialize_sig : ZeroCopySource → Outcome Error (RawSig × ZeroCopySource)
deserialize_sig source = do
  i ← regular_field (next_var_bytes source)
  v ← last_field (next_var_bytes i.1)
  ok (record { invoke = i.0; verify = v.0 }, v.1)

unfoldable pub read_sigs : ℕ → ZeroCopySource → Outcome Error (List RawSig × ZeroCopySource)
read_sigs zero source = ok ([], source)
read_sigs (suc n) source = do
  sig ← deserialize_sig source
  sigs ← read_sigs n sig.1
  ok (sig.0 ∷ sigs.0, sigs.1)

-- The signatures behind their number.
unfoldable pub read_signatures : ZeroCopySource → Outcome Error (List RawSig × ZeroCopySource)
read_signatures source = do
  count ← last_field (next_var_uint source)
  fail_if (ltb tx_max_sig_size count.0) too_many_signatures >> read_sigs count.0 count.1

unfoldable pub check_size : ℕ → Outcome Error (Unit {0})
check_size length_all = fail_if (ltb max_tx_size length_all) too_long

-- The signed part with its bytes, and the signatures.
unfoldable pub read_signed :
    ZeroCopySource → Outcome Error (((Unsigned × List ℕ) × List RawSig) × ZeroCopySource)
read_signed source = do
  u ← with_raw (λ n. ok tt) read_unsigned source
  sigs ← read_signatures u.1
  ok ((u.0, sigs.0), sigs.1)

unfoldable pub deserialize_transaction :
    (List ℕ → List ℕ) → ZeroCopySource → Outcome Error (Transaction × ZeroCopySource)
deserialize_transaction sha256 source = do
  t ← with_raw check_size read_signed source
  let tx : Transaction = record {
    unsigned = t.0.0.0.0;
    sigs = t.0.0.1;
    raw = t.0.1;
    hash = sha256 (sha256 t.0.0.0.1);
  }
  ok (tx, t.1)

unfoldable pub transaction_from_raw_bytes : (List ℕ → List ℕ) → List ℕ → Outcome Error Transaction
transaction_from_raw_bytes sha256 raw =
    fail_if (ltb max_tx_size (length raw)) too_long
    >> (do tx ← deserialize_transaction sha256 (new_source raw); ok tx.0)
