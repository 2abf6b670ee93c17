-- ===== src/Ledger/Header.antt =====
-- node/core/types/header.go. The public keys are those of ontology-crypto, a parameter.
pub mod RoundTrip
pub mod Raw
use layer.Base.{
  ℕ, zero, suc, ◌≡◌, List, [], ◌∷◌, ◌++◌, length, leb, if◌then◌else◌, Option, none, some, Outcome,
  ok, err, ◌>>=◌,
}
use layer.Common.Bytes.{uint32_bytes, uint64_bytes, var_uint_bytes, var_bytes}
use layer.Common.Source.{ZeroCopySource, new_source, next_var_uint, next_var_bytes}
use layer.Ledger.Fields.{
  Error, wrong_public_key, word_field, hash_field, address_last, regular_field, whole_field,
}

-- `SerializePublicKey` and `DeserializePublicKey`: a key is read back from its bytes.
pub record PublicKeys (K : Type 0) : Type 0 where
  pub serialize : K → List ℕ
  pub deserialize : List ℕ → Option K
  pub deserialize-serialize : (k : K) → deserialize (serialize k) ≡ some k

-- The signed part of a header.
pub record UnsignedHeader : Type 0 where
  pub version : ℕ
  pub prev_block_hash : List ℕ
  pub transactions_root : List ℕ
  pub block_root : List ℕ
  pub timestamp : ℕ
  pub height : ℕ
  pub consensus_data : ℕ
  pub consensus_payload : List ℕ
  pub next_bookkeeper : List ℕ

pub record Header (K : Type 0) : Type 0 where
  pub unsigned : UnsignedHeader
  pub bookkeepers : List K
  pub sig_data : List (List ℕ)

unfoldable pub unsigned_bytes : UnsignedHeader → List ℕ
unsigned_bytes bd =
    uint32_bytes bd.version
    ++ (bd.prev_block_hash
        ++ (bd.transactions_root
            ++ (bd.block_root
                ++ (uint32_bytes bd.timestamp
                    ++ (uint32_bytes bd.height
                        ++ (uint64_bytes bd.consensus_data
                            ++ (var_bytes bd.consensus_payload ++ bd.next_bookkeeper)))))))

unfoldable pub read_unsigned : ZeroCopySource → Outcome Error (UnsignedHeader × ZeroCopySource)
read_unsigned source = do
  version ← word_field 4 source
  prev ← hash_field version.1
  txs ← hash_field prev.1
  root ← hash_field txs.1
  timestamp ← word_field 4 root.1
  height ← word_field 4 timestamp.1
  consensus ← word_field 8 height.1
  payload ← regular_field (next_var_bytes consensus.1)
  next ← address_last payload.1
  ok (
    record {
      version = version.0;
      prev_block_hash = prev.0;
      transactions_root = txs.0;
      block_root = root.0;
      timestamp = timestamp.0;
      height = height.0;
      consensus_data = consensus.0;
      consensus_payload = payload.0;
      next_bookkeeper = next.0;
    },
    next.1,
  )

-- The rounds of `for i := 0; i < int(n); i++`: none where `int(n)` is negative.
unfoldable pub rounds : ℕ → ℕ
rounds n = if leb 0x8000_0000_0000_0000 n then 0 else n

unfoldable pub read_sig_data : ℕ → ZeroCopySource → Outcome Error (List (List ℕ) × ZeroCopySource)
read_sig_data zero source = ok ([], source)
read_sig_data (suc n) source = do
  sig ← whole_field (next_var_bytes source)
  rest ← read_sig_data n sig.1
  ok (sig.0 ∷ rest.0, rest.1)

unfoldable pub sig_data_bytes : List (List ℕ) → List ℕ
sig_data_bytes [] = []
sig_data_bytes (sig ∷ sigs) = var_bytes sig ++ sig_data_bytes sigs

unfoldable pub key_of : {K : Type 0} → Option K → Outcome Error K
key_of none = err wrong_public_key
key_of (some k) = ok k

module _ {K : Type 0} (keys : PublicKeys K) where
  unfoldable pub bookkeepers_bytes : List K → List ℕ
  bookkeepers_bytes [] = []
  bookkeepers_bytes (k ∷ ks) = var_bytes (keys.serialize k) ++ bookkeepers_bytes ks

  -- `Serialization`
  unfoldable pub header_bytes : Header K → List ℕ
  header_bytes bd =
      unsigned_bytes bd.unsigned
      ++ (var_uint_bytes (length bd.bookkeepers)
          ++ (bookkeepers_bytes bd.bookkeepers
              ++ (var_uint_bytes (length bd.sig_data) ++ sig_data_bytes bd.sig_data)))

  unfoldable pub read_bookkeepers : ℕ → ZeroCopySource → Outcome Error (List K × ZeroCopySource)
  read_bookkeepers zero source = ok ([], source)
  read_bookkeepers (suc n) source = do
    buf ← whole_field (next_var_bytes source)
    key ← key_of (keys.deserialize buf.0)
    rest ← read_bookkeepers n buf.1
    ok (key ∷ rest.0, rest.1)

  unfoldable pub deserialize_header : ZeroCopySource → Outcome Error (Header K × ZeroCopySource)
  deserialize_header source = do
    bd ← read_unsigned source
    n ← whole_field (next_var_uint bd.1)
    ks ← read_bookkeepers (rounds n.0) n.1
    m ← whole_field (next_var_uint ks.1)
    sigs ← read_sig_data (rounds m.0) m.1
    ok (record { unsigned = bd.0; bookkeepers = ks.0; sig_data = sigs.0 }, sigs.1)

  unfoldable pub header_from_raw_bytes : List ℕ → Outcome Error (Header K)
  header_from_raw_bytes raw = do r ← deserialize_header (new_source raw); ok r.0

  -- `Hash`, at an empty memo.
  unfoldable pub header_hash : (List ℕ → List ℕ) → Header K → List ℕ
  header_hash sha256 bd = sha256 (sha256 (unsigned_bytes bd.unsigned))
