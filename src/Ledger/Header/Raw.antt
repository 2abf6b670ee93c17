-- ===== src/Ledger/Header/Raw.antt =====
-- `RawHeader` of header.go: a trusted header of which only the height is wanted.
use layer.Base.{
  ℕ, zero, suc, ◌≡◌, refl, List, [], ◌∷◌, ◌++◌, append_assoc, length, length-append, Outcome, ok,
  ◌>>=◌, ◌>>◌, fail_if, arith,
}
use layer.Common.Words.{le_bytes, length-le_bytes}
use layer.Common.Bytes.{uint32_bytes, uint64_bytes, var_bytes}
use layer.Common.Source.{
  ZeroCopySource, new_source, skip, next_bytes, next_var_uint, next_var_bytes,
}
use layer.Common.Source.Reading.{reading, InMemory, next_bytes-reading}
use layer.Common.Source.Codec.{Reads, Reads-then, Reads-end, Reads-nothing, Reads-whole}
use layer.Ledger.Fields.{Error, unexpected_eof, word_field, regular_field, whole_field, with_raw}
use layer.Ledger.Fields.Reads.{
  word_field-Reads, regular_bytes-Reads, whole_bytes-Reads, whole_count-Reads, with_raw-Reads,
}
use layer.Ledger.Header.{
  PublicKeys, UnsignedHeader, Header, unsigned_bytes, rounds, sig_data_bytes, bookkeepers_bytes,
  header_bytes,
}
use layer.Ledger.Header.RoundTrip.{IsUnsignedHeader, IsHeader, rounds_small}

pub record RawHeader : Type 0 where
  pub height : ℕ
  pub payload : List ℕ

unfoldable pub skip_field : ℕ → ZeroCopySource → Outcome Error (Unit {0} × ZeroCopySource)
skip_field n source = let (eof, source') = skip source n in ok (tt, source')

unfoldable pub skip_last : ℕ → ZeroCopySource → Outcome Error (Unit {0} × ZeroCopySource)
skip_last n source =
    let (eof, source') = skip source n in fail_if eof unexpected_eof >> ok (tt, source')

-- `deserializationUnsigned` of a raw header: version, three hashes and the timestamp are skipped.
unfoldable pub read_height : ZeroCopySource → Outcome Error (ℕ × ZeroCopySource)
read_height source = do
  a ← skip_field 104 source
  height ← word_field 4 a.1
  c ← skip_field 8 height.1
  p ← regular_field (next_var_bytes c.1)
  n ← skip_last 20 p.1
  ok (height.0, n.1)

unfoldable pub skip_var_bytes : ℕ → ZeroCopySource → Outcome Error (Unit {0} × ZeroCopySource)
skip_var_bytes zero source = ok (tt, source)
skip_var_bytes (suc n) source = do buf ← whole_field (next_var_bytes source); skip_var_bytes n buf.1

unfoldable pub skip_header : ZeroCopySource → Outcome Error (ℕ × ZeroCopySource)
skip_header source = do
  height ← read_height source
  n ← whole_field (next_var_uint height.1)
  ks ← skip_var_bytes (rounds n.0) n.1
  m ← whole_field (next_var_uint ks.1)
  sigs ← skip_var_bytes (rounds m.0) m.1
  ok (height.0, sigs.1)

unfoldable pub deserialize_raw_header : ZeroCopySource → Outcome Error (RawHeader × ZeroCopySource)
deserialize_raw_header source = do
  r ← with_raw (λ n. ok tt) skip_header source
  ok (record { height = r.0.0; payload = r.0.1 }, r.1)

-- `GetRawHeader`
unfoldable pub get_raw_header : {K : Type 0} → PublicKeys K → Header K → RawHeader
get_raw_header keys hd = record { height = hd.unsigned.height; payload = header_bytes keys hd }

skip-next_bytes :
    (source : ZeroCopySource) (n : ℕ)
    → skip source n ≡ ((next_bytes source n).1, (next_bytes source n).2)
unfolding skip next_bytes
skip-next_bytes source n = refl

skip_field-Reads : (n : ℕ) (p : List ℕ) → length p ≡ n → Reads (skip_field n) p tt
unfolding skip_field
skip_field-Reads n p h pre rest m =
    rw (skip-next_bytes (reading pre (p ++ rest)) n, next_bytes-reading pre p rest n h m)

skip_last-Reads : (n : ℕ) (p : List ℕ) → length p ≡ n → Reads (skip_last n) p tt
unfolding skip_last
skip_last-Reads n p h pre rest m =
    rw (skip-next_bytes (reading pre (p ++ rest)) n, next_bytes-reading pre p rest n h m)

-- What comes before the height.
front : UnsignedHeader → List ℕ
front bd =
    uint32_bytes bd.version
    ++ (bd.prev_block_hash
        ++ (bd.transactions_root ++ (bd.block_root ++ uint32_bytes bd.timestamp)))

length-front : (bd : UnsignedHeader) → IsUnsignedHeader bd → length (front bd) ≡ 104
unfolding front uint32_bytes
length-front bd is =
    let version = le_bytes 4 bd.version in
    let timestamp = le_bytes 4 bd.timestamp in
    let p = is.prev_block_hash in
    let t = is.transactions_root in
    let r = is.block_root in
    omega (
      arith,
      length-append version
          (bd.prev_block_hash ++ (bd.transactions_root ++ (bd.block_root ++ timestamp))),
      length-append bd.prev_block_hash (bd.transactions_root ++ (bd.block_root ++ timestamp)),
      length-append bd.transactions_root (bd.block_root ++ timestamp),
      length-append bd.block_root timestamp,
      length-le_bytes 4 bd.version,
      length-le_bytes 4 bd.timestamp,
    )

unsigned_bytes-front :
    (bd : UnsignedHeader)
    → unsigned_bytes bd
      ≡ front bd
        ++ (uint32_bytes bd.height
            ++ (uint64_bytes bd.consensus_data
                ++ (var_bytes bd.consensus_payload ++ bd.next_bookkeeper)))
unfolding front unsigned_bytes
unsigned_bytes-front bd = simp (append_assoc)

read_height-Reads :
    (bd : UnsignedHeader) → IsUnsignedHeader bd → Reads read_height (unsigned_bytes bd) bd.height
unfolding read_height uint32_bytes uint64_bytes
read_height-Reads bd is = rw (unsigned_bytes-front bd) (
    Reads-then (skip_field 104) _ (skip_field-Reads 104 (front bd) (length-front bd is)) (
      Reads-then (word_field 4) _ (word_field-Reads 4 bd.height is.height) (
        Reads-then (skip_field 8) _
          (skip_field-Reads 8 (le_bytes 8 bd.consensus_data) (length-le_bytes 8 bd.consensus_data))
          (Reads-then (λ source. regular_field (next_var_bytes source)) _
            (regular_bytes-Reads bd.consensus_payload)
            (Reads-end (skip_last 20) _ (skip_last-Reads 20 bd.next_bookkeeper is.next_bookkeeper)
              (λ s. refl))))))

skip_sig_data-Reads :
    (sigs : List (List ℕ)) → Reads (skip_var_bytes (length sigs)) (sig_data_bytes sigs) tt
unfolding skip_var_bytes sig_data_bytes
skip_sig_data-Reads [] = Reads-nothing tt
skip_sig_data-Reads (sig ∷ sigs) =
    Reads-then (λ source. whole_field (next_var_bytes source)) _ (whole_bytes-Reads sig)
      (skip_sig_data-Reads sigs)

module _ {K : Type 0} (keys : PublicKeys K) where
  skip_bookkeepers-Reads :
      (ks : List K) → Reads (skip_var_bytes (length ks)) (bookkeepers_bytes keys ks) tt
  unfolding skip_var_bytes bookkeepers_bytes
  skip_bookkeepers-Reads [] = Reads-nothing tt
  skip_bookkeepers-Reads (k ∷ ks) =
      Reads-then (λ source. whole_field (next_var_bytes source)) _
        (whole_bytes-Reads (keys.serialize k)) (skip_bookkeepers-Reads ks)

  skip_header-Reads :
      (bd : Header K)
      → IsHeader keys bd
      → Reads skip_header (header_bytes keys bd) bd.unsigned.height
  unfolding skip_header header_bytes
  skip_header-Reads bd is =
      let few = is.bookkeepers in
      let few' = is.sig_data in
      let n = length bd.bookkeepers in
      let m = length bd.sig_data in
      Reads-then read_height _ (read_height-Reads bd.unsigned is.unsigned) (
        Reads-then (λ source. whole_field (next_var_uint source)) _
          (whole_count-Reads n (omega arith))
          (rw (rounds_small n few) (
            Reads-then (skip_var_bytes n) _ (skip_bookkeepers-Reads bd.bookkeepers) (
              Reads-then (λ source. whole_field (next_var_uint source)) _
                (whole_count-Reads m (omega arith))
                (rw (rounds_small m few') (
                  Reads-end (skip_var_bytes m) _ (skip_sig_data-Reads bd.sig_data) (λ s. refl)))))))

  deserialize_raw_header-Reads :
      (bd : Header K)
      → IsHeader keys bd
      → Reads deserialize_raw_header (header_bytes keys bd) (get_raw_header keys bd)
  unfolding deserialize_raw_header get_raw_header
  deserialize_raw_header-Reads bd is =
      Reads-end (with_raw (λ n. ok tt) skip_header) _
        (with_raw-Reads (λ n. ok tt) skip_header (skip_header-Reads bd is) refl) (λ s. refl)

  -- For a header whose fields fit their types, with fewer than 2 ^ 63 bookkeepers and signatures
  -- and fewer than 2 ^ 63 bytes, the shorter reader of `RawHeader` gives from the header's bytes
  -- what `GetRawHeader` makes of the header, its height and its bytes, and stands at their end.
  pub deserialize_raw_header-header_bytes :
      (bd : Header K)
      → IsHeader keys bd
      → InMemory (header_bytes keys bd)
      → deserialize_raw_header (new_source (header_bytes keys bd))
        ≡ ok (
          get_raw_header keys bd,
          record { s = header_bytes keys bd; off = length (header_bytes keys bd) },
        )
  deserialize_raw_header-header_bytes bd is m =
      Reads-whole deserialize_raw_header (deserialize_raw_header-Reads bd is) m
