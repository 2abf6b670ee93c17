-- ===== src/Ledger/Header/RoundTrip.antt =====
-- A header is read back.
use layer.Base.{ℕ, ◌^◌, ◌<◌, ◌≡◌, refl, List, [], ◌∷◌, length, arith}
use layer.Common.Bytes.{uint32_bytes, uint64_bytes}
use layer.Common.Source.{next_var_uint, next_var_bytes}
use layer.Common.Source.Codec.{Reads, Reads-then, Reads-end, Reads-nothing}
use layer.Ledger.Fields.{word_field, hash_field, address_last, regular_field, whole_field}
use layer.Ledger.Fields.Reads.{
  word_field-Reads, hash_field-Reads, address_last-Reads, regular_bytes-Reads, whole_bytes-Reads,
  whole_count-Reads,
}
use layer.Ledger.Header.{
  PublicKeys, UnsignedHeader, Header, unsigned_bytes, read_unsigned, rounds, read_sig_data,
  sig_data_bytes, key_of, bookkeepers_bytes, header_bytes, read_bookkeepers, deserialize_header,
}

pub record IsUnsignedHeader (bd : UnsignedHeader) : Type 0 where
  pub version : bd.version < 256 ^ 4
  pub prev_block_hash : length bd.prev_block_hash ≡ 32
  pub transactions_root : length bd.transactions_root ≡ 32
  pub block_root : length bd.block_root ≡ 32
  pub timestamp : bd.timestamp < 256 ^ 4
  pub height : bd.height < 256 ^ 4
  pub consensus_data : bd.consensus_data < 256 ^ 8
  pub next_bookkeeper : length bd.next_bookkeeper ≡ 20

read_unsigned-Reads :
    (bd : UnsignedHeader) → IsUnsignedHeader bd → Reads read_unsigned (unsigned_bytes bd) bd
unfolding read_unsigned unsigned_bytes uint32_bytes uint64_bytes
read_unsigned-Reads bd is = Reads-then (word_field 4) _ (word_field-Reads 4 bd.version is.version) (
    Reads-then hash_field _ (hash_field-Reads bd.prev_block_hash is.prev_block_hash) (
      Reads-then hash_field _ (hash_field-Reads bd.transactions_root is.transactions_root) (
        Reads-then hash_field _ (hash_field-Reads bd.block_root is.block_root) (
          Reads-then (word_field 4) _ (word_field-Reads 4 bd.timestamp is.timestamp) (
            Reads-then (word_field 4) _ (word_field-Reads 4 bd.height is.height) (
              Reads-then (word_field 8) _ (word_field-Reads 8 bd.consensus_data is.consensus_data) (
                Reads-then (λ source. regular_field (next_var_bytes source)) _
                  (regular_bytes-Reads bd.consensus_payload)
                  (Reads-end address_last _
                    (address_last-Reads bd.next_bookkeeper is.next_bookkeeper) (λ s. refl)))))))))

read_sig_data-Reads :
    (sigs : List (List ℕ)) → Reads (read_sig_data (length sigs)) (sig_data_bytes sigs) sigs
unfolding read_sig_data sig_data_bytes
read_sig_data-Reads [] = Reads-nothing []
read_sig_data-Reads (sig ∷ sigs) =
    Reads-then (λ source. whole_field (next_var_bytes source)) _ (whole_bytes-Reads sig)
      (Reads-end (read_sig_data (length sigs)) _ (read_sig_data-Reads sigs) (λ s. refl))

pub rounds_small : (n : ℕ) → n < 0x8000_0000_0000_0000 → rounds n ≡ n
unfolding rounds
rounds_small n h = ground arith

module _ {K : Type 0} (keys : PublicKeys K) where
  read_bookkeepers-Reads :
      (ks : List K) → Reads (read_bookkeepers keys (length ks)) (bookkeepers_bytes keys ks) ks
  unfolding read_bookkeepers bookkeepers_bytes key_of
  read_bookkeepers-Reads [] = Reads-nothing []
  read_bookkeepers-Reads (k ∷ ks) =
      Reads-then (λ source. whole_field (next_var_bytes source)) _
        (whole_bytes-Reads (keys.serialize k))
        (rw (keys.deserialize-serialize k)
          (Reads-end (read_bookkeepers keys (length ks)) _ (read_bookkeepers-Reads ks) (λ s. refl)))

  pub record IsHeader (bd : Header K) : Type 0 where
    pub unsigned : IsUnsignedHeader bd.unsigned
    pub bookkeepers : length bd.bookkeepers < 0x8000_0000_0000_0000
    pub sig_data : length bd.sig_data < 0x8000_0000_0000_0000

  pub deserialize_header-Reads :
      (bd : Header K) → IsHeader bd → Reads (deserialize_header keys) (header_bytes keys bd) bd
  unfolding deserialize_header header_bytes
  deserialize_header-Reads bd is =
      let few = is.bookkeepers in
      let few' = is.sig_data in
      Reads-then read_unsigned _ (read_unsigned-Reads bd.unsigned is.unsigned) (
        Reads-then (λ source. whole_field (next_var_uint source)) _
          (whole_count-Reads (length bd.bookkeepers) (omega arith))
          (rw (rounds_small (length bd.bookkeepers) few) (
            Reads-then (read_bookkeepers keys (length bd.bookkeepers)) _
              (read_bookkeepers-Reads bd.bookkeepers)
              (Reads-then (λ source. whole_field (next_var_uint source)) _
                (whole_count-Reads (length bd.sig_data) (omega arith))
                (rw (rounds_small (length bd.sig_data) few') (
                  Reads-end (read_sig_data (length bd.sig_data)) _ (read_sig_data-Reads bd.sig_data)
                    (λ s. refl)))))))
