-- ===== src/Native/Item.antt =====
-- node/core/states/{state_base,storage_item}.go: the value that a contract stores under a key, with
-- a version byte before it.
use layer.Base.{ℕ, ◌≡◌, List, [], ◌∷◌, ◌++◌, append-nil, Outcome, ok, ◌>>=◌, ◌>>◌, fail_if}
use layer.Common.Bytes.{var_bytes}
use layer.Common.Source.{ZeroCopySource, new_source, next_byte, next_var_bytes}
use layer.Common.Source.Reading.{reading, InMemory, next_byte-reading, next_var_bytes-reading}

pub data Error : Type 0 where
  unexpected_eof irregular_data : Error

pub record StorageItem : Type 0 where
  pub state_version : ℕ
  pub value : List ℕ

-- `ToArray`: what `Serialization` writes into an empty sink.
unfoldable pub item_bytes : StorageItem → List ℕ
item_bytes item = item.state_version ∷ var_bytes item.value

unfoldable pub deserialize_item : ZeroCopySource → Outcome Error StorageItem
deserialize_item source =
    let (version, eof, source') = next_byte source in
    let r = next_var_bytes source' in
    fail_if eof unexpected_eof
    >> (fail_if r.irregular irregular_data
        >> (fail_if r.eof unexpected_eof
            >> ok (record { state_version = version; value = r.value })))

unfoldable pub get_value_from_raw_storage_item : List ℕ → Outcome Error (List ℕ)
get_value_from_raw_storage_item raw = do item ← deserialize_item (new_source raw); ok item.value

unfoldable pub gen_raw_storage_item : List ℕ → List ℕ
gen_raw_storage_item value = item_bytes (record { state_version = 0; value = value })

-- A storage item whose bytes are fewer than 2 ^ 63 is read back whole by `Deserialization`.
pub deserialize_item-item_bytes :
    (item : StorageItem)
    → InMemory (item_bytes item)
    → deserialize_item (new_source (item_bytes item)) ≡ ok item
unfolding deserialize_item item_bytes new_source
deserialize_item-item_bytes item m =
    let v = item.state_version in
    let back = next_var_bytes-reading (v ∷ []) [] item.value (rw append-nil m) in
    let whole : reading (v ∷ []) (var_bytes item.value ++ [])
        ≡ reading (v ∷ []) (var_bytes item.value) =
      rw append-nil in
    rw (next_byte-reading [] (var_bytes item.value) v, ← whole, back)
