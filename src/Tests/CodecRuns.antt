-- ===== src/Tests/CodecRuns.antt =====
-- The theorems on the buffers and on stored items, at small byte strings.
use layer.Base.{
  ◌+◌, ◌≤◌, ◌≡◌, arith, false, [], ◌∷◌, ◌++◌, length, drop, min, ltb, some, ok, bytes_equal,
  if◌then◌else◌,
}
use layer.Common.Words.{le_bytes}
use layer.Common.Bytes.{var_bytes, var_uint_bytes}
use layer.Common.Source.{ZeroCopySource, next_bytes, next_var_uint, next_var_bytes, unread}
use layer.Common.Source.Reading.{reading, next_var_uint-reading, next_var_bytes-reading}
use layer.Common.Source.Bounds.{Advances, next_bytes_lem, next_var_bytes-Advances}
use layer.Common.Source.Bounds
use layer.Common.Sink.{ZeroCopySink, bytes, capacity, write_bytes, write_var_uint, write_var_bytes}
use layer.Common.Sink.Append.{
  IsValid, Appends, write_bytes-Appends, write_var_uint-Appends, write_var_bytes-Appends,
}
use layer.Native.Item.{StorageItem, item_bytes, deserialize_item-item_bytes, deserialize_item}
use layer.Common.Source.{new_source}
use layer.Native.Store.{get_storage_uint64, gen_uint64_storage_item}
use layer.Native.Store.Numbers.{get_storage_uint64-put}
use layer.Tests.{entries_db}

next_var_uint-reading_run :
    next_var_uint (reading (9 ∷ []) (var_uint_bytes 70000 ++ (5 ∷ []))) ≡ record {
      value = 70000;
      size = 5;
      irregular = false;
      eof = false;
      source = reading (9 ∷ 0xfe ∷ 112 ∷ 17 ∷ 1 ∷ 0 ∷ []) (5 ∷ []);
    }
unfolding var_uint_bytes le_bytes
next_var_uint-reading_run =
    next_var_uint-reading (9 ∷ []) (5 ∷ []) 70000 (omega arith) (omega arith)

next_var_bytes-reading_run :
    next_var_bytes (reading (9 ∷ []) (var_bytes (1 ∷ 2 ∷ 3 ∷ []) ++ (5 ∷ []))) ≡ record {
      value = 1 ∷ 2 ∷ 3 ∷ [];
      size = 4;
      irregular = false;
      eof = false;
      source = reading (9 ∷ 3 ∷ 1 ∷ 2 ∷ 3 ∷ []) (5 ∷ []);
    }
unfolding var_bytes var_uint_bytes
next_var_bytes-reading_run = next_var_bytes-reading (9 ∷ []) (5 ∷ []) (1 ∷ 2 ∷ 3 ∷ []) (omega arith)

-- Two bytes are asked for where one is left.
abbrev near_end : ZeroCopySource
near_end = record { s = 4 ∷ 5 ∷ 6 ∷ []; off = 2 }

near_end-IsValid : Bounds.IsValid near_end
near_end-IsValid = record { in_range = omega arith; in_memory = omega arith }

next_bytes_lem_example :
    let (buf, eof, src') = next_bytes near_end 2 in
    Advances near_end src'
    × (buf ++ drop src'.off src'.s ≡ drop 2 (4 ∷ 5 ∷ 6 ∷ []))
    × (length buf ≡ min 2 (unread near_end))
    × (eof ≡ ltb (unread near_end) 2)
next_bytes_lem_example = next_bytes_lem near_end 2 near_end-IsValid (omega arith)

next_var_bytes-Advances_run : Advances near_end (next_var_bytes near_end).source
next_var_bytes-Advances_run =
    next_var_bytes-Advances near_end near_end-IsValid
      (omega arith, (omega arith, (omega arith, tt)))

-- A buffer of two bytes with one in use: every write below has to grow it.
abbrev small_sink : ZeroCopySink
small_sink = record { mem = 8 ∷ 0 ∷ []; len = 1 }

small_sink-IsValid : IsValid small_sink
small_sink-IsValid = record { in_use = omega arith; in_memory = omega arith }

write_bytes-Appends_run : Appends small_sink (1 ∷ 2 ∷ []) (write_bytes small_sink (1 ∷ 2 ∷ []))
write_bytes-Appends_run =
    write_bytes-Appends small_sink (1 ∷ 2 ∷ []) small_sink-IsValid (omega arith)

write_var_uint-Appends_run :
    (sink' : ZeroCopySink) × (write_var_uint small_sink 300
      ≡ some (length (var_uint_bytes 300), sink'))
    × (bytes sink' ≡ bytes small_sink ++ var_uint_bytes 300)
    × IsValid sink'
    × (capacity sink' ≤ capacity small_sink + capacity small_sink + 9)
write_var_uint-Appends_run = write_var_uint-Appends small_sink 300 small_sink-IsValid (omega arith)

write_var_bytes-Appends_run :
    (sink' : ZeroCopySink) × (write_var_bytes small_sink (1 ∷ 2 ∷ [])
      ≡ some (length (var_bytes (1 ∷ 2 ∷ [])), sink'))
    × (bytes sink' ≡ bytes small_sink ++ var_bytes (1 ∷ 2 ∷ []))
    × IsValid sink'
write_var_bytes-Appends_run =
    write_var_bytes-Appends small_sink (1 ∷ 2 ∷ []) small_sink-IsValid (omega arith)

abbrev sample_item : StorageItem
sample_item = record { state_version = 0; value = 7 ∷ 8 ∷ [] }

deserialize_item-item_bytes_run :
    deserialize_item (new_source (item_bytes sample_item)) ≡ ok sample_item
unfolding item_bytes var_bytes var_uint_bytes
deserialize_item-item_bytes_run = deserialize_item-item_bytes sample_item (omega arith)

get_storage_uint64-put_run :
    get_storage_uint64 entries_db
      (entries_db.put [] (1 ∷ []) (item_bytes (gen_uint64_storage_item 500)))
      (1 ∷ [])
    ≡ (if bytes_equal (1 ∷ []) (1 ∷ []) then ok 500 else get_storage_uint64 entries_db [] (1 ∷ []))
get_storage_uint64-put_run =
    get_storage_uint64-put entries_db [] (1 ∷ []) (1 ∷ []) 500 (omega arith)
