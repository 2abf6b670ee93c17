-- ===== src/Tests/ListRuns.antt =====
-- A linked list of one item, and the insertion of another in front of it.
use layer.Base.{ℕ, ◌≡◌, refl, arith, false, List, [], ◌∷◌, some, ok, bytes_equal, if◌then◌else◌}
use layer.Common.SafeMath.{safe_add}
use layer.Common.Words.{le_bytes, le_value}
use layer.Common.Bytes.{var_bytes, var_uint_bytes}
use layer.Common.Source.{
  new_source, next_byte, next_bytes, next_word, next_uint16, next_uint32, next_uint64,
  next_var_uint, next_var_bytes, finish_var_uint, finish_var_bytes, get_var_uint_size, read_end,
}
use layer.Native.Item.{
  item_bytes, deserialize_item, get_value_from_raw_storage_item, gen_raw_storage_item,
}
use layer.Native.LinkedList.{
  LinkedlistNode, node_bytes, decode_var_bytes, deserialize_node, as_value, value_of, is_nil,
  node_of, put_bytes, put_node, get_list_head, get_list_node, linkedlist_insert,
}
use layer.Native.LinkedList.Nodes.{deserialize_node-node_bytes}
use layer.Native.LinkedList.Insert.{linkedlist_insert-front}
use layer.Tests.{Entries, entries_db}

abbrev index : List ℕ
index = 1 ∷ []

abbrev old_item : List ℕ
old_item = 5 ∷ []

abbrev new_item : List ℕ
new_item = 6 ∷ []

abbrev old_node : LinkedlistNode
old_node = record { next = []; prev = []; payload = 7 ∷ [] }

abbrev one_item : Entries
one_item = put_bytes entries_db (put_node entries_db [] index old_item old_node) index old_item

deserialize_node-node_bytes_run : deserialize_node (node_bytes old_node) ≡ ok old_node
unfolding node_bytes var_bytes var_uint_bytes
deserialize_node-node_bytes_run = deserialize_node-node_bytes old_node (omega arith)

linkedlist_insert-front_example :
    (s' : Entries) × (linkedlist_insert entries_db one_item index (some new_item) (8 ∷ []) ≡ ok s')
    × (get_list_head entries_db s' index ≡ ok new_item)
    × ((j : List ℕ)
        → is_nil j ≡ false
        → get_list_node entries_db s' index j ≡ (
            if bytes_equal old_item j
            then ok (some (record old_node { prev = new_item }))
            else if bytes_equal new_item j
            then ok (some (record { next = old_item; prev = []; payload = 8 ∷ [] }))
            else get_list_node entries_db one_item index j))
unfolding is_nil bytes_equal get_list_head get_list_node put_node put_bytes node_bytes node_of
    value_of as_value decode_var_bytes deserialize_node get_value_from_raw_storage_item
    gen_raw_storage_item deserialize_item item_bytes var_bytes var_uint_bytes le_bytes le_value
    new_source next_byte next_bytes next_word next_uint16 next_uint32 next_uint64 next_var_uint
    next_var_bytes finish_var_uint finish_var_bytes get_var_uint_size read_end safe_add
linkedlist_insert-front_example =
    linkedlist_insert-front entries_db one_item index new_item old_item (8 ∷ []) old_node refl refl
      refl (omega arith) (omega arith) (omega arith) (omega arith) refl refl refl
