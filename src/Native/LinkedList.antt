-- ===== src/Native/LinkedList.antt =====
-- node/smartcontract/service/native/utils/linked_list.go: doubly linked lists in the contract
-- storage. A list has its head under `index` and each node under `index ++ item`. The slices that
-- the code compares with nil are read by NextVarBytes, which gives nil exactly for no bytes, so the
-- empty list stands for nil; only the argument `item` tells the two apart.
pub mod Nodes
pub mod Insert
use layer.Base.{
  ℕ, zero, suc, ◌+◌, Bool, true, false, List, [], ◌∷◌, ◌++◌, length, ◌==◌, if◌then◌else◌, Option,
  none, some, Outcome, ok, err, ◌>>=◌, ◌>>◌, fail_if,
}
use layer.Common.Bytes.{var_bytes}
use layer.Common.Source.{ZeroCopySource, new_source, next_var_bytes}
use layer.Native.Item
use layer.Native.Item.{get_value_from_raw_storage_item, gen_raw_storage_item}
use layer.Native.Store.{Read, found, missing, failed, Db}

pub record LinkedlistNode : Type 0 where
  pub next : List ℕ
  pub prev : List ℕ
  pub payload : List ℕ

-- `nil_pointer` is a panic.
pub data ListError : Type 0 where
  storage_error bad_item bad_node invalid_item nil_pointer no_fuel : ListError

unfoldable pub node_bytes : LinkedlistNode → List ℕ
node_bytes node = var_bytes node.next ++ (var_bytes node.prev ++ var_bytes node.payload)

-- `DecodeVarBytes` of serialization.go.
unfoldable pub decode_var_bytes : ZeroCopySource → Outcome ListError (List ℕ × ZeroCopySource)
decode_var_bytes source =
    let r = next_var_bytes source in
    fail_if r.eof bad_node >> (fail_if r.irregular bad_node >> ok (r.value, r.source))

unfoldable pub deserialize_node : List ℕ → Outcome ListError LinkedlistNode
deserialize_node r = do
  (next, source) ← decode_var_bytes (new_source r)
  (prev, source') ← decode_var_bytes source
  (payload, source'') ← decode_var_bytes source'
  ok (record { next = next; prev = prev; payload = payload })

unfoldable pub as_value : Outcome Item.Error (List ℕ) → Outcome ListError (List ℕ)
as_value (ok value) = ok value
as_value (err e) = err bad_item

-- The value under a key, and no bytes where there is none.
unfoldable pub value_of : Read → Outcome ListError (List ℕ)
value_of failed = err storage_error
value_of missing = ok []
value_of (found raw) = as_value (get_value_from_raw_storage_item raw)

unfoldable pub is_nil : List ℕ → Bool
is_nil xs = length xs == 0

-- A dereferenced pointer.
unfoldable pub deref : Option LinkedlistNode → Outcome ListError LinkedlistNode
deref none = err nil_pointer
deref (some node) = ok node

unfoldable pub node_of : List ℕ → Outcome ListError (Option LinkedlistNode)
node_of raw = if is_nil raw then ok none else (deserialize_node raw >>= λ node. ok (some node))

module _ {S : Type 0} (db : Db S) where
  unfoldable pub put_bytes : S → List ℕ → List ℕ → S
  put_bytes s key value = db.put s key (gen_raw_storage_item value)

  unfoldable pub put_node : S → List ℕ → List ℕ → LinkedlistNode → S
  put_node s index item node = put_bytes s (index ++ item) (node_bytes node)

  unfoldable pub get_list_head : S → List ℕ → Outcome ListError (List ℕ)
  get_list_head s index = value_of (db.get s index)

  unfoldable pub get_list_node : S → List ℕ → List ℕ → Outcome ListError (Option LinkedlistNode)
  get_list_node s index item = value_of (db.get s (index ++ item)) >>= node_of

  -- `LinkedlistInsert` of a new item in front of `head`.
  unfoldable pub insert_front : S → List ℕ → List ℕ → List ℕ → List ℕ → Outcome ListError S
  insert_front s index item payload head = do
    let s1 = put_node s index item (record { next = head; prev = []; payload = payload })
    q ← get_list_node s1 index head
    qhead ← deref q
    let s2 = put_node s1 index head (record qhead { prev = item })
    ok (put_bytes s2 index item)

  unfoldable pub insert_new : S → List ℕ → List ℕ → List ℕ → List ℕ → Outcome ListError S
  insert_new s index item payload head =
      if is_nil head
      then ok (
          put_bytes (put_node s index item (record { next = []; prev = []; payload = payload }))
            index item)
      else insert_front s index item payload head

  -- What is done about the node that is there already, if there is one.
  unfoldable pub insert_at :
      S → List ℕ → List ℕ → List ℕ → List ℕ → Option LinkedlistNode → Outcome ListError S
  insert_at s index item payload head none = insert_new s index item payload head
  insert_at s index item payload head (some q) =
      ok (put_node s index item (record q { payload = payload }))

  unfoldable pub linkedlist_insert : S → List ℕ → Option (List ℕ) → List ℕ → Outcome ListError S
  linkedlist_insert s index none payload = err invalid_item
  linkedlist_insert s index (some item) payload = do
    head ← get_list_head s index
    q ← get_list_node s index item
    insert_at s index item payload head q

  -- The node at `item`, which has to be there, with another next or previous item.
  unfoldable pub set_prev : S → List ℕ → List ℕ → List ℕ → Outcome ListError S
  set_prev s index item prev = do
    q ← get_list_node s index item
    node ← deref q
    ok (put_node s index item (record node { prev = prev }))

  unfoldable pub set_next : S → List ℕ → List ℕ → List ℕ → Outcome ListError S
  set_next s index item next = do
    q ← get_list_node s index item
    node ← deref q
    ok (put_node s index item (record node { next = next }))

  -- A node between two others: both are read before either is written.
  unfoldable pub join : S → List ℕ → List ℕ → List ℕ → Outcome ListError S
  join s index prev next = do
    p ← get_list_node s index prev
    q ← get_list_node s index next
    qprev ← deref p
    qnext ← deref q
    let s1 = put_node s index prev (record qprev { next = next })
    ok (put_node s1 index next (record qnext { prev = prev }))

  -- `next` becomes the head.
  unfoldable pub set_head : S → List ℕ → List ℕ → Outcome ListError S
  set_head s index next = do s1 ← set_prev s index next []; ok (put_bytes s1 index next)

  unfoldable pub unlink : S → List ℕ → List ℕ → List ℕ → Outcome ListError S
  unlink s index prev next =
      if is_nil prev
      then (if is_nil next then ok (db.delete s index) else set_head s index next)
      else if is_nil next
      then set_next s index prev []
      else join s index prev next

  unfoldable pub delete_at :
      S → List ℕ → List ℕ → Option LinkedlistNode → Outcome ListError (Bool × S)
  delete_at s index item none = ok (false, s)
  delete_at s index item (some q) = do
    s1 ← unlink s index q.prev q.next
    ok (true, db.delete s1 (index ++ item))

  unfoldable pub linkedlist_delete : S → List ℕ → Option (List ℕ) → Outcome ListError (Bool × S)
  linkedlist_delete s index none = err invalid_item
  linkedlist_delete s index (some item) = do
    q ← get_list_node s index item
    delete_at s index item q

  unfoldable pub linkedlist_get_item :
      S → List ℕ → Option (List ℕ) → Outcome ListError (Option LinkedlistNode)
  linkedlist_get_item s index none = err invalid_item
  linkedlist_get_item s index (some item) = get_list_node s index item

  -- for q != nil. The fuel is the caller's, for a list that goes round has no end.
  unfoldable pub count_from : ℕ → S → List ℕ → List ℕ → ℕ → Outcome ListError ℕ
  count_from zero s index q n = err no_fuel
  count_from (suc fuel) s index q n = elim (is_nil q) [
    | true ↦ ok n
    | false ↦ do
      node ← get_list_node s index q
      qnode ← deref node
      count_from fuel s index qnode.next (n + 1)
  ]

  unfoldable pub linkedlist_get_num_of_items : ℕ → S → List ℕ → Outcome ListError ℕ
  linkedlist_get_num_of_items fuel s index = do
    head ← get_list_head s index
    count_from fuel s index head 0

  unfoldable pub delete_from : ℕ → S → List ℕ → List ℕ → Outcome ListError S
  delete_from zero s index q = err no_fuel
  delete_from (suc fuel) s index q = elim (is_nil q) [
    | true ↦ ok s
    | false ↦ do
      node ← get_list_node s index q
      qnode ← deref node
      delete_from fuel (db.delete s (index ++ q)) index qnode.next
  ]

  unfoldable pub linkedlist_delete_all : ℕ → S → List ℕ → Outcome ListError S
  linkedlist_delete_all fuel s index = do
    head ← get_list_head s index
    s1 ← delete_from fuel s index head
    ok (db.delete s1 index)
