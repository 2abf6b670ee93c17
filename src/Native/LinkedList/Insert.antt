-- ===== src/Native/LinkedList/Insert.antt =====
-- What LinkedlistInsert leaves: the head and every node of the list behind it.
use layer.Base.{
  ℕ, ◌+◌, ◌<◌, ◌≡◌, ap, ◌∙◌, false, List, [], ◌++◌, length, length-append, if◌then◌else◌, none,
  some, ok, arith, Bool-cases, inl, inr, bytes_equal, bytes_equal→eq, bytes_equal_refl,
}
use layer.Native.Store.{Db}
use layer.Native.LinkedList.{
  LinkedlistNode, is_nil, deref, put_bytes, put_node, get_list_head, get_list_node, insert_front,
  insert_new, insert_at, linkedlist_insert,
}
use layer.Native.LinkedList.Nodes.{IsSmall, value-put_bytes, get_list_node-put_node}

index-ne_key :
    (index item : List ℕ) → is_nil item ≡ false → bytes_equal index (index ++ item) ≡ false
unfolding is_nil
index-ne_key index item h = elim (Bool-cases (bytes_equal index (index ++ item))) [
  | inl e ↦
      let same = ap length (bytes_equal→eq index (index ++ item) e) in
      let sum = length-append index item in absurd (ground arith)
  | inr e ↦ e
]

-- An item is short enough to be stored.
abbrev pub IsShort : List ℕ → Type 0
IsShort item = length item < 0x1000_0000_0000_0000

module _ {S : Type 0} (db : Db S) where
  get_list_head-put_bytes :
      (s : S) (index item : List ℕ)
      → IsShort item
      → get_list_head db (put_bytes db s index item) index ≡ ok item
  unfolding get_list_head
  get_list_head-put_bytes s index item small =
      value-put_bytes db s index index item (omega arith) ∙ rw (bytes_equal_refl index)

  get_list_node-put_bytes :
      (s : S) (index item j : List ℕ)
      → IsShort item
      → is_nil j ≡ false
      → get_list_node db (put_bytes db s index item) index j ≡ get_list_node db s index j
  unfolding get_list_node
  get_list_node-put_bytes s index item j small h =
      rw (value-put_bytes db s index (index ++ j) item (omega arith), index-ne_key index j h)

  -- Let a stored list begin with `head`, whose node is `qhead`, and have no node at `item`; let
  -- both items have bytes and differ, and let these, the payload and the parts of `qhead` that
  -- stay be shorter than 2 ^ 60. Then `LinkedlistInsert` succeeds, `item` is the head of the
  -- list, its node has `head` behind it and nothing before it, the node of `head` has `item`
  -- before it, and every other node is as it was.
  pub linkedlist_insert-front :
      (s : S) (index item head payload : List ℕ) (qhead : LinkedlistNode)
      → is_nil item ≡ false
      → is_nil head ≡ false
      → bytes_equal item head ≡ false
      → IsShort item
      → IsShort head
      → IsShort payload
      → length qhead.next + length qhead.payload < 0x1000_0000_0000_0000
      → get_list_head db s index ≡ ok head
      → get_list_node db s index item ≡ ok none
      → get_list_node db s index head ≡ ok (some qhead)
      → (s' : S) × (linkedlist_insert db s index (some item) payload ≡ ok s')
        × (get_list_head db s' index ≡ ok item)
        × ((j : List ℕ)
            → is_nil j ≡ false
            → get_list_node db s' index j ≡ (
                if bytes_equal head j
                then ok (some (record qhead { prev = item }))
                else if bytes_equal item j
                then ok (some (record { next = head; prev = []; payload = payload }))
                else get_list_node db s index j))
  unfolding linkedlist_insert insert_at insert_new insert_front deref
  linkedlist_insert-front s index item head payload qhead used used' apart a b c d at_head new old =
      let first : LinkedlistNode = record { next = head; prev = []; payload = payload } in
      let second : LinkedlistNode = record qhead { prev = item } in
      let s1 = put_node db s index item first in
      let s2 = put_node db s1 index head second in
      let small1 : IsSmall first = omega arith in
      let small2 : IsSmall second = omega arith in
      let read : get_list_node db s1 index head ≡ ok (some qhead) =
        get_list_node-put_node db s index item head first small1 ∙ rw apart old in
      (
        put_bytes db s2 index item,
        rw (at_head, new, used', read),
        get_list_head-put_bytes s2 index item a,
        λ j h.
            (get_list_node-put_bytes s2 index item j a h
              ∙ get_list_node-put_node db s1 index head j second small2
              ∙ rw (get_list_node-put_node db s index item j first small1)),
      )
