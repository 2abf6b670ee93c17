-- ===== src/State/Iterator.antt =====
-- node/core/store/overlaydb/iterator.go: the entries of a memory table and of the store below it,
-- as one sequence. The two iterators are parameters; the loops that pass over deleted entries have
-- fuel.
pub mod Merge
pub mod Join
use Prim.Native.Nat.{Ordering}
use Prim.Native.Nat.Ordering.{lt, eq, gt}
use layer.Base.{
  ℕ, zero, suc, ◌≡◌, Bool, true, false, not, ◌&&◌, ◌||◌, List, [], ◌∷◌, length, ◌==◌, if◌then◌else◌,
}
use layer.State.Keys.{Entry, compare_bytes}

-- What stands at the front of the entries ahead: no bytes past the end.
abbrev pub key_at : List Entry → List ℕ
key_at [] = []
key_at (e ∷ es) = e.0

abbrev pub value_at : List Entry → List ℕ
value_at [] = []
value_at (e ∷ es) = e.1

abbrev pub tail : List Entry → List Entry
tail [] = []
tail (e ∷ es) = es

abbrev pub more : List Entry → Bool
more [] = false
more (e ∷ es) = true

-- `StoreIterator` of node/core/store/common/store.go. `all` is what the iterator ranges over, and
-- `ahead` what it has not passed, the entry where it stands included.
pub record StoreIterator (I : Type 0) : Type 0 where
  pub first : I → Bool × I
  pub next : I → Bool × I
  pub key : I → List ℕ
  pub value : I → List ℕ
  pub failed : I → Bool
  pub all : I → List Entry
  pub ahead : I → List Entry
  pub ahead-first : (i : I) → ahead (first i).1 ≡ all i
  pub found-first : (i : I) → (first i).0 ≡ more (all i)
  pub ahead-next : (i : I) → ahead (next i).1 ≡ tail (ahead i)
  pub found-next : (i : I) → (next i).0 ≡ more (tail (ahead i))
  pub key_lem : (i : I) → key i ≡ key_at (ahead i)
  pub value_lem : (i : I) → value i ≡ value_at (ahead i)

pub data KeyOrigin : Type 0 where
  from_mem from_back from_both : KeyOrigin

unfoldable pub moves_mem : KeyOrigin → Bool
moves_mem from_mem = true
moves_mem from_back = false
moves_mem from_both = true

unfoldable pub moves_back : KeyOrigin → Bool
moves_back from_mem = false
moves_back from_back = true
moves_back from_both = true

pub record JoinIter (M : Type 0) (B : Type 0) : Type 0 where
  pub backend : B
  pub memdb : M
  pub key : List ℕ
  pub value : List ℕ
  pub key_origin : KeyOrigin
  pub next_mem_end : Bool
  pub next_back_end : Bool

-- `iter.nextMemEnd = !iter.memdb.Next()`, where the side moves and has not ended.
unfoldable pub advance : {I : Type 0} → StoreIterator I → Bool → Bool → I → Bool × I
advance it moves ended i =
    let step = it.next i in if moves && not ended then (not step.0, step.1) else (ended, i)

module _ {M B : Type 0} (mem : StoreIterator M) (back : StoreIterator B) where
  unfoldable pub new_join_iter : M → B → JoinIter M B
  new_join_iter m b = record {
    backend = b;
    memdb = m;
    key = [];
    value = [];
    key_origin = from_mem;
    next_mem_end = false;
    next_back_end = false;
  }

  unfoldable pub error : JoinIter M B → Bool
  error iter = back.failed iter.backend || mem.failed iter.memdb

  -- The current entry is the memory table's, with the origin that is given, or the store's.
  unfoldable pub stand_mem : KeyOrigin → JoinIter M B → Bool × JoinIter M B
  stand_mem origin iter = (
    true,
    record iter { key = mem.key iter.memdb; value = mem.value iter.memdb; key_origin = origin },
  )

  unfoldable pub stand_back : JoinIter M B → Bool × JoinIter M B
  stand_back iter = (
    true,
    record iter {
      key = back.key iter.backend;
      value = back.value iter.backend;
      key_origin = from_back;
    },
  )

  -- The smaller of the two keys, by the answer of the comparison.
  unfoldable pub stand_by : Ordering → JoinIter M B → Bool × JoinIter M B
  stand_by lt iter = stand_mem from_mem iter
  stand_by eq iter = stand_mem from_both iter
  stand_by gt iter = stand_back iter

  unfoldable pub stand_smaller : JoinIter M B → Bool × JoinIter M B
  stand_smaller iter = stand_by (compare_bytes (mem.key iter.memdb) (back.key iter.backend)) iter

  -- `first`, from what the two iterators answered.
  unfoldable pub stand_first : Bool → Bool → JoinIter M B → Bool × JoinIter M B
  stand_first true true iter = stand_smaller iter
  stand_first true false iter = stand_back iter
  stand_first false true iter = stand_mem from_mem iter
  stand_first false false iter = (false, iter)

  -- `first`
  unfoldable pub first_entry : JoinIter M B → Bool × JoinIter M B
  first_entry iter =
      let b = back.first iter.backend in
      let m = mem.first iter.memdb in
      let moved = record iter { backend = b.1; memdb = m.1 } in
      if error moved then (false, moved) else stand_first b.0 m.0 moved

  -- The end of `next`, from the two flags.
  unfoldable pub stand_next : Bool → Bool → JoinIter M B → Bool × JoinIter M B
  stand_next true true iter = (false, record iter { key = []; value = [] })
  stand_next true false iter = stand_mem from_mem iter
  stand_next false true iter = stand_back iter
  stand_next false false iter = stand_smaller iter

  -- `next`
  unfoldable pub next_entry : JoinIter M B → Bool × JoinIter M B
  next_entry iter =
      let m = advance mem (moves_mem iter.key_origin) iter.next_mem_end iter.memdb in
      let b = advance back (moves_back iter.key_origin) iter.next_back_end iter.backend in
      let moved = record iter {
        backend = b.1;
        memdb = m.1;
        next_mem_end = m.0;
        next_back_end = b.0;
      } in
      if error moved then (false, moved) else stand_next b.0 m.0 moved

  -- `for len(iter.value) == 0`
  unfoldable pub skip_deleted : ℕ → Bool × JoinIter M B → Bool × JoinIter M B
  skip_deleted zero (found, iter) = (false, iter)
  skip_deleted (suc fuel) (found, iter) =
      let rest = skip_deleted fuel (next_entry iter) in
      if found && (length iter.value == 0) then rest else (found, iter)

  -- `First` and `Next`
  unfoldable pub first : ℕ → JoinIter M B → Bool × JoinIter M B
  first fuel iter = skip_deleted fuel (first_entry iter)

  unfoldable pub next : ℕ → JoinIter M B → Bool × JoinIter M B
  next fuel iter = skip_deleted fuel (next_entry iter)

  -- The entries that `for ok := First(); ok; ok = Next()` sees in so many rounds.
  unfoldable pub visit : ℕ → ℕ → Bool × JoinIter M B → List Entry
  visit fuel zero (found, iter) = []
  visit fuel (suc rounds) (found, iter) =
      let rest = visit fuel rounds (next fuel iter) in
      if found then (iter.key, iter.value) ∷ rest else []
