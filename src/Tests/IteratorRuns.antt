-- ===== src/Tests/IteratorRuns.antt =====
-- An iterator over a list of entries, and two of them joined.
use layer.Base.{ℕ, ◌≡◌, refl, false, List, [], ◌∷◌, arith}
use layer.State.Keys.{Entry, IsSorted, lookup, compare_bytes}
use layer.State.Iterator.{StoreIterator, key_at, value_at, tail, more, new_join_iter, first, visit}
use layer.State.Iterator.Merge.{live_value, shadowed}
use layer.State.Iterator.Join.{visit-lookup}

-- All entries, and those ahead.
abbrev Cursor : Type 0
Cursor = List Entry × List Entry

abbrev list_iterator : StoreIterator Cursor
list_iterator = record {
  first = λ i. (more i.0, (i.0, i.0));
  next = λ i. (more (tail i.1), (i.0, tail i.1));
  key = λ i. key_at i.1;
  value = λ i. value_at i.1;
  failed = λ i. false;
  all = λ i. i.0;
  ahead = λ i. i.1;
  ahead-first = λ i. refl;
  found-first = λ i. refl;
  ahead-next = λ i. refl;
  found-next = λ i. refl;
  key_lem = λ i. refl;
  value_lem = λ i. refl;
}

-- The key 2 is deleted, and 3 has a new value.
abbrev in_memory : Cursor
in_memory = ((2 ∷ [], []) ∷ (3 ∷ [], 9 ∷ []) ∷ [], [])

abbrev in_store : Cursor
in_store = ((1 ∷ [], 5 ∷ []) ∷ (2 ∷ [], 6 ∷ []) ∷ (3 ∷ [], 7 ∷ []) ∷ (4 ∷ [], 8 ∷ []) ∷ [], [])

in_memory-IsSorted : IsSorted in_memory.0
unfolding compare_bytes
in_memory-IsSorted = ((refl, tt), (tt, tt))

in_store-IsSorted : IsSorted in_store.0
unfolding compare_bytes
in_store-IsSorted = ((refl, (refl, (refl, tt))), ((refl, (refl, tt)), ((refl, tt), (tt, tt))))

visit-lookup_example :
    IsSorted (
      visit list_iterator list_iterator 8 8 (
        first list_iterator list_iterator 8
          (new_join_iter list_iterator list_iterator in_memory in_store)))
    × ((k : List ℕ)
        → lookup k (
            visit list_iterator list_iterator 8 8 (
              first list_iterator list_iterator 8
                (new_join_iter list_iterator list_iterator in_memory in_store)))
          ≡ live_value (shadowed (lookup k in_memory.0) (lookup k in_store.0)))
visit-lookup_example =
    visit-lookup list_iterator list_iterator (λ i. refl) (λ i. refl) in_memory in_store 8
      in_memory-IsSorted in_store-IsSorted (omega arith)
