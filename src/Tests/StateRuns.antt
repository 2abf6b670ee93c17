-- ===== src/Tests/StateRuns.antt =====
-- The theorems on the write caches, over a memory table that is a sorted list and a store that is
-- a list of answers.
use Prim.Native.Nat.{Ordering}
use Prim.Native.Nat.Ordering.{lt, eq, gt}
use layer.Base.{
  ℕ, ◌≡◌, refl, ◌∙◌, true, false, List, [], ◌∷◌, some, if◌then◌else◌, bytes_equal, bytes_equal→eq,
  bytes_equal_comm, Bool-cases, inl, inr,
}
use layer.State.Keys.{
  Entry, lookup, Above, IsSorted, compare_bytes, Before, Before-flip, Before-ne, Above-trans,
  compare_bytes→eq,
}
use layer.State.Overlay
use layer.State.Overlay.{OverlayDb, answered, new_overlay_db, commit_to, commit_entries}
use layer.State.Overlay.Commit.{commit_to-read}
use layer.State.Cache
use layer.State.Cache.{
  CacheDb, st_storage, make_prefixed_key, new_cache_db, commit, get_at, delete_contract,
}
use layer.State.Cache.Commit.{commit-read}
use layer.State.Cache.Storage.{get-delete_contract}
use layer.State.Backing.{MemDb, PersistStore, Answer, present, not_found}

-- An entry at its place; one with the same key is replaced.
abbrev place : Ordering → Entry → Entry → List Entry → List Entry → List Entry
place lt e f fs rest = e ∷ f ∷ fs
place eq e f fs rest = e ∷ fs
place gt e f fs rest = f ∷ rest

abbrev insert : Entry → List Entry → List Entry
insert e [] = e ∷ []
insert e (f ∷ fs) = place (compare_bytes e.0 f.0) e f fs (insert e fs)

place-Above :
    (o : Ordering) (k : List ℕ) (e f : Entry) (fs rest : List Entry)
    → Before k e.0
    → Above k (f ∷ fs)
    → Above k rest
    → Above k (place o e f fs rest)
place-Above lt k e f fs rest h (a, hs) r = (h, (a, hs))
place-Above eq k e f fs rest h (a, hs) r = (h, hs)
place-Above gt k e f fs rest h (a, hs) r = (a, r)

insert-Above :
    (k : List ℕ) (e : Entry) (fs : List Entry) → Before k e.0 → Above k fs → Above k (insert e fs)
insert-Above k e [] h hs = (h, tt)
insert-Above k e (f ∷ fs) h (a, hs) =
    place-Above (compare_bytes e.0 f.0) k e f fs (insert e fs) h (a, hs) (insert-Above k e fs h hs)

place-IsSorted :
    (o : Ordering) (e f : Entry) (fs : List Entry)
    → compare_bytes e.0 f.0 ≡ o
    → Above f.0 fs
    → IsSorted fs
    → IsSorted (insert e fs)
    → IsSorted (place o e f fs (insert e fs))
place-IsSorted lt e f fs c a s r = ((c, Above-trans e.0 f.0 fs c a), (a, s))
place-IsSorted eq e f fs c a s r = (rw (compare_bytes→eq e.0 f.0 c) a, s)
place-IsSorted gt e f fs c a s r = (insert-Above f.0 e fs (Before-flip e.0 f.0 c) a, r)

insert-IsSorted : (e : Entry) (fs : List Entry) → IsSorted fs → IsSorted (insert e fs)
insert-IsSorted e [] s = (tt, tt)
insert-IsSorted e (f ∷ fs) (a, s) =
    place-IsSorted (compare_bytes e.0 f.0) e f fs refl a s (insert-IsSorted e fs s)

apart :
    (a b j : List ℕ) → bytes_equal a b ≡ false → bytes_equal a j ≡ true → bytes_equal b j ≡ false
apart a b j h k = let same = bytes_equal→eq a j k in bytes_equal_comm b j ∙ rw (← same) h

place-lookup :
    (o : Ordering) (e f : Entry) (fs rest : List Entry) (j : List ℕ)
    → compare_bytes e.0 f.0 ≡ o
    → lookup j rest ≡ (if bytes_equal e.0 j then some e.1 else lookup j fs)
    → lookup j (place o e f fs rest) ≡ (if bytes_equal e.0 j then some e.1 else lookup j (f ∷ fs))
place-lookup lt e f fs rest j c r = refl
place-lookup eq e f fs rest j c r =
    let same = compare_bytes→eq e.0 f.0 c in
    elim (Bool-cases (bytes_equal e.0 j)) [
      | inl h ↦ rw h
      | inr h ↦ let other : bytes_equal f.0 j ≡ false = rw (← same) h in rw (h, other)
    ]
place-lookup gt e f fs rest j c r =
    let differ : bytes_equal e.0 f.0 ≡ false =
      bytes_equal_comm e.0 f.0 ∙ Before-ne f.0 e.0 (Before-flip e.0 f.0 c) in
    elim (Bool-cases (bytes_equal e.0 j)) [
      | inl h ↦ rw (h, apart e.0 f.0 j differ h) (rw h at r)
      | inr h ↦ let same : lookup j rest ≡ lookup j fs = rw h at r in rw (h, same)
    ]

lookup-insert :
    (e : Entry) (fs : List Entry) (j : List ℕ)
    → lookup j (insert e fs) ≡ (if bytes_equal e.0 j then some e.1 else lookup j fs)
lookup-insert e [] j = refl
lookup-insert e (f ∷ fs) j =
    place-lookup (compare_bytes e.0 f.0) e f fs (insert e fs) j refl (lookup-insert e fs j)

record Table : Type 0 where
  all : List Entry
  sorted : IsSorted all

abbrev add : Table → List ℕ → List ℕ → Table
add m k v = record { all = insert (k, v) m.all; sorted = insert-IsSorted (k, v) m.all m.sorted }

abbrev table : MemDb Table
table = record {
  new = record { all = []; sorted = tt };
  get = λ m k. lookup k m.all;
  put = add;
  delete = λ m k. add m k [];
  entries = λ m. m.all;
  get-new = λ k. refl;
  get-put = λ m k v j. lookup-insert (k, v) m.all j;
  get-delete = λ m k j. lookup-insert (k, []) m.all j;
  get-entries = λ m k. refl;
  entries-IsSorted = λ m. m.sorted;
}

-- The store's answers, the newest first; those of the batch stand before those of the store.
abbrev answer_of : List (List ℕ × Answer) → List ℕ → Answer
answer_of [] j = not_found
answer_of (a ∷ as_) j = if bytes_equal a.0 j then a.1 else answer_of as_ j

record Store : Type 0 where
  disk : List (List ℕ × Answer)
  both : List (List ℕ × Answer)

abbrev answers : PersistStore Store
answers = record {
  get = λ s k. answer_of s.disk k;
  batch_put = λ s k v. record s { both = (k, present v) ∷ s.both };
  batch_delete = λ s k. record s { both = (k, not_found) ∷ s.both };
  batched = λ s k. answer_of s.both k;
  batched-put = λ s k v j. refl;
  batched-delete = λ s k j. refl;
}

abbrev key_a : List ℕ
key_a = 1 ∷ 2 ∷ []

abbrev key_b : List ℕ
key_b = 1 ∷ 3 ∷ []

-- The store has both keys; a transaction has written the first and deleted the second.
abbrev stored : List (List ℕ × Answer)
stored = (st_storage ∷ key_a, present (7 ∷ [])) ∷ (st_storage ∷ key_b, present (8 ∷ [])) ∷ []

abbrev block : OverlayDb Store Table
block = new_overlay_db answers table (record { disk = stored; both = stored })

abbrev transaction : CacheDb Store Table
transaction =
    Cache.delete answers table
      (Cache.put answers table (new_cache_db answers table block) key_a (9 ∷ [])) key_b

abbrev closed : OverlayDb Store Table
closed = (commit answers table transaction).backend

commit-read_example :
    (Overlay.get answers table closed (make_prefixed_key st_storage key_b)).0
    ≡ (get_at answers table transaction st_storage key_b).0
commit-read_example = commit-read answers table transaction st_storage key_b

closed-clean :
    answers.batched closed.store (st_storage ∷ key_a)
    ≡ answers.get closed.store (st_storage ∷ key_a)
unfolding commit Cache.commit_entries Cache.delete Cache.delete_at Cache.put Cache.put_at
    new_cache_db compare_bytes make_prefixed_key Cache.commit_entry Overlay.delete Overlay.put
    new_overlay_db
closed-clean = refl

commit_to-read_example :
    answered (answers.batched (commit_to answers table closed).store (st_storage ∷ key_a))
    ≡ (Overlay.get answers table closed (st_storage ∷ key_a)).0
commit_to-read_example = commit_to-read answers table closed (st_storage ∷ key_a) closed-clean

get-delete_contract_example :
    (Cache.get answers table (delete_contract answers table transaction key_b) key_a).0
    ≡ (Cache.get answers table transaction key_a).0
get-delete_contract_example = get-delete_contract answers table transaction key_b key_a
