-- ===== src/State/Cache/Storage.antt =====
-- The cache of a transaction is the storage that the native contracts take as a parameter.
use layer.Base.{
  ℕ, ◌≡◌, ◌<◌, refl, ◌∙◌, false, List, [], ◌∷◌, length, if◌then◌else◌, bytes_equal,
  bytes_equal-append, Bool-cases, inl, inr, arith,
}
use layer.Native.Store.{found, missing, Db}
use layer.State.Backing.{MemDb, PersistStore}
use layer.State.Overlay.{written}
use layer.State.Cache.{
  CacheDb, st_storage, st_contract, make_prefixed_key, get_at, put_at, delete_at, get, put, delete,
  delete_contract,
}
use layer.State.Cache.Commit.{get_at-over}

written_some : (v : List ℕ) → 0 < length v → written v ≡ found v
unfolding written
written_some [] h = absurd (omega arith)
written_some (b ∷ bs) h = refl

module _ {P M : Type 0} (ps : PersistStore P) (mdb : MemDb M) where
  get_at-put_at :
      (c : CacheDb P M) (p q : ℕ) (k v j : List ℕ)
      → (get_at ps mdb (put_at ps mdb c p k v) q j).0
        ≡ (if bytes_equal (p ∷ k) (q ∷ j) then written v else (get_at ps mdb c q j).0)
  unfolding put_at make_prefixed_key
  get_at-put_at c p q k v j =
      rw
        (
          get_at-over ps mdb (record c { memdb = mdb.put c.memdb (p ∷ k) v }) q j,
          get_at-over ps mdb c q j,
          mdb.get-put c.memdb (p ∷ k) v (q ∷ j),
        )
        (elim (Bool-cases (bytes_equal (p ∷ k) (q ∷ j))) [ inl e ↦ rw e | inr e ↦ rw e ])

  get_at-delete_at :
      (c : CacheDb P M) (p q : ℕ) (k j : List ℕ)
      → (get_at ps mdb (delete_at ps mdb c p k) q j).0
        ≡ (if bytes_equal (p ∷ k) (q ∷ j) then missing else (get_at ps mdb c q j).0)
  unfolding delete_at make_prefixed_key written
  get_at-delete_at c p q k j =
      rw
        (
          get_at-over ps mdb (record c { memdb = mdb.delete c.memdb (p ∷ k) }) q j,
          get_at-over ps mdb c q j,
          mdb.get-delete c.memdb (p ∷ k) (q ∷ j),
        )
        (elim (Bool-cases (bytes_equal (p ∷ k) (q ∷ j))) [ inl e ↦ rw e | inr e ↦ rw e ])

  pub get-put :
      (c : CacheDb P M) (k v j : List ℕ)
      → 0 < length v
      → (get ps mdb (put ps mdb c k v) j).0
        ≡ (if bytes_equal k j then found v else (get ps mdb c j).0)
  unfolding get put
  get-put c k v j h =
      get_at-put_at c st_storage st_storage k v j
      ∙ rw (bytes_equal-append (st_storage ∷ []) k j, written_some v h)

  pub get-delete :
      (c : CacheDb P M) (k j : List ℕ)
      → (get ps mdb (delete ps mdb c k) j).0
        ≡ (if bytes_equal k j then missing else (get ps mdb c j).0)
  unfolding get delete
  get-delete c k j =
      get_at-delete_at c st_storage st_storage k j ∙ rw (bytes_equal-append (st_storage ∷ []) k j)

  -- `DeleteContract` of any address changes no value of the contracts' storage.
  pub get-delete_contract :
      (c : CacheDb P M) (address j : List ℕ)
      → (get ps mdb (delete_contract ps mdb c address) j).0 ≡ (get ps mdb c j).0
  unfolding get delete_contract
  get-delete_contract c address j =
      let apart : bytes_equal (st_contract ∷ address) (st_storage ∷ j) ≡ false =
        unfold bytes_equal in refl in
      get_at-delete_at c st_contract st_storage address j ∙ rw apart

  -- The operations of the cache, with the laws that the contracts rely on.
  abbrev pub cache_storage : Db (CacheDb P M)
  cache_storage = record {
    get = λ c k. (get ps mdb c k).0;
    put = put ps mdb;
    delete = delete ps mdb;
    get-put = get-put;
    get-delete = get-delete;
  }
