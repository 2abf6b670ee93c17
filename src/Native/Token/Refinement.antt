-- ===== src/Native/Token/Refinement.antt =====
-- The contract over the key-value cache does what Spec says, on every branch.
use layer.Base.{
  ℕ, ◌+◌, ◌-◌, ◌%◌, ◌<◌, ◌≡◌, refl, ◌∙◌, Bool, true, false, List, [], ◌∷◌, ◌++◌, length, All,
  if◌then◌else◌, ltb, ◌==◌, bytes_equal, bytes_equal-append, Bool-cases, inl, inr, arith, Outcome,
  ok, fail_if,
}
use layer.Common.SafeMath.{u64_mod}
use layer.Native.Store.{Db, get_storage_uint64}
use layer.Native.Store.Numbers.{get_storage_uint64-put, get_storage_uint64-delete}
use layer.Native.Token.{
  State, Service, balance_insufficient, too_small, over_total_supply, ong_total_supply,
  is_layer2_addr, authorise, gen_balance_key, get_to_uint64_storage_item, lift, put_uint64,
  put_rest, from_transfer, to_transfer, credit, debit, transfer, ong_transfer,
}
use layer.Native.Token.Spec.{Balances, set, debited, credited, permitted, moved, all_moved}
use layer.Native.Token.Agreement.{Agree, both_ok, Agree->>=, Agree-fail_if, Agree-if}

abbrev pub IsAddress : List ℕ → Type 0
IsAddress a = length a ≡ 20

pub ok-if :
    {E : Type 0} (t : Bool) (v w : ℕ)
    → ◌≡◌ {A = Outcome E ℕ} (if t then ok v else ok w) (ok (if t then v else w))
ok-if true v w = refl
ok-if false v w = refl

pub authorise-permitted :
    (native : Service) (a signer : List ℕ) → authorise native a signer ≡ permitted native a signer
unfolding authorise permitted
authorise-permitted native a signer = elim (Bool-cases (is_layer2_addr a)) [
  | inl bridge ↦ elim (Bool-cases native.operator) [
    | inl granted ↦ rw (bridge, granted) refl
    | inr refused ↦ rw (bridge, refused) refl
  ]
  | inr account ↦ elim (Bool-cases (native.check_witness signer)) [
    | inl granted ↦ rw (account, granted) refl
    | inr refused ↦ rw (account, refused) refl
  ]
]

module _ {S : Type 0} (db : Db S) where
  -- The cache `s` holds the balances `bal` of a contract.
  pub record Represents (contract : List ℕ) (s : S) (bal : Balances) : Type 0 where
    pub reads :
        (a : List ℕ)
        → IsAddress a
        → get_storage_uint64 db s (gen_balance_key contract a) ≡ ok (bal a)
    pub bounded : (a : List ℕ) → bal a < u64_mod

  -- What is left after `value` is read back, also when nothing is left.
  pub get_storage_uint64-put_rest :
      (s : S) (k j : List ℕ) (amount value : ℕ)
      → amount < u64_mod
      → get_storage_uint64 db (put_rest db s k amount value) j
        ≡ (if bytes_equal k j then ok (amount - value) else get_storage_uint64 db s j)
  unfolding put_rest put_uint64
  get_storage_uint64-put_rest s k j amount value h = elim (Bool-cases (amount == value)) [
    | inl e ↦
        let zero_left : amount - value ≡ 0 = ground arith in
        rw (e, zero_left) (get_storage_uint64-delete db s k j)
    | inr e ↦ rw e (get_storage_uint64-put db s k j (amount - value) (omega arith))
  ]

  -- A cache that differs from `s` at one balance represents the changed map.
  pub Represents-set :
      (contract : List ℕ) (s s' : S) (bal : Balances) (a : List ℕ) (v : ℕ)
      → Represents contract s bal
      → v < u64_mod
      → ((j : List ℕ)
          → get_storage_uint64 db s' j ≡ (
              if bytes_equal (gen_balance_key contract a) j
              then ok v
              else get_storage_uint64 db s j))
      → Represents contract s' (set bal a v)
  unfolding set gen_balance_key
  Represents-set contract s s' bal a v r h changed = record {
    reads = λ j len.
        (changed (contract ++ j)
          ∙ rw (bytes_equal-append contract a j, r.reads j len)
              (ok-if (bytes_equal a j) v (bal j)));
    bounded = λ j. small (bytes_equal a j) j;
  }
    where
      small : (t : Bool) (j : List ℕ) → (if t then v else bal j) < u64_mod
      small true j = h
      small false j = r.bounded j

  -- A balance was read as the specification has it, and the caches still correspond.
  abbrev pub Same : List ℕ → ℕ × S → ℕ × Balances → Type 0
  Same contract x y = (x.0 ≡ y.0) × Represents contract x.1 y.1

  pub debit-Agree :
      (contract : List ℕ) (s : S) (bal : Balances) (a : List ℕ) (v : ℕ)
      → Represents contract s bal
      → IsAddress a
      → Agree (Same contract) (debit db s contract a v) (debited bal a v)
  unfolding debit debited from_transfer lift
  debit-Agree contract s bal a v r len = Agree-if (is_layer2_addr a) (both_ok (refl, r)) (
      rw (r.reads a len) (
        Agree-fail_if (fail_if (ltb (bal a) v) balance_insufficient) (
          both_ok (
            refl,
            Represents-set contract s _ bal a (bal a - v) r (let b = r.bounded a in omega arith)
                (λ j. get_storage_uint64-put_rest s _ j (bal a) v (r.bounded a)),
          ))))

  pub credit-Agree :
      (contract : List ℕ) (s : S) (bal : Balances) (a : List ℕ) (v : ℕ)
      → Represents contract s bal
      → IsAddress a
      → Agree (Same contract) (credit db s contract a v) (credited bal a v)
  unfolding credit credited to_transfer lift get_to_uint64_storage_item
  credit-Agree contract s bal a v r len = Agree-if (is_layer2_addr a) (both_ok (refl, r)) (
      rw (r.reads a len) (
        both_ok (
          refl,
          Represents-set contract s _ bal a ((bal a + v) % u64_mod) r (omega arith)
              (λ j. get_storage_uint64-put db s _ j ((bal a + v) % u64_mod) (omega arith)),
        )))

  abbrev pub SameMoved : List ℕ → ℕ × ℕ × S → ℕ × ℕ × Balances → Type 0
  SameMoved contract x y = (x.0 ≡ y.0) × (x.1 ≡ y.1) × Represents contract x.2 y.2

  -- Over a cache that holds the balances `bal`, for two addresses of 20 bytes, `Transfer` does
  -- what the specification `moved` does on `bal`: both fail with the same error, or both succeed,
  -- with the same two old balances, and the new cache holds the new balances.
  pub transfer-Agree :
      (native : Service) (s : S) (bal : Balances) (state : State)
      → Represents native.contract s bal
      → IsAddress state.from
      → IsAddress state.to
      → Agree (SameMoved native.contract) (transfer db native s state) (moved native bal state)
  unfolding transfer moved
  transfer-Agree native s bal state r from to =
      let c = native.contract in
      rw (authorise-permitted native state.from state.from) (
        Agree-fail_if (permitted native state.from state.from) (
          Agree->>= _ _ (debit-Agree c s bal state.from state.value r from) (λ d d' h.
            Agree->>= _ _ (credit-Agree c d.1 d'.1 state.to state.value h.1 to)
              (λ t t' k. both_ok (h.0, k.0, k.1)))))

  abbrev pub HasAddresses : State → Type 0
  HasAddresses state = IsAddress state.from × IsAddress state.to

  -- Over a cache that holds the balances `bal`, for transfers between addresses of 20 bytes, the
  -- loop of `OngTransfer` does what the specification `all_moved` does on `bal`: both fail with
  -- the same error, or both succeed and the new cache holds the new balances.
  pub ong_transfer-Agree :
      (native : Service) (s : S) (bal : Balances) (states : List State)
      → Represents native.contract s bal
      → All HasAddresses states
      → Agree
          (Represents native.contract)
          (ong_transfer db native s states)
          (all_moved native bal states)
  unfolding ong_transfer all_moved
  ong_transfer-Agree native s bal [] r all = both_ok r
  ong_transfer-Agree native s bal (v ∷ vs) r (a, all) =
      Agree-fail_if (fail_if (ltb v.value native.min_ong_limit) too_small) (
        Agree-fail_if (fail_if (ltb ong_total_supply v.value) over_total_supply) (
          Agree->>= _ _ (transfer-Agree native s bal v r a.0 a.1)
            (λ t t' h. ong_transfer-Agree native t.2 t'.2 vs h.2 all)))
