-- ===== src/Native/Token/Allowance.antt =====
-- The allowances under their own keys, beside the balances: TransferedFrom and OngApprove.
use layer.Base.{
  ℕ, ◌+◌, ◌-◌, ◌%◌, ◌<◌, ◌≡◌, refl, ap, ◌∙◌, Bool, true, false, not, List, ◌++◌, length,
  length-append, append_assoc, if◌then◌else◌, ltb, bytes_equal, bytes_equal-append, bytes_equal→eq,
  Bool-cases, inl, inr, arith, ok, fail_if,
}
use layer.Common.SafeMath.{u64_mod}
use layer.Native.Item.{item_bytes}
use layer.Native.Store.{Db, get_storage_uint64, gen_uint64_storage_item}
use layer.Native.Store.Numbers.{get_storage_uint64-put}
use layer.Native.Token.{
  State, TransferFrom, Service, authentication_failed, approve_insufficient, ong_total_supply,
  is_layer2_addr, gen_balance_key, gen_approve_key, gen_transfer_from_key,
  get_to_uint64_storage_item, lift, put_uint64, put_rest, from_approve, from_transfer, to_transfer,
  credit, debit, spend_allowance, transfered_from, ong_approve,
}
use layer.Native.Token.Spec.{
  Balances, Allowances, set_allowance, spent, permitted, moved_from, approved,
}
use layer.Native.Token.Agreement.{
  Agree, both_ok, both_err, Agree->>=, Agree-fail_if, Agree-if, Agree-and,
}
use layer.Native.Token.Refinement.{
  IsAddress, Represents, get_storage_uint64-put_rest, debit-Agree, credit-Agree, ok-if,
  authorise-permitted,
}

-- Keys of different lengths are different.
pub balance_key-ne_approve_key :
    (c a f t : List ℕ)
    → IsAddress a
    → IsAddress f
    → IsAddress t
    → bytes_equal (gen_balance_key c a) (gen_approve_key c f t) ≡ false
unfolding gen_balance_key gen_approve_key
balance_key-ne_approve_key c a f t la lf lt =
    elim (Bool-cases (bytes_equal (c ++ a) ((c ++ f) ++ t))) [
      | inl e ↦
          let same = ap length (bytes_equal→eq (c ++ a) ((c ++ f) ++ t) e) in
          let left = length-append c a in
          let right = length-append (c ++ f) t in
          let right' = length-append c f in absurd (omega arith)
      | inr e ↦ e
    ]

approve_key-ne_balance_key :
    (c a f t : List ℕ)
    → IsAddress a
    → IsAddress f
    → IsAddress t
    → bytes_equal (gen_approve_key c f t) (gen_balance_key c a) ≡ false
unfolding gen_balance_key gen_approve_key
approve_key-ne_balance_key c a f t la lf lt =
    elim (Bool-cases (bytes_equal ((c ++ f) ++ t) (c ++ a))) [
      | inl e ↦
          let same = ap length (bytes_equal→eq ((c ++ f) ++ t) (c ++ a) e) in
          let left = length-append c a in
          let right = length-append (c ++ f) t in
          let right' = length-append c f in absurd (omega arith)
      | inr e ↦ e
    ]

module _ {S : Type 0} (db : Db S) where
  pub record Approves (contract : List ℕ) (s : S) (allow : Allowances) : Type 0 where
    pub reads :
        (f t : List ℕ)
        → IsAddress f
        → IsAddress t
        → get_storage_uint64 db s (gen_approve_key contract f t) ≡ ok (allow f t)
    pub bounded : (f t : List ℕ) → allow f t < u64_mod

  -- Two caches have the same allowances.
  pub record SameAllowances (contract : List ℕ) (s s' : S) : Type 0 where
    pub unchanged :
        (f t : List ℕ)
        → IsAddress f
        → IsAddress t
        → get_storage_uint64 db s' (gen_approve_key contract f t)
          ≡ get_storage_uint64 db s (gen_approve_key contract f t)

  debit-other :
      (c : List ℕ) (s : S) (a : List ℕ) (b v : ℕ) (r : ℕ × S)
      → is_layer2_addr a ≡ false
      → get_storage_uint64 db s (gen_balance_key c a) ≡ ok b
      → debit db s c a v ≡ ok r
      → put_rest db s (gen_balance_key c a) b v ≡ r.1
  unfolding debit from_transfer lift
  debit-other c s a b v r other read h = ground arith

  credit-other :
      (c : List ℕ) (s : S) (a : List ℕ) (b v : ℕ) (r : ℕ × S)
      → is_layer2_addr a ≡ false
      → get_storage_uint64 db s (gen_balance_key c a) ≡ ok b
      → credit db s c a v ≡ ok r
      → db.put s (gen_balance_key c a) (item_bytes (gen_uint64_storage_item ((b + v) % u64_mod)))
        ≡ r.1
  unfolding credit to_transfer lift get_to_uint64_storage_item
  credit-other c s a b v r other read h = ground arith

  debit-SameAllowances :
      (c : List ℕ) (s : S) (bal : Balances) (a : List ℕ) (v : ℕ) (r : ℕ × S)
      → Represents db c s bal
      → IsAddress a
      → debit db s c a v ≡ ok r
      → SameAllowances c s r.1
  debit-SameAllowances c s bal a v r held la h = elim (Bool-cases (is_layer2_addr a)) [
    | inl e ↦
        let same : s ≡ r.1 = unfold debit in ground arith in
        record { unchanged = λ f t lf lt. rw (← same) }
    | inr e ↦ record {
      unchanged = λ f t lf lt.
          (rw (← debit-other c s a (bal a) v r e (held.reads a la) h) (
            get_storage_uint64-put_rest db s (gen_balance_key c a) (gen_approve_key c f t) (bal a) v
              (held.bounded a)
            ∙ rw (balance_key-ne_approve_key c a f t la lf lt)));
    }
  ]

  credit-SameAllowances :
      (c : List ℕ) (s : S) (bal : Balances) (a : List ℕ) (v : ℕ) (r : ℕ × S)
      → Represents db c s bal
      → IsAddress a
      → credit db s c a v ≡ ok r
      → SameAllowances c s r.1
  credit-SameAllowances c s bal a v r held la h = elim (Bool-cases (is_layer2_addr a)) [
    | inl e ↦
        let same : s ≡ r.1 = unfold credit in ground arith in
        record { unchanged = λ f t lf lt. rw (← same) }
    | inr e ↦
        let total = (bal a + v) % u64_mod in
        record {
          unchanged = λ f t lf lt.
              (rw (← credit-other c s a (bal a) v r e (held.reads a la) h) (
                get_storage_uint64-put db s (gen_balance_key c a) (gen_approve_key c f t) total
                  (omega arith)
                ∙ rw (balance_key-ne_approve_key c a f t la lf lt)));
        }
  ]

  pub Approves-unchanged :
      (c : List ℕ) (s s' : S) (allow : Allowances)
      → Approves c s allow
      → SameAllowances c s s'
      → Approves c s' allow
  Approves-unchanged c s s' allow held same = record {
    reads = λ f t lf lt. (same.unchanged f t lf lt ∙ held.reads f t lf lt);
    bounded = held.bounded;
  }

  -- `s'` is `s` with a number under one key.
  abbrev pub Written : S → S → List ℕ → ℕ → Type 0
  Written s s' k v =
      (j : List ℕ)
      → get_storage_uint64 db s' j ≡ (if bytes_equal k j then ok v else get_storage_uint64 db s j)

  pub Represents-Written :
      (c : List ℕ) (s s' : S) (bal : Balances) (f t : List ℕ) (v : ℕ)
      → Represents db c s bal
      → IsAddress f
      → IsAddress t
      → Written s s' (gen_approve_key c f t) v
      → Represents db c s' bal
  Represents-Written c s s' bal f t v held lf lt written = record {
    reads = λ a la.
        (written (gen_balance_key c a)
          ∙ rw (approve_key-ne_balance_key c a f t la lf lt) (held.reads a la));
    bounded = held.bounded;
  }

  pub Approves-Written :
      (c : List ℕ) (s s' : S) (allow : Allowances) (from to : List ℕ) (v : ℕ)
      → Approves c s allow
      → v < u64_mod
      → Written s s' (gen_approve_key c from to) v
      → Approves c s' (set_allowance allow from to v)
  unfolding gen_approve_key set_allowance
  Approves-Written c s s' allow from to v held small written = record {
    reads = λ f t lf lt.
        (written ((c ++ f) ++ t)
          ∙ rw
              (
                append_assoc c from to,
                append_assoc c f t,
                bytes_equal-append c (from ++ to) (f ++ t),
                ← append_assoc c f t,
                held.reads f t lf lt,
              )
              (ok-if (bytes_equal (from ++ to) (f ++ t)) v (allow f t)));
    bounded = λ f t. bounded (bytes_equal (from ++ to) (f ++ t)) f t;
  }
    where
      bounded : (b : Bool) (f t : List ℕ) → (if b then v else allow f t) < u64_mod
      bounded true f t = small
      bounded false f t = held.bounded f t

  -- The cache holds the balances and the allowances of a contract.
  abbrev pub Holds : List ℕ → Balances → S → Allowances → Type 0
  Holds c bal s allow = Represents db c s bal × Approves c s allow

  spend-Agree :
      (c : List ℕ) (s : S) (bal : Balances) (allow : Allowances) (state : TransferFrom)
      → Holds c bal s allow
      → IsAddress state.from
      → IsAddress state.sender
      → Agree (Holds c bal) (spend_allowance db s c state) (spent allow state)
  unfolding spend_allowance spent from_approve lift
  spend-Agree c s bal allow state (held, allows) from sender =
      let f = state.from in
      let t = state.sender in
      let left = allow f t in
      let read = allows.reads f t from sender in
      let key : gen_transfer_from_key c state ≡ gen_approve_key c f t =
        unfold gen_transfer_from_key gen_approve_key in refl in
      let written = λ (j : List ℕ).
        get_storage_uint64-put_rest db s (gen_approve_key c f t) j left state.value
          (allows.bounded f t) in
      let small : left - state.value < u64_mod = let b = allows.bounded f t in omega arith in
      Agree-if (is_layer2_addr f) (both_ok (held, allows)) (
        rw (key, read)
          (Agree-fail_if (fail_if (ltb left state.value) approve_insufficient) (
            both_ok (
              Represents-Written c s _ bal f t (left - state.value) held from sender written,
              Approves-Written c s _ allow f t (left - state.value) allows small written,
            ))))

  -- Over a cache that holds the balances `bal` and the allowances `allow`, for three addresses of
  -- 20 bytes, `TransferedFrom` does what the specification `moved_from` does on them: both fail
  -- with the same error, or both succeed, with the same two old balances, and the new cache holds
  -- the new balances and the new allowances.
  pub transfered_from-Agree :
      (native : Service) (s : S) (bal : Balances) (allow : Allowances) (state : TransferFrom)
      → Holds native.contract bal s allow
      → IsAddress state.sender
      → IsAddress state.from
      → IsAddress state.to
      → Agree
          (λ x y. (x.0 ≡ y.0) × (x.1 ≡ y.1) × Holds native.contract y.2 x.2 y.3)
          (transfered_from db native s state)
          (moved_from native bal allow state)
  unfolding transfered_from moved_from
  transfered_from-Agree native s bal allow state held sender from to =
      let c = native.contract in
      let v = state.value in
      rw (authorise-permitted native state.from state.sender) (
        Agree-fail_if (permitted native state.from state.sender) (
          Agree->>= _ _ (spend-Agree c s bal allow state held from sender) (λ s' allow' h.
            Agree->>= _ _
              (Agree-and (debit-Agree db c s' bal state.from v h.0 from)
                (λ r e. debit-SameAllowances c s' bal state.from v r h.0 from e))
              (λ d d' k.
                let allows = Approves-unchanged c s' d.1 allow' h.1 k.1 in
                Agree->>= _ _
                  (Agree-and (credit-Agree db c d.1 d'.1 state.to v k.0.1 to)
                    (λ r e. credit-SameAllowances c d.1 d'.1 state.to v r k.0.1 to e))
                  (λ t t' m.
                    both_ok
                      (k.0.0, m.0.0, (m.0.1, Approves-unchanged c d.1 t.1 allow' allows m.1)))))))

  -- Over a cache that holds the balances `bal` and the allowances `allow`, for two addresses of
  -- 20 bytes, `OngApprove` does what the specification `approved` does: both fail with the same
  -- error, or both succeed and the new cache holds the same balances and the new allowances.
  pub ong_approve-Agree :
      (native : Service) (s : S) (bal : Balances) (allow : Allowances) (state : State)
      → Holds native.contract bal s allow
      → IsAddress state.from
      → IsAddress state.to
      → Agree
          (Holds native.contract bal)
          (ong_approve db native s state)
          (approved native allow state)
  unfolding ong_approve approved put_uint64
  ong_approve-Agree native s bal allow state (held, allows) from to =
      let c = native.contract in
      let v = state.value in
      elim (Bool-cases (ltb ong_total_supply v)) [
        | inl e ↦ rw e both_err
        | inr e ↦
            let small : v < u64_mod = ground arith in
            let written = λ (j : List ℕ).
              get_storage_uint64-put db s (gen_approve_key c state.from state.to) j v small in
            rw e (
              Agree-fail_if (fail_if (not (native.check_witness state.from)) authentication_failed)
                (both_ok (
                  Represents-Written c s _ bal state.from state.to v held from to written,
                  Approves-Written c s _ allow state.from state.to v allows small written,
                )))
      ]
