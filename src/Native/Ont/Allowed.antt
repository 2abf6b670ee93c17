-- ===== src/Native/Ont/Allowed.antt =====
-- The ONG that a due grant lets the holder take.
use layer.Base.{
  ℕ, ◌+◌, ◌-◌, ◌%◌, ◌<◌, ◌≤◌, ◌≡◌, refl, ap, arith, Bool, true, false, Bool-cases, inl, inr, ◌||◌,
  some, List, ◌++◌, length, length-append, ltb, leb, ◌==◌, bytes_equal, bytes_equal_refl,
  bytes_equal→eq, ok,
}
use layer.Merkle.Util.{u32_mod}
use layer.Common.SafeMath.{u64_mod}
use layer.Common.Source.Codec.{Reads-whole}
use layer.Native.Item.{item_bytes}
use layer.Native.Store.{Db, get_storage_uint64, get_storage_item, gen_uint32_storage_item}
use layer.Native.Store.Numbers.{get_storage_uint64-put}
use layer.Native.Store.Offsets.{uint32_item-pos}
use layer.Native.Unbind.{calc_unbind_ong}
use layer.Native.Token.{State, put_uint64, gen_approve_key, ong_total_supply, ong_approve}
use layer.Native.Token.Spec.{Allowances, set_allowance}
use layer.Native.Token.Refinement.{IsAddress}
use layer.Native.Token.Allowance.{Approves, SameAllowances, Approves-unchanged, Approves-Written}
use layer.Native.Args.{state_bytes, deserialize_state}
use layer.Native.Args.RoundTrip.{IsState, deserialize_state-Reads}
use layer.Native.Args.Size.{state_bytes-InMemory}
use layer.Native.Execution.{
  Execution, push_context, check_witness, check_contract_address, check_account_address, is_calling,
  service_of,
}
use layer.Native.Ong.{byte_true, ong_contract_address, ong_approve_call}
use layer.Native.Ont.{
  genesis_block_timestamp, unbound_time_offset, gen_address_unbound_offset_key, get_unbound_offset,
  put_offset, get_approve_args, approve_unbound, grant_balance, grant_between, grant_since,
  grant_ong,
}
use layer.Native.Ont.Grant.{get_unbound_offset-put_offset}

or_true : (b : Bool) → (b || true) ≡ true
or_true false = refl
or_true true = refl

-- The contract that calls another is a witness there.
check_witness-push_context :
    (ex : Execution) (contract : List ℕ)
    → check_witness (push_context ex contract) ex.current_context ≡ true
unfolding check_witness check_contract_address push_context is_calling
check_witness-push_context ex contract =
    rw (bytes_equal_refl ex.current_context)
      (or_true (check_account_address (push_context ex contract) ex.current_context))

offset_key-ne_approve_key :
    (c a f t : List ℕ)
    → IsAddress c
    → IsAddress a
    → IsAddress f
    → IsAddress t
    → bytes_equal (gen_address_unbound_offset_key c a) (gen_approve_key ong_contract_address f t)
      ≡ false
unfolding gen_address_unbound_offset_key gen_approve_key
offset_key-ne_approve_key c a f t lc la lf lt =
    let left = (c ++ unbound_time_offset) ++ a in
    let right = (ong_contract_address ++ f) ++ t in
    elim (Bool-cases (bytes_equal left right)) [
      | inl e ↦
          let same : length left ≡ length right = ap length (bytes_equal→eq left right e) in
          absurd (
            omega (
              arith,
              same,
              length-append (c ++ unbound_time_offset) a,
              length-append c unbound_time_offset,
              length-append (ong_contract_address ++ f) t,
              length-append ong_contract_address f,
            ))
      | inr e ↦ e
    ]

module _ {S : Type 0} (db : Db S) where
  put_offset-SameAllowances :
      (s : S) (c a : List ℕ) (offset : ℕ)
      → IsAddress c
      → IsAddress a
      → SameAllowances db ong_contract_address s (put_offset db s c a offset)
  unfolding put_offset get_storage_uint64 get_storage_item
  put_offset-SameAllowances s c a offset lc la = record {
    unchanged = λ f t lf lt.
        (rw (
          db.get-put s (gen_address_unbound_offset_key c a)
              (item_bytes (gen_uint32_storage_item offset))
              (gen_approve_key ong_contract_address f t) (uint32_item-pos offset),
          offset_key-ne_approve_key c a f t lc la lf lt,
        ));
  }

  -- An approval that is allowed puts its value under its key.
  ong_approve_call-put :
      (ex : Execution) (s : S) (state : State)
      → IsState state
      → state.value ≤ ong_total_supply
      → check_witness ex state.from ≡ true
      → ong_approve_call db ex s (state_bytes state)
        ≡ ok (
          byte_true,
          put_uint64 db s (gen_approve_key ex.current_context state.from state.to) state.value,
        )
  unfolding ong_approve_call ong_approve service_of
  ong_approve_call-put ex s state h small signed =
      let within : ltb ong_total_supply state.value ≡ false = ground arith in
      rw (
        Reads-whole deserialize_state (deserialize_state-Reads state h)
            (state_bytes-InMemory state h),
        within,
        signed,
      )

  approve_unbound-put :
      (ex : Execution) (s : S) (allow : Allowances) (a : List ℕ) (v : ℕ)
      → Approves db ong_contract_address s allow
      → IsAddress ex.current_context
      → IsAddress a
      → v + allow ex.current_context a ≤ ong_total_supply
      → approve_unbound db ex s a (some v)
        ≡ ok (
            put_uint64 db s
              (gen_approve_key ong_contract_address ex.current_context a)
              (v + allow ex.current_context a))
  unfolding approve_unbound get_approve_args push_context
  approve_unbound-put ex s allow a v held lc la small =
      let c = ex.current_context in
      let total = v + allow c a in
      let state : State = record { from = c; to = a; value = total } in
      let whole : total % u64_mod ≡ total = omega arith in
      rw (
        held.reads c a lc la,
        whole,
        ong_approve_call-put (push_context ex ong_contract_address) s state (lc, la, omega arith)
            small (check_witness-push_context ex ong_contract_address),
      )

  pub grant_ong-due :
      (ex : Execution) (s : S) (allow : Allowances) (a : List ℕ) (b start v : ℕ)
      → Approves db ong_contract_address s allow
      → IsAddress ex.current_context
      → IsAddress a
      → 0 < b
      → genesis_block_timestamp < ex.time
      → get_unbound_offset db s ex.current_context a ≡ ok start
      → start < ex.time - genesis_block_timestamp
      → calc_unbind_ong b start (ex.time - genesis_block_timestamp) ≡ some v
      → v + allow ex.current_context a ≤ ong_total_supply
      → grant_ong db ex s a b
        ≡ ok (
            put_offset db
              (put_uint64 db s
                (gen_approve_key ong_contract_address ex.current_context a)
                (v + allow ex.current_context a))
              ex.current_context
              a
              (ex.time - genesis_block_timestamp))
  unfolding grant_ong grant_since grant_between grant_balance
  grant_ong-due ex s allow a b start v held lc la hb after offset late unbound small =
      let end = ex.time - genesis_block_timestamp in
      let g : leb ex.time genesis_block_timestamp ≡ false = ground arith in
      let f : ltb end start ≡ false = ground arith in
      let q : (end == start) ≡ false = ground arith in
      let z : (b == 0) ≡ false = ground arith in
      rw (offset, g, f, q, z, unbound, approve_unbound-put ex s allow a v held lc la small)

  -- Let a cache hold the allowances `allow` of the ONG contract, let the running contract and the
  -- holder have addresses of 20 bytes, and let the time be after the holder's recorded offset.
  -- For a balance that is not zero and unbinds v ONG in between, where v and the old allowance
  -- make at most the supply, `grantOng` succeeds through the call of the ONG contract: the new
  -- cache holds the allowances with v added to what the contract lets the holder take, and the
  -- recorded offset is the time.
  pub grant_ong-Approves :
      (ex : Execution) (s : S) (allow : Allowances) (a : List ℕ) (b start v : ℕ)
      → Approves db ong_contract_address s allow
      → IsAddress ex.current_context
      → IsAddress a
      → 0 < b
      → genesis_block_timestamp < ex.time
      → ex.time < u32_mod
      → get_unbound_offset db s ex.current_context a ≡ ok start
      → start < ex.time - genesis_block_timestamp
      → calc_unbind_ong b start (ex.time - genesis_block_timestamp) ≡ some v
      → v + allow ex.current_context a ≤ ong_total_supply
      → (s' : S) × (grant_ong db ex s a b ≡ ok s')
        × Approves db ong_contract_address s'
            (set_allowance allow ex.current_context a (v + allow ex.current_context a))
        × (get_unbound_offset db s' ex.current_context a ≡ ok (ex.time - genesis_block_timestamp))
  unfolding put_uint64
  grant_ong-Approves ex s allow a b start v held lc la hb after fits offset late unbound small =
      let c = ex.current_context in
      let end = ex.time - genesis_block_timestamp in
      let key = gen_approve_key ong_contract_address c a in
      let total = v + allow c a in
      let paid = put_uint64 db s key total in
      (
        put_offset db paid c a end,
        grant_ong-due ex s allow a b start v held lc la hb after offset late unbound small,
        Approves-unchanged db ong_contract_address paid (put_offset db paid c a end) _
            (Approves-Written db ong_contract_address s paid allow c a total held (omega arith)
              (λ j. get_storage_uint64-put db s key j total (omega arith)))
            (put_offset-SameAllowances paid c a end lc la),
        get_unbound_offset-put_offset db paid c a end (omega arith),
      )
