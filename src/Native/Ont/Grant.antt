-- ===== src/Native/Ont/Grant.antt =====
-- What `grantOng` does to the allowance and to the time up to which the ONG is granted.
use layer.Base.{
  ℕ, ◌-◌, ◌<◌, ◌≡◌, refl, sym, ◌∙◌, arith, true, false, Bool-cases, inl, inr, List, ltb, leb, ◌==◌,
  bytes_equal_refl, Outcome, ok, err, ◌>>=◌, >>=-eq-ok,
}
use layer.Merkle.Util.{u32_mod}
use layer.Native.Store.{Db}
use layer.Native.Store.Offsets.{get_storage_uint32-put}
use layer.Native.Execution.{Execution, CallError, wrong_timestamp}
use layer.Native.Ont.{
  genesis_block_timestamp, gen_address_unbound_offset_key, get_unbound_offset, put_offset,
  grant_balance, grant_between, grant_since, grant_ong,
}

module _ {S : Type 0} (db : Db S) where
  pub get_unbound_offset-put_offset :
      (s : S) (contract a : List ℕ) (v : ℕ)
      → v < u32_mod
      → get_unbound_offset db (put_offset db s contract a v) contract a ≡ ok v
  unfolding get_unbound_offset put_offset
  get_unbound_offset-put_offset s contract a v h =
      let key = gen_address_unbound_offset_key contract a in
      rw (get_storage_uint32-put db s key key v h, bytes_equal_refl key) refl

  offset_behind :
      (m : Outcome CallError S) (s' : S) (contract a : List ℕ) (v : ℕ)
      → v < u32_mod
      → (m >>= λ t. ok (put_offset db t contract a v)) ≡ ok s'
      → get_unbound_offset db s' contract a ≡ ok v
  offset_behind (err fault) s' contract a v h e = cc
  offset_behind (ok t) s' contract a v h e =
      let same : put_offset db t contract a v ≡ s' = cc in
      rw (← same) (get_unbound_offset-put_offset t contract a v h)

  -- A grant whose time is not after the recorded offset changes nothing.
  grant_ong-idle :
      (ex : Execution) (s : S) (a : List ℕ) (b start : ℕ)
      → get_unbound_offset db s ex.current_context a ≡ ok start
      → grant_since db ex s a b start ≡ ok s
      → grant_ong db ex s a b ≡ ok s
  unfolding grant_ong
  grant_ong-idle ex s a b start h e = rw h e

  -- What the tests on the two offsets come to.
  data Turn (ex : Execution) (s : S) (a : List ℕ) (start : ℕ) : Type 0 where
    idle : ((b : ℕ) → grant_since db ex s a b start ≡ ok s) → Turn ex s a start
    late : ((b : ℕ) → grant_since db ex s a b start ≡ err wrong_timestamp) → Turn ex s a start
    due :
        genesis_block_timestamp < ex.time
        → start < ex.time - genesis_block_timestamp
        → ((b : ℕ)
            → grant_since db ex s a b start
              ≡ grant_between db ex s a b start (ex.time - genesis_block_timestamp))
        → Turn ex s a start

  turn : (ex : Execution) (s : S) (a : List ℕ) (start : ℕ) → Turn ex s a start
  unfolding grant_since
  turn ex s a start =
      let end = ex.time - genesis_block_timestamp in
      elim (Bool-cases (leb ex.time genesis_block_timestamp)) [
        | inl g ↦ Turn.idle (λ b. rw g)
        | inr g ↦ elim (Bool-cases (ltb end start)) [
          | inl f ↦ elim (Bool-cases ex.pre_exec) [
            | inl p ↦ Turn.idle (λ b. rw (g, f, p))
            | inr p ↦ Turn.late (λ b. rw (g, f, p))
          ]
          | inr f ↦ elim (Bool-cases (end == start)) [
            | inl q ↦ Turn.idle (λ b. rw (g, f, q))
            | inr q ↦ Turn.due (ground arith) (ground arith) (λ b. rw (g, f, q))
          ]
        ]
      ]

  -- At its own end offset a grant is idle.
  grant_since-end :
      (ex : Execution) (s : S) (a : List ℕ) (b : ℕ)
      → genesis_block_timestamp < ex.time
      → grant_since db ex s a b (ex.time - genesis_block_timestamp) ≡ ok s
  unfolding grant_since
  grant_since-end ex s a b h =
      let end = ex.time - genesis_block_timestamp in
      let g : leb ex.time genesis_block_timestamp ≡ false = ground arith in
      let f : ltb end end ≡ false = ground arith in
      let q : (end == end) ≡ true = ground arith in rw (g, f, q)

  grant_since-again :
      (ex : Execution) (s s' : S) (a : List ℕ) (b b' start : ℕ)
      → ex.time < u32_mod
      → get_unbound_offset db s ex.current_context a ≡ ok start
      → grant_since db ex s a b start ≡ ok s'
      → grant_ong db ex s' a b' ≡ ok s'
  unfolding grant_between
  grant_since-again ex s s' a b b' start h k e = elim (turn ex s a start) [
    | idle same ↦
        let eq : s ≡ s' = let here = same b in cc in
        rw (← eq) (grant_ong-idle ex s a b' start k (same b'))
    | late wrong ↦ let here = wrong b in cc
    | due after long granted ↦
        let end = ex.time - genesis_block_timestamp in
        let offset =
          offset_behind (grant_balance db ex s a b start end) s' ex.current_context a end
            (omega arith) (sym (granted b) ∙ e) in
        grant_ong-idle ex s' a b' end offset (grant_since-end ex s' a b' after)
  ]

  -- When `grantOng` has succeeded for an address at a time below 2 ^ 32, a second `grantOng` for
  -- the address at the same time, with any balance, succeeds and changes nothing.
  pub grant_ong-again :
      (ex : Execution) (s s' : S) (a : List ℕ) (b b' : ℕ)
      → ex.time < u32_mod
      → grant_ong db ex s a b ≡ ok s'
      → grant_ong db ex s' a b' ≡ ok s'
  unfolding grant_ong
  grant_ong-again ex s s' a b b' h e =
      let (start, k, rest) =
        >>=-eq-ok (get_unbound_offset db s ex.current_context a)
          (λ start. grant_since db ex s a b start) e in
      grant_since-again ex s s' a b b' start h k rest
