-- ===== src/Native/Unbind.antt =====
-- node/smartcontract/service/native/utils/unbind_ong.go: the ONG that an ONT balance unbinds between
-- two offsets, in seconds from the genesis block, with the constants of
-- node/common/constants/constants.go. None is a panic: an index behind the amounts.
use layer.Base.{
  ℕ, zero, suc, ◌+◌, ◌-◌, ◌*◌, ◌/◌, ◌%◌, Option, some, List, [], ◌∷◌, get_elem?, ltb, leb,
  if◌then◌else◌,
}
use layer.Common.SafeMath.{u64_mod}
use layer.Merkle.Util.{u32_mod}
use layer.Merkle.Hasher.{◌>>=◌}

abbrev pub unbound_time_interval : ℕ
unbound_time_interval = 31536000

abbrev pub unbound_generation_amount : List ℕ
unbound_generation_amount =
    5 ∷ 4 ∷ 3 ∷ 3 ∷ 2 ∷ 2 ∷ 2 ∷ 1 ∷ 1 ∷ 1 ∷ 1 ∷ 1 ∷ 1 ∷ 1 ∷ 1 ∷ 1 ∷ 1 ∷ 1 ∷ []

abbrev pub ont_total_supply : ℕ
ont_total_supply = 1000000000

abbrev pub sum_amounts : List ℕ → ℕ
sum_amounts [] = 0
sum_amounts (m ∷ ms) = m + sum_amounts ms

-- The interval times the number of amounts, less what the amounts make beyond the supply.
abbrev pub unbound_deadline : ℕ
unbound_deadline =
    unbound_time_interval * 18
    - (sum_amounts unbound_generation_amount * unbound_time_interval - ont_total_supply)

-- `uint64(seconds) * GENERATION_AMOUNT[u]`, added to the amount.
unfoldable pub add_generated : ℕ → ℕ → ℕ → Option ℕ
add_generated amount seconds u =
    get_elem? unbound_generation_amount u >>= λ rate. some ((amount + seconds * rate) % u64_mod)

-- for ustart < uend: the amount and istart behind the loop, in uend - ustart rounds.
unfoldable pub unbind_loop : ℕ → ℕ → ℕ → ℕ → Option (ℕ × ℕ × ℕ)
unbind_loop zero ustart istart amount = some (ustart, istart, amount)
unbind_loop (suc n) ustart istart amount =
    add_generated amount (unbound_time_interval - istart) ustart >>= unbind_loop n (ustart + 1) 0

unfoldable pub unbind_amount : ℕ → ℕ → Option ℕ
unbind_amount start_offset end_offset =
    let stop = if leb unbound_deadline end_offset then unbound_deadline else end_offset in
    let ustart = start_offset / unbound_time_interval in
    let uend = stop / unbound_time_interval in
    let iend = stop % unbound_time_interval in
    unbind_loop (uend - ustart) ustart (start_offset % unbound_time_interval) 0 >>= λ r.
    add_generated r.2 ((iend + u32_mod - r.1) % u32_mod) r.0

unfoldable pub calc_unbind_ong : ℕ → ℕ → ℕ → Option ℕ
calc_unbind_ong balance start_offset end_offset =
    if leb end_offset start_offset
    then some 0
    else if ltb start_offset unbound_deadline
    then (unbind_amount start_offset end_offset >>= λ amount. some ((amount * balance) % u64_mod))
    else some 0
