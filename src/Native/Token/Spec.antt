-- ===== src/Native/Token/Spec.antt =====
-- The token as a map from addresses to amounts, without storage, keys or encodings: what Transfer
-- and TransferedFrom promise.
use layer.Base.{
  ℕ, ◌+◌, ◌-◌, ◌%◌, not, List, [], ◌∷◌, ◌++◌, if◌then◌else◌, ltb, bytes_equal, Outcome, ok, err,
  ◌>>=◌, ◌>>◌, fail_if,
}
use layer.Common.SafeMath.{u64_mod}
use layer.Native.Token.{
  State, TransferFrom, Service, approve_insufficient, TransferError, authentication_failed,
  balance_insufficient, too_small, over_total_supply, ong_total_supply, is_layer2_addr,
  only_operator,
}

abbrev pub Balances : Type 0
Balances = List ℕ → ℕ

unfoldable pub set : Balances → List ℕ → ℕ → Balances
set bal a amount j = if bytes_equal a j then amount else bal j

unfoldable pub debited : Balances → List ℕ → ℕ → Outcome TransferError (ℕ × Balances)
debited bal a v =
    if is_layer2_addr a
    then ok (0, bal)
    else (fail_if (ltb (bal a) v) balance_insufficient >> ok (bal a, set bal a (bal a - v)))

unfoldable pub credited : Balances → List ℕ → ℕ → Outcome TransferError (ℕ × Balances)
credited bal a v =
    if is_layer2_addr a then ok (0, bal) else ok (bal a, set bal a ((bal a + v) % u64_mod))

-- Whose word a transfer from `a` takes: the operator's for the layer2 address, or the signer's.
unfoldable pub permitted : Service → List ℕ → List ℕ → Outcome TransferError (Unit {0})
permitted native a signer =
    let (granted, refusal) =
      if is_layer2_addr a
      then (native.operator, only_operator)
      else (native.check_witness signer, authentication_failed) in
    if granted then ok tt else err refusal

unfoldable pub moved : Service → Balances → State → Outcome TransferError (ℕ × ℕ × Balances)
moved native bal state = permitted native state.from state.from >> (do
  d ← debited bal state.from state.value
  c ← credited d.1 state.to state.value
  ok (d.0, c.0, c.1))

unfoldable pub all_moved : Service → Balances → List State → Outcome TransferError Balances
all_moved native bal [] = ok bal
all_moved native bal (v ∷ vs) =
    fail_if (ltb v.value native.min_ong_limit) too_small
    >> (fail_if (ltb ong_total_supply v.value) over_total_supply
        >> (do t ← moved native bal v; all_moved native t.2 vs))

-- What `from` lets `sender` spend.
abbrev pub Allowances : Type 0
Allowances = List ℕ → List ℕ → ℕ

unfoldable pub set_allowance : Allowances → List ℕ → List ℕ → ℕ → Allowances
set_allowance allow from sender amount f t =
    if bytes_equal (from ++ sender) (f ++ t) then amount else allow f t

unfoldable pub spent : Allowances → TransferFrom → Outcome TransferError Allowances
spent allow state =
    let left = allow state.from state.sender in
    if is_layer2_addr state.from
    then ok allow
    else (fail_if (ltb left state.value) approve_insufficient
        >> ok (set_allowance allow state.from state.sender (left - state.value)))

unfoldable pub moved_from :
    Service
    → Balances
    → Allowances
    → TransferFrom
    → Outcome TransferError (ℕ × ℕ × Balances × Allowances)
moved_from native bal allow state = permitted native state.from state.sender >> (do
  rest ← spent allow state
  d ← debited bal state.from state.value
  c ← credited d.1 state.to state.value
  ok (d.0, c.0, c.1, rest))

unfoldable pub approved : Service → Allowances → State → Outcome TransferError Allowances
approved native allow state =
    fail_if (ltb ong_total_supply state.value) over_total_supply
    >> (fail_if (not (native.check_witness state.from)) authentication_failed
        >> ok (set_allowance allow state.from state.to state.value))
