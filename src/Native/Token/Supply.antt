-- ===== src/Native/Token/Supply.antt =====
-- What a transfer does to the sum of the balances of a list of accounts.
use layer.Base.{
  ℕ, ◌+◌, ◌-◌, ◌%◌, ◌<◌, ◌≤◌, ◌≡◌, refl, false, List, [], ◌∷◌, if◌then◌else◌, bytes_equal,
  bytes_equal→eq, Bool-cases, inl, inr, arith, ok, >>=-eq-ok,
}
use layer.Common.SafeMath.{u64_mod}
use layer.Native.Store.{Db}
use layer.Native.Token.{State, Service, is_layer2_addr, transfer}
use layer.Native.Token.Spec.{Balances, set, debited, credited, permitted, moved}
use layer.Native.Token.Agreement.{Agree-ok}
use layer.Native.Token.Refinement.{Represents, IsAddress, transfer-Agree}

abbrev pub total : Balances → List (List ℕ) → ℕ
total bal [] = 0
total bal (a ∷ accounts) = bal a + total bal accounts

-- How often an address is listed.
abbrev pub count : List ℕ → List (List ℕ) → ℕ
count a [] = 0
count a (j ∷ js) = (if bytes_equal a j then 1 else 0) + count a js

total-set_absent :
    (bal : Balances) (a : List ℕ) (v : ℕ) (accounts : List (List ℕ))
    → count a accounts ≡ 0
    → total (set bal a v) accounts ≡ total bal accounts
unfolding set
total-set_absent bal a v [] h = refl
total-set_absent bal a v (j ∷ js) h = elim (Bool-cases (bytes_equal a j)) [
  | inl e ↦ absurd (ground arith)
  | inr e ↦ ground (arith, total-set_absent bal a v js)
]

total-set :
    (bal : Balances) (a : List ℕ) (v : ℕ) (accounts : List (List ℕ))
    → count a accounts ≡ 1
    → total (set bal a v) accounts + bal a ≡ total bal accounts + v
unfolding set
total-set bal a v [] h = absurd (omega arith)
total-set bal a v (j ∷ js) h = elim (Bool-cases (bytes_equal a j)) [
  | inl e ↦
      let same : bal j ≡ bal a = rw (bytes_equal→eq a j e) in
      let none_left : count a js ≡ 0 = ground arith in
      let rest = total-set_absent bal a v js none_left in
      rw e (unfold set in omega (arith, same, rest))
  | inr e ↦
      let more : count a js ≡ 1 = ground arith in
      let rest = total-set bal a v js more in rw e (omega (arith, rest))
]

-- Every address but the layer2 address is listed once.
abbrev pub Listed : List ℕ → List (List ℕ) → Type 0
Listed a accounts = is_layer2_addr a ≡ false → count a accounts ≡ 1

-- What crosses the bridge at an address.
unfoldable pub bridged : List ℕ → ℕ → ℕ
bridged a v = if is_layer2_addr a then v else 0

bridged-leq : (a : List ℕ) (v : ℕ) → bridged a v ≤ v
unfolding bridged
bridged-leq a v = ground arith

debited-other :
    (bal bal' : Balances) (a : List ℕ) (v x : ℕ)
    → is_layer2_addr a ≡ false
    → debited bal a v ≡ ok (x, bal')
    → (v ≤ bal a) × (set bal a (bal a - v) ≡ bal')
unfolding debited
debited-other bal bal' a v x e h = ground arith

total-debited :
    (bal bal' : Balances) (a : List ℕ) (v x : ℕ) (accounts : List (List ℕ))
    → Listed a accounts
    → debited bal a v ≡ ok (x, bal')
    → total bal' accounts + v ≡ total bal accounts + bridged a v
unfolding debited bridged
total-debited bal bal' a v x accounts listed h = elim (Bool-cases (is_layer2_addr a)) [
  | inl e ↦ ground arith
  | inr e ↦
      let back = total-set bal a (bal a - v) accounts (listed e) in
      let (enough, same) = debited-other bal bal' a v x e h in rw (e, ← same) (omega arith)
]

total-credited :
    (bal bal' : Balances) (a : List ℕ) (v x : ℕ) (accounts : List (List ℕ))
    → Listed a accounts
    → total bal accounts + v < u64_mod
    → credited bal a v ≡ ok (x, bal')
    → total bal' accounts + bridged a v ≡ total bal accounts + v
unfolding credited bridged
total-credited bal bal' a v x accounts listed small h = elim (Bool-cases (is_layer2_addr a)) [
  | inl e ↦ ground arith
  | inr e ↦
      let back = total-set bal a ((bal a + v) % u64_mod) accounts (listed e) in
      let cleared = total-set bal a 0 accounts (listed e) in
      let fits : (bal a + v) % u64_mod ≡ bal a + v = omega arith in
      let same : set bal a ((bal a + v) % u64_mod) ≡ bal' = ground arith in
      rw (e, ← same) (omega arith)
]

moved-total :
    (native : Service) (bal : Balances) (state : State) (accounts : List (List ℕ))
    (r : ℕ × ℕ × Balances)
    → Listed state.from accounts
    → Listed state.to accounts
    → total bal accounts + state.value < u64_mod
    → moved native bal state ≡ ok r
    → total r.2 accounts + bridged state.to state.value
      ≡ total bal accounts + bridged state.from state.value
unfolding moved
moved-total native bal state accounts r from to small h =
    let v = state.value in
    let (u, _, h1) = >>=-eq-ok (permitted native state.from state.from) _ h in
    let (d, debit, h2) = >>=-eq-ok (debited bal state.from v) _ h1 in
    let (c, credit, h3) = >>=-eq-ok (credited d.1 state.to v) _ h2 in
    let paid = total-debited bal d.1 state.from v d.0 accounts from debit in
    let bounded = bridged-leq state.from v in
    let received = total-credited d.1 c.1 state.to v c.0 accounts to (omega arith) credit in
    let same : c.1 ≡ r.2 = cc in rw (← same) (omega arith)

-- Over a cache that holds the balances `bal`, let a list of accounts have each of the two
-- addresses, of 20 bytes, once, the layer2 address excepted, and let the sum of its balances and
-- the amount be below 2 ^ 64. When `Transfer` succeeds, the new cache holds balances whose sum
-- over the list is the old one, plus the amount where it comes from the layer2 address, less the
-- amount where it goes to the layer2 address.
pub transfer-total :
    {S : Type 0} (db : Db S) (native : Service) (s : S) (bal : Balances) (state : State)
    (accounts : List (List ℕ)) (x y : ℕ) (s' : S)
    → Represents db native.contract s bal
    → IsAddress state.from
    → IsAddress state.to
    → Listed state.from accounts
    → Listed state.to accounts
    → total bal accounts + state.value < u64_mod
    → transfer db native s state ≡ ok (x, y, s')
    → (bal' : Balances) × Represents db native.contract s' bal'
      × (total bal' accounts + bridged state.to state.value
          ≡ total bal accounts + bridged state.from state.value)
transfer-total db native s bal state accounts x y s' r from to listed listed' small h =
    let (b, e, same) = Agree-ok (transfer-Agree db native s bal state r from to) h in
    (b.2, same.2, moved-total native bal state accounts b listed listed' small e)
