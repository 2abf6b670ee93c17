-- ===== src/Native/Ont/Shares.antt =====
-- The shares that `OntInit` reads: their sum, and that no address has two.
use layer.Base.{
  ℕ, zero, suc, ◌+◌, ◌%◌, ◌<◌, ◌≡◌, refl, ◌∙◌, arith, false, Bool-cases, inl, inr, Option, none,
  some, List, [], ◌∷◌, if◌then◌else◌, bytes_equal, bytes_equal→eq, bytes_equal_comm, fail_if-eq-ok,
  ok, >>=-eq-ok, map_err,
}
use layer.Common.SafeMath.{u64_mod, safe_add}
use layer.Common.Source.{ZeroCopySource, new_source, next_var_bytes}
use layer.Native.Unbind.{ont_total_supply}
use layer.Native.Args.{regular, decode_address, decode_var_uint}
use layer.Native.Execution.{argument, wrong_config}
use layer.Native.Ont.{add_share, read_shares, read_distribution}

abbrev pub Shares : Type 0
Shares = List (List ℕ × ℕ)

unfoldable pub shares_total : Shares → ℕ
shares_total [] = 0
shares_total (share ∷ shares) = share.1 + shares_total shares

unfoldable pub share_of : Shares → List ℕ → Option ℕ
share_of [] a = none
share_of (share ∷ shares) a = if bytes_equal share.0 a then some share.1 else share_of shares a

-- No address has two shares.
unfoldable pub Distinct : Shares → Type 0
Distinct [] = Unit {0}
Distinct (share ∷ shares) = (share_of shares share.0 ≡ none) × Distinct shares

add_share-shares_total :
    (d : Shares) (a : List ℕ) (v : ℕ)
    → shares_total d + v < u64_mod
    → shares_total (add_share d a v) ≡ shares_total d + v
unfolding add_share shares_total
add_share-shares_total [] a v h = omega arith
add_share-shares_total (share ∷ d) a v h = ground (arith, add_share-shares_total d a v)

share_of-add_share :
    (d : Shares) (a b : List ℕ) (v : ℕ)
    → bytes_equal a b ≡ false
    → share_of d b ≡ none
    → share_of (add_share d a v) b ≡ none
unfolding add_share share_of
share_of-add_share [] a b v h k = rw h refl
share_of-add_share (share ∷ d) a b v h k = elim (Bool-cases (bytes_equal share.0 a)) [
  | inl e ↦
      let same = bytes_equal→eq share.0 a e in
      let other : bytes_equal share.0 b ≡ false = rw same h in
      let rest : share_of d b ≡ none = rw other at k in rw (e, share_of, other) rest
  | inr e ↦ elim (Bool-cases (bytes_equal share.0 b)) [
    | inl f ↦ let never : some share.1 ≡ none = rw f at k in cc
    | inr f ↦
        let rest : share_of d b ≡ none = rw f at k in
        rw (e, share_of, f) (share_of-add_share d a b v h rest)
  ]
]

add_share-Distinct : (d : Shares) (a : List ℕ) (v : ℕ) → Distinct d → Distinct (add_share d a v)
unfolding add_share Distinct share_of
add_share-Distinct [] a v h = (refl, tt)
add_share-Distinct (share ∷ d) a v (fresh, h) = elim (Bool-cases (bytes_equal share.0 a)) [
  | inl e ↦ rw (e, add_share) (fresh, h)
  | inr e ↦
      rw (e, add_share)
        (
          share_of-add_share d a share.0 v (bytes_equal_comm a share.0 ∙ e) fresh,
          add_share-Distinct d a v h,
        )
]

-- The map holds what was read, each address once.
pub record Fair (r : Shares × ℕ) : Type 0 where
  pub total : shares_total r.0 ≡ r.1
  pub bounded : r.1 < u64_mod
  pub distinct : Distinct r.0

Fair-add_share :
    (d : Shares) (sum : ℕ) (addr : List ℕ) (value : ℕ)
    → Fair (d, sum)
    → (safe_add sum value).1 ≡ false
    → Fair (add_share d addr value, (safe_add sum value).0)
unfolding safe_add
Fair-add_share d sum addr value fair within =
    let small = fair.bounded in
    let fits : sum + value < u64_mod = ground arith in
    let whole : (sum + value) % u64_mod ≡ sum + value = omega arith in
    record {
      total =
          (add_share-shares_total d addr value (omega (arith, fair.total))
            ∙ rw (fair.total, whole));
      bounded = omega arith;
      distinct = add_share-Distinct d addr value fair.distinct;
    }

nothing-Fair : Fair ([], 0)
unfolding shares_total Distinct
nothing-Fair = record { total = refl; bounded = omega arith; distinct = tt }

read_shares-Fair :
    (n : ℕ) (d : Shares) (sum : ℕ) (input : ZeroCopySource) (r : Shares × ℕ)
    → Fair (d, sum)
    → read_shares n d sum input ≡ ok r
    → Fair r
unfolding read_shares
read_shares-Fair zero d sum input r fair e =
    let same : (d, sum) ≡ r = ground arith in rw (← same) fair
read_shares-Fair (suc n) d sum input r fair e =
    let (addr, ha, e1) = >>=-eq-ok (map_err argument (decode_address input)) _ e in
    let (value, hv, e2) = >>=-eq-ok (map_err argument (decode_var_uint addr.1)) _ e1 in
    let added = safe_add sum value.0 in
    let (within, e3) =
      fail_if-eq-ok added.1 wrong_config
        (read_shares n (add_share d addr.0 value.0) added.0 value.1) e2 in
    read_shares-Fair n (add_share d addr.0 value.0) added.0 value.1 r
      (Fair-add_share d sum addr.0 value.0 fair within) e3

pub read_distribution-Fair :
    (input : List ℕ) (r : Shares × ℕ) → read_distribution input ≡ ok r → Fair r
unfolding read_distribution
read_distribution-Fair input r e =
    let (buf, hb, e1) =
      >>=-eq-ok (map_err argument (regular (next_var_bytes (new_source input)))) _ e in
    let (num, hn, e2) = >>=-eq-ok (map_err argument (decode_var_uint (new_source buf.0))) _ e1 in
    read_shares-Fair num.0 [] 0 num.1 r nothing-Fair e2

pub settled : (r : Shares × ℕ) → Fair r → r.1 ≡ ont_total_supply → Fair (r.0, ont_total_supply)
settled r fair same = record {
  total = fair.total ∙ same;
  bounded = omega arith;
  distinct = fair.distinct;
}
