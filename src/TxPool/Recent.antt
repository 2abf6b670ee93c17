-- ===== src/TxPool/Recent.antt =====
-- Which entries the pool of node/txnpool/common/transaction_pool.go need not verify again.
use layer.Base.{
  ℕ, ◌≡◌, refl, Bool, true, false, ◌&&◌, List, [], ◌∷◌, ltb, leb, if◌then◌else◌, Bool-cases, inl,
  inr, arith,
}
use layer.TxPool.{TxAttr, VerifyType, stateless, stateful, is_stateful, compare_tx_height}

-- The heights of the results of the stateful validator.
unfoldable pub add_height : VerifyType → ℕ → List ℕ → List ℕ
add_height stateless height heights = heights
add_height stateful height heights = height ∷ heights

unfoldable pub stateful_heights : List TxAttr → List ℕ
stateful_heights [] = []
stateful_heights (v ∷ attrs) = add_height v.type v.height (stateful_heights attrs)

unfoldable pub all_from : ℕ → List ℕ → Bool
all_from height [] = true
all_from height (h ∷ heights) = leb height h && all_from height heights

-- No stateful result is from below the height.
unfoldable pub is_recent : ℕ → List TxAttr → Bool
is_recent height attrs = all_from height (stateful_heights attrs)

test_first :
    (type : VerifyType) (h height : ℕ) (heights : List ℕ)
    → (if is_stateful type && ltb h height then false else all_from height heights)
      ≡ all_from height (add_height type h heights)
unfolding is_stateful all_from add_height
test_first stateless h height heights = refl
test_first stateful h height heights = elim (Bool-cases (ltb h height)) [
  | inl low ↦ let below : leb height h ≡ false = ground arith in rw (low, below) refl
  | inr high ↦ let above : leb height h ≡ true = ground arith in rw (high, above) refl
]

pub compare_tx_height-is_recent :
    (attrs : List TxAttr) (height : ℕ) → compare_tx_height attrs height ≡ is_recent height attrs
unfolding compare_tx_height is_recent stateful_heights all_from
compare_tx_height-is_recent [] height = refl
compare_tx_height-is_recent (v ∷ attrs) height =
    rw (compare_tx_height-is_recent attrs height)
      (test_first v.type v.height height (stateful_heights attrs))
