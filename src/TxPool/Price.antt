-- ===== src/TxPool/Price.antt =====
-- What `RemoveTxsBelowGasPrice` of node/txnpool/common/transaction_pool.go leaves in the pool.
use layer.Base.{
  ℕ, ◌≡◌, refl, sym, ap, ◌∙◌, Bool, true, false, ◌&&◌, ◌||◌, List, [], ◌∷◌, ltb, if◌then◌else◌,
  Option, none, some, bytes_equal, bytes_equal→eq, Bool-cases, inl, inr,
}
use layer.TxPool.{
  TxPool, TxEntry, get_entry, delete_entry, remove_below, remove_txs_below_gas_price,
}
use layer.TxPool.Check.{get_entry-delete_entry}
use layer.TxPool.Keyed.{Keyed}
use layer.TxPool.Reach.{Reached, Reached-Keyed}

-- Does an entry below the price have the hash?
unfoldable has_below : ℕ → List ℕ → TxPool → Bool
has_below gas_price hash [] = false
has_below gas_price hash (e ∷ pool) =
    (ltb e.1.tx.unsigned.gas_price gas_price && bytes_equal e.1.tx.hash hash)
    || has_below gas_price hash pool

-- An entry that is not below the price.
unfoldable pub at_price : ℕ → Option TxEntry → Option TxEntry
at_price gas_price none = none
at_price gas_price (some e) = if ltb e.tx.unsigned.gas_price gas_price then none else some e

none_either : (b : Bool) → ◌≡◌ {A = Option TxEntry} (if b then none else none) none
none_either true = refl
none_either false = refl

get_entry-remove_below :
    (hash : List ℕ) (entries pool : TxPool) (gas_price : ℕ)
    → get_entry hash (remove_below entries pool gas_price)
      ≡ (if has_below gas_price hash entries then none else get_entry hash pool)
unfolding remove_below has_below
get_entry-remove_below hash [] pool gas_price = refl
get_entry-remove_below hash (e ∷ entries) pool gas_price =
    elim (Bool-cases (ltb e.1.tx.unsigned.gas_price gas_price)) [
      | inl cheap ↦
          let rest =
            get_entry-remove_below hash entries (delete_entry e.1.tx.hash pool) gas_price in
          let gone = get_entry-delete_entry hash e.1.tx.hash pool in
          rw cheap (elim (Bool-cases (bytes_equal e.1.tx.hash hash)) [
            | inl same ↦ rest ∙ rw (gone, same) (none_either (has_below gas_price hash entries))
            | inr apart ↦ rest ∙ rw (gone, apart) refl
          ])
      | inr dear ↦ rw dear (get_entry-remove_below hash entries pool gas_price)
    ]

has_below-none :
    (gas_price : ℕ) (hash : List ℕ) (pool : TxPool)
    → Keyed pool
    → get_entry hash pool ≡ none
    → has_below gas_price hash pool ≡ false
unfolding has_below get_entry
has_below-none gas_price hash [] h none_there = refl
has_below-none gas_price hash (e ∷ pool) h none_there = elim (Bool-cases (bytes_equal e.0 hash)) [
  | inl same ↦ let no : some e.1 ≡ none = rw same at none_there in cc
  | inr apart ↦
      let ih = has_below-none gas_price hash pool h.2 (rw apart at none_there) in
      let other : bytes_equal e.1.tx.hash hash ≡ false =
        ap (λ k. bytes_equal k hash) (sym h.0) ∙ apart in
      elim (Bool-cases (ltb e.1.tx.unsigned.gas_price gas_price)) [
        | inl cheap ↦ rw (cheap, other) ih
        | inr dear ↦ rw dear ih
      ]
]

has_below-at_price :
    (gas_price : ℕ) (hash : List ℕ) (pool : TxPool)
    → Keyed pool
    → (if has_below gas_price hash pool then none else get_entry hash pool)
      ≡ at_price gas_price (get_entry hash pool)
unfolding has_below get_entry at_price
has_below-at_price gas_price hash [] h = refl
has_below-at_price gas_price hash (e ∷ pool) h = elim (Bool-cases (bytes_equal e.0 hash)) [
  | inl same ↦
      let alone : get_entry hash pool ≡ none =
        ap (λ k. get_entry k pool) (sym (bytes_equal→eq e.0 hash same)) ∙ h.1 in
      let rest = has_below-none gas_price hash pool h.2 alone in
      let own : bytes_equal e.1.tx.hash hash ≡ true =
        ap (λ k. bytes_equal k hash) (sym h.0) ∙ same in
      elim (Bool-cases (ltb e.1.tx.unsigned.gas_price gas_price)) [
        | inl cheap ↦ rw (same, own, cheap) refl
        | inr dear ↦ rw (same, own, dear, rest) refl
      ]
  | inr apart ↦
      let other : bytes_equal e.1.tx.hash hash ≡ false =
        ap (λ k. bytes_equal k hash) (sym h.0) ∙ apart in
      let ih = has_below-at_price gas_price hash pool h.2 in
      elim (Bool-cases (ltb e.1.tx.unsigned.gas_price gas_price)) [
        | inl cheap ↦ rw (apart, cheap, other) ih
        | inr dear ↦ rw (apart, dear) ih
      ]
]

-- After `RemoveTxsBelowGasPrice` on a pool that the calls make of the empty one, every hash has
-- the entry that it had, or none if the gas price of its transaction is below the one given.
pub get_entry-remove_txs_below_gas_price :
    (hash : List ℕ) (pool : TxPool) (gas_price : ℕ)
    → Reached pool
    → get_entry hash (remove_txs_below_gas_price pool gas_price)
      ≡ at_price gas_price (get_entry hash pool)
unfolding remove_txs_below_gas_price
get_entry-remove_txs_below_gas_price hash pool gas_price r =
    get_entry-remove_below hash pool pool gas_price
    ∙ has_below-at_price gas_price hash pool (Reached-Keyed r)
