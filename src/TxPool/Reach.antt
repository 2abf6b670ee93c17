-- ===== src/TxPool/Reach.antt =====
-- What the operations of node/txnpool/common/transaction_pool.go make of an empty pool.
use mathlib.Core.Path.{subst}
use layer.Base.{ℕ, ◌≡◌, refl, sym, ap, ◌∙◌, List, [], ◌∷◌, map, bytes_equal_refl}
use layer.Ledger.Transaction.{Transaction}
use layer.TxPool.{
  TxPool, TxEntry, delete_entry, add_tx_list, clean_transaction_list, del_tx_list,
  get_unverified_txs, remove_txs_below_gas_price, remain_loop, remain,
}
use layer.TxPool.Keyed.{
  Keyed, delete_entry-none, add_tx_list-Keyed, clean_transaction_list-Keyed, del_tx_list-Keyed,
  get_unverified_txs-Keyed, remove_txs_below_gas_price-Keyed,
}

-- The calls that change the pool.
pub data Step (pool : TxPool) : TxPool → Type 0 where
  add : (e : TxEntry) → Step pool (add_tx_list pool e).1
  clean : (txs : List Transaction) → Step pool (clean_transaction_list pool txs)
  del : (tx : Transaction) → Step pool (del_tx_list pool tx).1
  check : (txs : List Transaction) (height : ℕ) → Step pool (get_unverified_txs pool txs height).1
  drop_cheap : (gas_price : ℕ) → Step pool (remove_txs_below_gas_price pool gas_price)
  take_all : Step pool (remain pool).1

-- `start` is the pool behind `Init`.
pub data Reached : TxPool → Type 0 where
  start : Reached []
  later : {pool next : TxPool} → Reached pool → Step pool next → Reached next

abbrev pub transactions : TxPool → List Transaction
transactions pool = map (λ (e : List ℕ × TxEntry). e.1.tx) pool

delete_entry-first :
    (e : List ℕ × TxEntry) (pool : TxPool)
    → Keyed (e ∷ pool)
    → delete_entry e.1.tx.hash (e ∷ pool) ≡ pool
unfolding delete_entry
delete_entry-first e pool h =
    ap (λ k. delete_entry k (e ∷ pool)) (sym h.0)
    ∙ rw (bytes_equal_refl e.0) (delete_entry-none e.0 pool h.1)

remain-Keyed : (pool : TxPool) → Keyed pool → remain pool ≡ (transactions pool, [])
unfolding remain remain_loop
remain-Keyed [] h = refl
remain-Keyed (e ∷ pool) h =
    let rest : remain_loop pool pool ≡ (transactions pool, []) = remain-Keyed pool h.2 in
    ap (λ p. (e.1.tx ∷ (remain_loop pool p).0, (remain_loop pool p).1))
      (delete_entry-first e pool h)
    ∙ ap (λ r. (e.1.tx ∷ r.0, r.1)) rest

Step-Keyed : {pool next : TxPool} → Step pool next → Keyed pool → Keyed next
Step-Keyed {pool} (add e) h = add_tx_list-Keyed pool e h
Step-Keyed {pool} (clean txs) h = clean_transaction_list-Keyed pool txs h
Step-Keyed {pool} (del tx) h = del_tx_list-Keyed pool tx h
Step-Keyed {pool} (check txs height) h = get_unverified_txs-Keyed pool txs height h
Step-Keyed {pool} (drop_cheap gas_price) h = remove_txs_below_gas_price-Keyed pool gas_price h
Step-Keyed {pool} take_all h = subst Keyed (sym (ap (λ r. r.1) (remain-Keyed pool h))) tt

-- In every pool that the calls that change it make of the empty one, each entry stands under the
-- hash of its transaction, and no two entries have the same hash.
pub Reached-Keyed : {pool : TxPool} → Reached pool → Keyed pool
Reached-Keyed start = tt
Reached-Keyed (later r step) = Step-Keyed step (Reached-Keyed r)

-- `Remain` on a pool that the calls make of the empty one gives its transactions and empties it.
pub remain-transactions : (pool : TxPool) → Reached pool → remain pool ≡ (transactions pool, [])
remain-transactions pool r = remain-Keyed pool (Reached-Keyed r)
