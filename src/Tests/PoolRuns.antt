-- ===== src/Tests/PoolRuns.antt =====
-- A pool of three entries, one of them verified too low.
use mathlib.Core.List.Perm
use mathlib.Core.Option.{some-injective}
use layer.Base.{
  ℕ, refl, ◌≡◌, true, false, arith, bytes_equal, Bool-cases, inl, inr, ap, sym, length, List, [],
  ◌∷◌, take, some, none,
}
use layer.Ledger.Transaction.{Transaction, Payload}
use layer.TxPool.{
  TxPool, TxEntry, stateless, stateful, get_entry, get_unverified_txs, get_tx_pool, add_tx_list,
  check_entries, check_entry, delete_entry, remove_txs_below_gas_price, remain, contains_entry,
  compare_tx_height, is_stateful,
}
use layer.TxPool.Check.{still_valid, has_hash, get_entry-get_unverified_txs}
use layer.TxPool.Count.{has_stateful, result_count, result_count-get_unverified_txs}
use layer.TxPool.Recent.{is_recent, stateful_heights, add_height, all_from}
use layer.TxPool.Keyed.{Keyed}
use layer.TxPool.Reach.{
  Reached, start, later, add, transactions, Reached-Keyed, remain-transactions,
}
use layer.TxPool.Price.{at_price, get_entry-remove_txs_below_gas_price}
use layer.TxPool.Drain.{AllValid, rounds, rounds-nil}
use layer.TxPool.Choice.{valid_entries, entries_of, get_tx_pool-valid_entries}

abbrev tx_at : ℕ → Transaction
tx_at n = record {
  unsigned = record {
    version = 0;
    tx_type = 209;
    system_id = 0;
    nonce = n;
    gas_price = 500;
    gas_limit = 20000;
    payer = [];
    payload = Payload.invoke (record { code = n ∷ [] });
    attributes = 0;
  };
  sigs = [];
  raw = n ∷ [];
  hash = n ∷ 7 ∷ [];
}

abbrev entry_at : ℕ → ℕ → TxEntry
entry_at n height = record {
  tx = tx_at n;
  attrs =
      record { height = 0; type = stateless; err_code = 0 }
      ∷ record { height = height; type = stateful; err_code = 0 }
      ∷ [];
}

abbrev three_entries : TxPool
three_entries =
    (add_tx_list (add_tx_list (add_tx_list [] (entry_at 1 9)).1 (entry_at 2 4)).1 (entry_at 3 9)).1

abbrev one_entry : TxPool
one_entry = ((tx_at 2).hash, entry_at 2 4) ∷ []

one_entry-has_stateful :
    (hash : List ℕ) (e : TxEntry) → get_entry hash one_entry ≡ some e → has_stateful e.attrs ≡ true
unfolding get_entry has_stateful is_stateful
one_entry-has_stateful hash e h = elim (Bool-cases (bytes_equal (tx_at 2).hash hash)) [
  | inl same ↦
      let found : some (entry_at 2 4) ≡ some e = rw same at h in
      sym (ap (λ (f : TxEntry). has_stateful f.attrs) (some-injective (entry_at 2 4) e found))
  | inr apart ↦ let gone : none ≡ some e = rw apart at h in cc
]

result_count-get_unverified_txs_run :
    result_count (get_unverified_txs one_entry (tx_at 1 ∷ tx_at 2 ∷ []) 6).0
    ≡ length (tx_at 1 ∷ tx_at 2 ∷ [])
result_count-get_unverified_txs_run =
    result_count-get_unverified_txs one_entry (tx_at 1 ∷ tx_at 2 ∷ []) 6 one_entry-has_stateful

get_entry-get_unverified_txs_example :
    get_entry (2 ∷ 7 ∷ []) (get_unverified_txs three_entries (tx_at 1 ∷ tx_at 2 ∷ tx_at 5 ∷ []) 6).1
    ≡ still_valid
        (has_hash (2 ∷ 7 ∷ []) (tx_at 1 ∷ tx_at 2 ∷ tx_at 5 ∷ []))
        6
        (get_entry (2 ∷ 7 ∷ []) three_entries)
get_entry-get_unverified_txs_example =
    get_entry-get_unverified_txs (2 ∷ 7 ∷ []) three_entries (tx_at 1 ∷ tx_at 2 ∷ tx_at 5 ∷ []) 6

get_tx_pool-valid_entries_example :
    ((get_tx_pool (λ entries. entries) 2 three_entries true 6).0
      ≡ take 2 (valid_entries 6 (entries_of three_entries)))
    × ((get_tx_pool (λ entries. entries) 2 three_entries false 6).0
        ≡ valid_entries 6 (entries_of three_entries))
get_tx_pool-valid_entries_example =
    get_tx_pool-valid_entries (λ entries. entries) (λ entries. refl) 2 three_entries 6 (omega arith)

removed_run :
    get_entry (2 ∷ 7 ∷ []) (get_unverified_txs three_entries (tx_at 1 ∷ tx_at 2 ∷ tx_at 5 ∷ []) 6).1
    ≡ none
unfolding get_unverified_txs check_entries check_entry get_entry delete_entry add_tx_list
    contains_entry bytes_equal compare_tx_height is_stateful
removed_run = refl

three_entries-Reached : Reached three_entries
three_entries-Reached =
    later (later (later start (add (entry_at 1 9))) (add (entry_at 2 4))) (add (entry_at 3 9))

Reached-Keyed_example : Keyed three_entries
Reached-Keyed_example = Reached-Keyed three_entries-Reached

remain_run : remain three_entries ≡ (transactions three_entries, [])
remain_run = remain-transactions three_entries three_entries-Reached

get_entry-remove_txs_below_gas_price_example :
    get_entry (2 ∷ 7 ∷ []) (remove_txs_below_gas_price three_entries 501)
    ≡ at_price 501 (get_entry (2 ∷ 7 ∷ []) three_entries)
get_entry-remove_txs_below_gas_price_example =
    get_entry-remove_txs_below_gas_price (2 ∷ 7 ∷ []) three_entries 501 three_entries-Reached

three_entries-AllValid : AllValid 4 three_entries
unfolding add_tx_list contains_entry get_entry bytes_equal is_recent stateful_heights add_height
    all_from
three_entries-AllValid = (refl, (refl, (refl, tt)))

rounds-nil_example : rounds (λ entries. entries) 1 4 3 three_entries ≡ []
unfolding add_tx_list contains_entry get_entry bytes_equal
rounds-nil_example =
    rounds-nil (λ entries. entries) (λ entries. Perm.refl entries) 1 4 three_entries
      three_entries-Reached three_entries-AllValid
