-- ===== src/Tests/TokenRuns.antt =====
-- The token theorems at a cache where one account holds 100 and lets another spend 60.
use layer.Base.{
  some, ℕ, ◌+◌, ◌≡◌, refl, ◌∙◌, arith, true, false, List, [], ◌∷◌, replicate, ok, bytes_equal,
}
use layer.Common.SafeMath.{safe_add}
use layer.Common.Words.{le_bytes, le_value}
use layer.Common.Bytes.{var_bytes, var_uint_bytes}
use layer.Common.Source.{
  new_source, next_byte, next_bytes, next_word, next_uint16, next_uint32, next_uint64,
  next_var_uint, next_var_bytes, finish_var_uint, finish_var_bytes, get_var_uint_size, read_end,
}
use layer.Native.Item.{item_bytes, deserialize_item}
use layer.Native.Store.{
  as_item, read_word, gen_uint64_storage_item, get_storage_uint64, item_of, word_of,
  get_storage_item,
}
use layer.Native.Store.Numbers.{get_storage_uint64-put}
use layer.Native.Token.{
  State, TransferFrom, Service, address_empty, gen_balance_key, gen_approve_key, authorise, debit,
  credit, from_transfer, to_transfer, lift, put_rest, get_to_uint64_storage_item, put_uint64,
  transfer, transfered_from, ong_transfer, ong_approve, is_layer2_addr,
}
use layer.Native.Token.Spec.{
  Balances, set, moved, all_moved, Allowances, set_allowance, moved_from, approved,
}
use layer.Native.Token.Agreement.{Agree}
use layer.Native.Token.Refinement.{
  Represents, Represents-set, SameMoved, transfer-Agree, ong_transfer-Agree,
}
use layer.Native.Token.Allowance.{
  Approves, SameAllowances, Holds, Represents-Written, Approves-Written, Approves-unchanged,
  balance_key-ne_approve_key, transfered_from-Agree, ong_approve-Agree,
}
use layer.Native.Token.Supply.{total, bridged, transfer-total}
use layer.Native.Unbind.{
  unbound_deadline, add_generated, unbind_loop, unbind_amount, calc_unbind_ong,
}
use layer.Tests.{Entries, entries_db}

abbrev pub ong : List ℕ
ong = replicate 20 9

abbrev pub alice : List ℕ
alice = replicate 20 1

abbrev pub bob : List ℕ
bob = replicate 20 2

abbrev service : Service
service = record { contract = ong; operator = false; check_witness = λ a. true; min_ong_limit = 1 }

abbrev pub funded : Entries
funded = put_uint64 entries_db [] (gen_balance_key ong alice) 100

abbrev ready : Entries
ready = put_uint64 entries_db funded (gen_approve_key ong alice bob) 60

abbrev pub balances : Balances
balances = set (λ a. 0) alice 100

abbrev allowances : Allowances
allowances = set_allowance (λ f t. 0) alice bob 60

empty-Represents : Represents entries_db ong [] (λ a. 0)
unfolding get_storage_uint64 get_storage_item item_of word_of
empty-Represents = record { reads = λ a la. refl; bounded = λ a. omega arith }

pub empty-Approves : Approves entries_db ong [] (λ f t. 0)
unfolding get_storage_uint64 get_storage_item item_of word_of
empty-Approves = record { reads = λ f t lf lt. refl; bounded = λ f t. omega arith }

pub funded-Represents : Represents entries_db ong funded balances
unfolding put_uint64
funded-Represents =
    Represents-set entries_db ong [] funded (λ a. 0) alice 100 empty-Represents (omega arith)
      (λ j. get_storage_uint64-put entries_db [] (gen_balance_key ong alice) j 100 (omega arith))

funded-SameAllowances : SameAllowances entries_db ong [] funded
unfolding put_uint64
funded-SameAllowances = record {
  unchanged = λ f t lf lt.
      (get_storage_uint64-put entries_db [] (gen_balance_key ong alice) (gen_approve_key ong f t)
          100 (omega arith)
        ∙ rw (balance_key-ne_approve_key ong alice f t refl lf lt));
}

ready-Holds : Holds entries_db ong balances ready allowances
unfolding put_uint64
ready-Holds =
    let written = λ (j : List ℕ).
      get_storage_uint64-put entries_db funded (gen_approve_key ong alice bob) j 60 (omega arith) in
    (
      Represents-Written entries_db ong funded ready balances alice bob 60 funded-Represents refl
          refl written,
      Approves-Written entries_db ong funded ready (λ f t. 0) alice bob 60
          (Approves-unchanged entries_db ong [] funded (λ f t. 0) empty-Approves
            funded-SameAllowances)
          (omega arith) written,
    )

abbrev payment : State
payment = record { from = alice; to = bob; value = 30 }

abbrev withdrawal : State
withdrawal = record { from = alice; to = address_empty; value = 20 }

abbrev spending : TransferFrom
spending = record { sender = bob; from = alice; to = bob; value = 50 }

transfer-Agree_example :
    Agree
      (SameMoved entries_db ong)
      (transfer entries_db service funded payment)
      (moved service balances payment)
transfer-Agree_example =
    transfer-Agree entries_db service funded balances payment funded-Represents refl refl

ong_transfer-Agree_run :
    Agree
      (Represents entries_db ong)
      (ong_transfer entries_db service funded (payment ∷ withdrawal ∷ []))
      (all_moved service balances (payment ∷ withdrawal ∷ []))
ong_transfer-Agree_run =
    ong_transfer-Agree entries_db service funded balances (payment ∷ withdrawal ∷ [])
      funded-Represents ((refl, refl), ((refl, refl), tt))

transfered_from-Agree_example :
    Agree
      (λ x y. (x.0 ≡ y.0) × (x.1 ≡ y.1) × Holds entries_db ong y.2 x.2 y.3)
      (transfered_from entries_db service ready spending)
      (moved_from service balances allowances spending)
transfered_from-Agree_example =
    transfered_from-Agree entries_db service ready balances allowances spending ready-Holds refl
      refl refl

ong_approve-Agree_run :
    Agree
      (Holds entries_db ong balances)
      (ong_approve entries_db service ready payment)
      (approved service allowances payment)
ong_approve-Agree_run =
    ong_approve-Agree entries_db service ready balances allowances payment ready-Holds refl refl

-- The cache behind the payment.
abbrev paid : Entries
paid =
    put_uint64 entries_db (put_uint64 entries_db funded (gen_balance_key ong alice) 70)
      (gen_balance_key ong bob) 30

payment_run : transfer entries_db service funded payment ≡ ok (100, 0, paid)
unfolding transfer authorise is_layer2_addr bytes_equal debit credit from_transfer to_transfer lift
    put_rest put_uint64 get_storage_uint64 get_storage_item word_of read_word item_of as_item
    deserialize_item item_bytes var_bytes var_uint_bytes le_bytes le_value gen_balance_key
    gen_uint64_storage_item get_to_uint64_storage_item new_source next_byte next_bytes next_word
    next_uint16 next_uint32 next_uint64 next_var_uint next_var_bytes finish_var_uint
    finish_var_bytes get_var_uint_size read_end safe_add
payment_run = refl

transfer-total_example :
    (bal' : Balances) × Represents entries_db ong paid bal'
    × (total bal' (alice ∷ bob ∷ []) + bridged bob 30
        ≡ total balances (alice ∷ bob ∷ []) + bridged alice 30)
unfolding set is_layer2_addr bytes_equal
transfer-total_example =
    transfer-total entries_db service funded balances payment (alice ∷ bob ∷ []) 100 0 paid
      funded-Represents refl refl (λ e. refl) (λ e. refl) (omega arith) payment_run

-- One ONT unbinds a billion units of ONG from the genesis block to the deadline, and later no more.
full_unbinding : calc_unbind_ong 1 0 (unbound_deadline + 5) ≡ some 1000000000
unfolding add_generated unbind_loop unbind_amount calc_unbind_ong
full_unbinding = refl
