-- ===== src/Tests/ArgRuns.antt =====
-- The handlers of the token contracts at encoded arguments.
use layer.Base.{
  ℕ, ◌+◌, ◌≡◌, refl, arith, false, some, List, [], ◌∷◌, ◌++◌, bytes_equal, ok, err, map_err, length,
}
use layer.Base.Int.{negsuc, pos, to_signed}
use layer.Common.Bytes.{var_bytes, var_uint_bytes}
use layer.Common.Source.{new_source}
use layer.Common.Source.Reading.{reading}
use layer.Common.BigInt.{
  big_int_from_neo_bytes, big_int_to_neo_bytes, sign_negative, sign_positive, add_one,
  little_endian, le_digits, complement, last_byte,
}
use layer.Common.BigInt.RoundTrip.{big_int_from_neo_bytes-big_int_to_neo_bytes}
use layer.Native.Unbind.{calc_unbind_ong, unbind_amount, unbind_loop, add_generated}
use layer.Native.Store.{get_storage_uint64, get_storage_uint32, get_storage_item, item_of, word_of}
use layer.Native.Token.{State, put_uint64, gen_approve_key}
use layer.Native.Token.Agreement.{Agree}
use layer.Native.Token.Spec.{set, all_moved, set_allowance}
use layer.Native.Token.Refinement.{Represents}
use layer.Native.Token.Allowance.{Approves}
use layer.Native.Args.{
  negative_number, encode_var_uint, decode_var_uint, encode_address, transfers_bytes, state_bytes,
  states_bytes, deserialize_transfers,
}
use layer.Native.Args.RoundTrip.{
  decode_var_uint-encode_var_uint, deserialize_transfers-transfers_bytes,
}
use layer.Native.Execution.{Execution, token, service_of}
use layer.Native.Ong.{
  byte_true, gen_total_supply_key, ong_contract_address, ont_contract_address, ong_transfer_call,
  balance_of_call,
}
use layer.Native.Ong.Calls.{ong_transfer_call-Agree, balance_of_call-Represents}
use layer.Native.Ont.{
  genesis_block_timestamp, get_unbound_offset, put_offset, put_shares, grant_ong,
}
use layer.Native.Ont.Grant.{grant_ong-again}
use layer.Native.Ont.Allowed.{grant_ong-due, grant_ong-Approves}
use layer.Native.Ont.Shares.{Shares}
use layer.Tests.{Entries, entries_db}
use layer.Tests.TokenRuns.{alice, bob, ong, funded, balances, funded-Represents}

abbrev execution : Execution
execution = record {
  signature_addresses = alice ∷ [];
  current_context = ong;
  callers = [];
  operator = false;
  min_ong_limit = 1;
  time = genesis_block_timestamp + 100;
  pre_exec = false;
}

abbrev payment : State
payment = record { from = alice; to = bob; value = 30 }

big_int_from_neo_bytes-big_int_to_neo_bytes_example :
    big_int_from_neo_bytes (big_int_to_neo_bytes (negsuc 127)) ≡ negsuc 127
big_int_from_neo_bytes-big_int_to_neo_bytes_example =
    big_int_from_neo_bytes-big_int_to_neo_bytes (negsuc 127)

large_number-short : length (encode_var_uint 0x8000_0000_0000_0000 ++ []) ≡ 9
unfolding encode_var_uint var_bytes var_uint_bytes big_int_to_neo_bytes to_signed sign_negative
    add_one little_endian le_digits complement last_byte
large_number-short = refl

alice-balance : balances alice ≡ 100
unfolding set bytes_equal
alice-balance = refl

decode_var_uint-encode_var_uint_example :
    decode_var_uint (reading [] (encode_var_uint 0x8000_0000_0000_0000 ++ [])) ≡ err negative_number
decode_var_uint-encode_var_uint_example =
    decode_var_uint-encode_var_uint [] [] 0x8000_0000_0000_0000 (omega arith) (omega arith)
      (omega (arith, large_number-short))

payment-short : length (transfers_bytes (payment ∷ [])) ≡ 46
unfolding transfers_bytes states_bytes state_bytes encode_address encode_var_uint var_bytes
    var_uint_bytes big_int_to_neo_bytes to_signed sign_positive little_endian le_digits last_byte
payment-short = refl

alice-short : length (encode_address alice) ≡ 21
unfolding encode_address var_bytes var_uint_bytes
alice-short = refl

deserialize_transfers-transfers_bytes_run :
    deserialize_transfers (new_source (transfers_bytes (payment ∷ [])))
    ≡ ok (
      payment ∷ [],
      record { s = transfers_bytes (payment ∷ []); off = length (transfers_bytes (payment ∷ [])) },
    )
deserialize_transfers-transfers_bytes_run =
    deserialize_transfers-transfers_bytes (payment ∷ []) ((refl, refl, omega arith), tt)
      (omega arith) (omega (arith, payment-short))

ong_transfer_call-Agree_example :
    Agree
      (λ r bal'. (r.0 ≡ byte_true) × Represents entries_db ong r.1 bal')
      (ong_transfer_call entries_db execution funded (transfers_bytes (payment ∷ [])))
      (map_err token (all_moved (service_of execution) balances (payment ∷ [])))
ong_transfer_call-Agree_example =
    ong_transfer_call-Agree entries_db execution funded balances (payment ∷ []) funded-Represents
      ((refl, refl, omega arith), tt) (omega arith) (omega (arith, payment-short))

balance_of_call-Represents_run :
    (out : List ℕ) × (balance_of_call entries_db execution funded (encode_address alice) ≡ ok out)
    × (big_int_from_neo_bytes out ≡ pos (balances alice))
balance_of_call-Represents_run =
    balance_of_call-Represents entries_db execution funded balances alice funded-Represents refl
      (omega (arith, alice-balance)) (omega (arith, alice-short))

abbrev ont_execution : Execution
ont_execution = record execution { current_context = ont_contract_address }

-- 100 seconds at 5 ONG a second for each of 1000 ONT.
unbound : calc_unbind_ong 1000 0 100 ≡ some 500000
unfolding calc_unbind_ong unbind_amount unbind_loop add_generated
unbound = refl

no_allowance : Approves entries_db ong_contract_address [] (λ f t. 0)
unfolding get_storage_uint64 get_storage_item item_of word_of
no_allowance = record { reads = λ f t lf lt. refl; bounded = λ f t. omega arith }

no_offset : get_unbound_offset entries_db [] ont_contract_address alice ≡ ok 0
unfolding get_unbound_offset get_storage_uint32 get_storage_item item_of word_of
no_offset = refl

grant_ong-Approves_example :
    (s' : Entries) × (grant_ong entries_db ont_execution [] alice 1000 ≡ ok s')
    × Approves entries_db ong_contract_address s'
        (set_allowance (λ f t. 0) ont_contract_address alice 500000)
    × (get_unbound_offset entries_db s' ont_contract_address alice ≡ ok 100)
grant_ong-Approves_example =
    grant_ong-Approves entries_db ont_execution [] (λ f t. 0) alice 1000 0 500000 no_allowance refl
      refl (omega arith) (omega arith) (omega arith) no_offset (omega arith) unbound (omega arith)

abbrev granted : Entries
granted =
    put_offset entries_db
      (put_uint64 entries_db [] (gen_approve_key ong_contract_address ont_contract_address alice)
        500000)
      ont_contract_address alice 100

grant_ong-again_example : grant_ong entries_db ont_execution granted alice 7 ≡ ok granted
grant_ong-again_example =
    grant_ong-again entries_db ont_execution [] granted alice 1000 7 (omega arith) (
      grant_ong-due entries_db ont_execution [] (λ f t. 0) alice 1000 0 500000 no_allowance refl
        refl (omega arith) (omega arith) no_offset (omega arith) unbound (omega arith))

abbrev genesis : List ℕ
genesis = var_bytes (encode_var_uint 1 ++ (encode_address alice ++ encode_var_uint 1000000000))

abbrev initial : Entries
initial =
    put_uint64 entries_db (put_shares entries_db [] ont_contract_address ((alice, 1000000000) ∷ []))
      (gen_total_supply_key ont_contract_address) 1000000000
