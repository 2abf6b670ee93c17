-- ===== src/Tests/ProgramRuns.antt =====
-- Programs of keys of one byte, and of signatures.
use layer.Base.{ℕ, ◌≡◌, refl, List, [], ◌∷◌, length-reverse, Option, none, some, ok, ◌>>=◌, arith}
use mathlib.Core.List.{reverse}
use layer.Base.Int.{pos}
use layer.Ledger.Header.{PublicKeys}
use layer.Ledger.Program.{
  push_prefix, get_param_info, program_from_params, get_program_info, program_from_multi_pub_key,
}
use layer.Ledger.Program.Params.{pushes, get_param_info-program_from_params}
use layer.Ledger.Program.Info.{get_program_info-program_from_multi_pub_key}

abbrev key_of_byte : List ℕ → Option ℕ
key_of_byte [] = none
key_of_byte (b ∷ []) = some b
key_of_byte (b ∷ c ∷ bs) = none

abbrev byte_keys : PublicKeys ℕ
byte_keys = record {
  serialize = λ k. k ∷ [];
  deserialize = key_of_byte;
  deserialize-serialize = λ k. refl;
}

get_param_info-program_from_params_example :
    (program_from_params ((7 ∷ 8 ∷ []) ∷ (9 ∷ []) ∷ []) >>= get_param_info)
    ≡ ok ((7 ∷ 8 ∷ []) ∷ (9 ∷ []) ∷ [])
unfolding pushes push_prefix
get_param_info-program_from_params_example =
    get_param_info-program_from_params ((7 ∷ 8 ∷ []) ∷ (9 ∷ []) ∷ []) (omega arith) (omega arith)

get_program_info-program_from_multi_pub_key_example :
    (program_from_multi_pub_key byte_keys reverse (31 ∷ 32 ∷ 33 ∷ []) (pos 2)
      >>= get_program_info byte_keys (λ z. z))
    ≡ ok (record { pub_keys = reverse (31 ∷ 32 ∷ 33 ∷ []); m = 2 })
get_program_info-program_from_multi_pub_key_example =
    get_program_info-program_from_multi_pub_key byte_keys (λ k. (omega arith, omega arith)) (λ z. z)
      (λ n h. refl) reverse (λ ks. length-reverse ks) (31 ∷ 32 ∷ 33 ∷ []) 2 (omega arith)
      (omega arith) (omega arith) (omega arith)
