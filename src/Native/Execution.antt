-- ===== src/Native/Execution.antt =====
-- node/smartcontract/smart_contract.go: what a native contract asks of the engine that runs it. The
-- stack of contexts is the address of the current contract and those below it, the caller first.
-- `Invoke` of native/native_service.go pushes a context, runs the handler that is registered for the
-- contract and the method, and pops the context; a handler here takes the pushed execution.
use layer.Base.{ℕ, Bool, false, ◌||◌, List, [], ◌∷◌, bytes_equal}
use layer.Native.Args.{DecodeError}
use layer.Native.Store.{Error}
use layer.Native.Token.{Service, TransferError}

pub record Execution : Type 0 where
  pub signature_addresses : List (List ℕ)
  pub current_context : List ℕ
  pub callers : List (List ℕ)
  pub operator : Bool
  pub min_ong_limit : ℕ
  pub time : ℕ
  pub pre_exec : Bool

-- The errors of the handlers. `panicked` is a panic.
pub data CallError : Type 0 where
  argument : DecodeError → CallError
  token : TransferError → CallError
  stored : Error → CallError
  already_initialised wrong_config wrong_timestamp panicked : CallError

unfoldable pub push_context : Execution → List ℕ → Execution
push_context ex contract = record ex {
  current_context = contract;
  callers = ex.current_context ∷ ex.callers;
}

unfoldable pub any_equal : List (List ℕ) → List ℕ → Bool
any_equal [] address = false
any_equal (v ∷ vs) address = bytes_equal v address || any_equal vs address

unfoldable pub check_account_address : Execution → List ℕ → Bool
check_account_address ex address = any_equal ex.signature_addresses address

-- `CallingContext` is the second context from the top, or nil.
unfoldable pub is_calling : List (List ℕ) → List ℕ → Bool
is_calling [] address = false
is_calling (caller ∷ rest) address = bytes_equal caller address

unfoldable pub check_contract_address : Execution → List ℕ → Bool
check_contract_address ex address = is_calling ex.callers address

unfoldable pub check_witness : Execution → List ℕ → Bool
check_witness ex address = check_account_address ex address || check_contract_address ex address

-- What the token operations see of it.
unfoldable pub service_of : Execution → Service
service_of ex = record {
  contract = ex.current_context;
  operator = ex.operator;
  check_witness = check_witness ex;
  min_ong_limit = ex.min_ong_limit;
}
