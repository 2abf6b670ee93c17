-- ===== src/Ledger/Payload.antt =====
-- node/core/payload/{invoke_code,deploy_code}.go: what a transaction carries.
pub mod RoundTrip
use layer.Base.{
  ℕ, ◌*◌, Bool, not, ◌||◌, List, [], ◌∷◌, ◌++◌, length, ltb, ◌==◌, Outcome, ok, err, ◌>>=◌, ◌>>◌,
  fail_if,
}
use layer.Common.Bytes.{var_bytes}
use layer.Common.Source.{ZeroCopySource, next_var_bytes, next_string}
use layer.Ledger.Fields.{
  Error, invalid_vm_flags, code_too_long, name_too_long, version_too_long, author_too_long,
  email_too_long, description_too_long, byte_field, regular_field, whole_field, last_field,
}

pub record InvokeCode : Type 0 where
  pub code : List ℕ

unfoldable pub invoke_bytes : InvokeCode → List ℕ
invoke_bytes self = var_bytes self.code

unfoldable pub deserialize_invoke : ZeroCopySource → Outcome Error (InvokeCode × ZeroCopySource)
deserialize_invoke source = do
  r ← whole_field (next_var_bytes source)
  ok (record { code = r.0 }, r.1)

pub record DeployCode : Type 0 where
  pub code : List ℕ
  pub vm_flags : ℕ
  pub name : List ℕ
  pub version : List ℕ
  pub author : List ℕ
  pub email : List ℕ
  pub description : List ℕ

unfoldable pub deploy_bytes : DeployCode → List ℕ
deploy_bytes dc =
    var_bytes dc.code
    ++ ((dc.vm_flags ∷ [])
        ++ (var_bytes dc.name
            ++ (var_bytes dc.version
                ++ (var_bytes dc.author ++ (var_bytes dc.email ++ var_bytes dc.description)))))

unfoldable pub check_vm_flags : ℕ → Bool
check_vm_flags flags = (flags == 0) || ((flags == 1) || (flags == 3))

unfoldable pub validate_deploy_code : DeployCode → Outcome Error (Unit {0})
validate_deploy_code dep =
    fail_if (not (check_vm_flags dep.vm_flags)) invalid_vm_flags
    >> (fail_if (ltb (1024 * 1024) (length dep.code)) code_too_long
        >> (fail_if (ltb 252 (length dep.name)) name_too_long
            >> (fail_if (ltb 252 (length dep.version)) version_too_long
                >> (fail_if (ltb 252 (length dep.author)) author_too_long
                    >> (fail_if (ltb 252 (length dep.email)) email_too_long
                        >> fail_if (ltb 65536 (length dep.description)) description_too_long)))))

-- The fields as they are read; the tests of their lengths come after the last.
unfoldable pub read_deploy : ZeroCopySource → Outcome Error (DeployCode × ZeroCopySource)
read_deploy source = do
  code ← regular_field (next_var_bytes source)
  flags ← byte_field code.1
  name ← regular_field (next_string flags.1)
  version ← regular_field (next_string name.1)
  author ← regular_field (next_string version.1)
  email ← regular_field (next_string author.1)
  description ← last_field (next_string email.1)
  ok (
    record {
      code = code.0;
      vm_flags = flags.0;
      name = name.0;
      version = version.0;
      author = author.0;
      email = email.0;
      description = description.0;
    },
    description.1,
  )

unfoldable pub deserialize_deploy : ZeroCopySource → Outcome Error (DeployCode × ZeroCopySource)
deserialize_deploy source = do dc ← read_deploy source; done ← validate_deploy_code dc.0; ok dc

-- `NewDeployCode`, and the end of `CreateDeployCode`.
unfoldable pub new_deploy_code : DeployCode → Outcome Error DeployCode
new_deploy_code dc = validate_deploy_code dc >> ok dc
