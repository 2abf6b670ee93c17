-- ===== src/Ledger/Payload/RoundTrip.antt =====
-- Payloads are read back.
use layer.Base.{◌≡◌, refl, ok}
use layer.Common.Source.{ZeroCopySource, next_var_bytes, next_string}
use layer.Common.Source.Codec.{Reads, Reads-then, Reads-end}
use layer.Ledger.Fields.{byte_field, regular_field, whole_field, last_field}
use layer.Ledger.Fields.Reads.{
  byte_field-Reads, regular_bytes-Reads, whole_bytes-Reads, last_bytes-Reads,
}
use layer.Ledger.Payload.{
  InvokeCode, invoke_bytes, deserialize_invoke, DeployCode, deploy_bytes, validate_deploy_code,
  read_deploy, deserialize_deploy,
}

pub deserialize_invoke-Reads :
    (self : InvokeCode) → Reads deserialize_invoke (invoke_bytes self) self
unfolding deserialize_invoke invoke_bytes
deserialize_invoke-Reads self =
    Reads-end (λ source. whole_field (next_var_bytes source)) _ (whole_bytes-Reads self.code)
      (λ s. refl)

read_deploy-Reads : (dc : DeployCode) → Reads read_deploy (deploy_bytes dc) dc
unfolding read_deploy deploy_bytes next_string
read_deploy-Reads dc =
    let text = λ (source : ZeroCopySource). regular_field (next_var_bytes source) in
    Reads-then text _ (regular_bytes-Reads dc.code) (
      Reads-then byte_field _ (byte_field-Reads dc.vm_flags) (
        Reads-then text _ (regular_bytes-Reads dc.name) (
          Reads-then text _ (regular_bytes-Reads dc.version) (
            Reads-then text _ (regular_bytes-Reads dc.author) (
              Reads-then text _ (regular_bytes-Reads dc.email) (
                Reads-end (λ source. last_field (next_var_bytes source)) _
                  (last_bytes-Reads dc.description) (λ s. refl)))))))

-- A contract that passes the tests is read back.
pub deserialize_deploy-Reads :
    (dc : DeployCode)
    → validate_deploy_code dc ≡ ok tt
    → Reads deserialize_deploy (deploy_bytes dc) dc
unfolding deserialize_deploy
deserialize_deploy-Reads dc valid = Reads-end read_deploy _ (read_deploy-Reads dc) (λ s. rw valid)
