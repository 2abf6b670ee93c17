-- ===== src/Native/Ont/Init.antt =====
-- What `OntInit` hands out.
use layer.Base.{ℕ, Option, none, some, List, Outcome, ok}
use layer.Native.Store.{Db, Error}
use layer.Native.Unbind.{ont_total_supply}
use layer.Native.Token.{put_uint64}
use layer.Native.Execution.{Execution}
use layer.Native.Ong.{gen_total_supply_key}
use layer.Native.Ont.{put_shares}
use layer.Native.Ont.Shares.{Shares}

-- A share takes the place of what was stored.
unfoldable pub balance_after : Option ℕ → Outcome Error ℕ → Outcome Error ℕ
balance_after none before = before
balance_after (some share) before = ok share

module _ {S : Type 0} (db : Db S) where
  distributed : S → List ℕ → Shares → S
  distributed s c shares =
      put_uint64 db (put_shares db s c shares) (gen_total_supply_key c) ont_total_supply
