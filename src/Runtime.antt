-- ===== src/Runtime.antt =====
-- internal/runtime/runtime.go: `Runtime.Run`.
pub mod Confined
pub mod Registered
use mykeep_foundry.Prelude.{
  Bytes, List, Option, Result, String, [], err, if◌then◌else◌, map, none, ok, some, ℕ, ◌++◌, ◌>>=◌,
  ◌>>◌,
}
use mykeep_foundry.Store.State.{StoreErr, Env, Store}
use mykeep_foundry.Store.Quota.{set_quota}
use mykeep_foundry.Registry.Tools.{Tool, Registry, get, grant}
use mykeep_foundry.Registry.Manifest.{Grant, RegErr}
use mykeep_foundry.Prelude.Int.{pos, ltb_ℤ}
use mykeep_foundry.Host.Text.{codes}
use mykeep_foundry.Host.Dispatcher.{VaultReq, VaultResp, CallErr, Codec, Config, Effect, call}
use mykeep_foundry.Host.Broker.{Net, Broker}
use mykeep_foundry.Engine.{LogLine, EngineErr, Sandbox, invoke}

pub data RunErr : Type 0 where
  of_registry : RegErr → RunErr
  of_store : StoreErr → RunErr
  of_engine : EngineErr → RunErr

-- What a run works on and leaves: the store, and the effects outside it.
abbrev pub Site : Type 0
Site = Store × List Effect

-- `Runtime`, less the store: the registry, the broker and the vault, with the packages that they use.
pub record Runtime : Type 0 where
  pub registry : Registry
  pub codec : Codec
  pub net : Net
  pub broker : Option Broker
  pub vault : Option (VaultReq → Option VaultResp)

-- The end of a run, its logs and its site; none where the tool still runs.
pub record Run : Type 0 where
  pub result : Option (Result RunErr Bytes)
  pub logs : List LogLine
  pub site : Site

-- `d.HostFunc()`
unfoldable pub host_func :
    Codec → Net → Config → Env → String → Bytes → Site → Result CallErr Bytes × Site
host_func json net cfg env op args (s, es) =
    let o = call json net cfg env op args s in (o.result, (o.store, es ++ o.effects))

-- The dispatcher's configuration that `Run` makes of a grant.
unfoldable pub config_of : Runtime → Grant → Config
config_of rt g = record {
  namespace = g.namespace;
  allow_hosts = map codes g.hosts;
  vault_creds = g.vault_creds;
  broker = rt.broker;
  vault = rt.vault;
}

module _ {M : Type 0} (vm : Sandbox M) (rt : Runtime) (env later : Env) where
  refused : RunErr → Store → Run
  refused e s = record { result = some (err e); logs = []; site = (s, []) }

  ran : Option (Result EngineErr Bytes) × Site × List LogLine → Run
  ran (none, site, logs) = record { result = none; logs = logs; site = site }
  ran (some (ok v), site, logs) = record { result = some (ok v); logs = logs; site = site }
  ran (some (err e), site, logs) = record {
    result = some (err (of_engine e));
    logs = logs;
    site = site;
  }

  -- SetQuota, only for a quota that is positive.
  with_quota : Grant → Store → Result StoreErr (Unit {0}) × Store
  with_quota g s =
      if ltb_ℤ (pos 0) g.quota_bytes
      then set_quota later g.namespace g.quota_bytes s
      else (ok tt, s)

  pub execute : ℕ → Tool → Grant → Bytes → Result StoreErr (Unit {0}) × Store → Run
  unfolding refused ran
  execute n t g input (err e, s) = refused (of_store e) s
  execute n t g input (ok _, s) = ran (
      invoke vm (host_func rt.codec rt.net (config_of rt g)) n t.source input
        (record { wall = g.wall; mem_pages = g.mem_pages }) (s, []))

  allowed : String → Store → Result RegErr (Tool × Grant)
  allowed name s = do t ← get rt.registry env name s; g ← grant rt.registry later name s; ok (t, g)

  run_as : ℕ → Bytes → Result RegErr (Tool × Grant) → Store → Run
  unfolding refused with_quota execute
  run_as n input (err e) s = refused (of_registry e) s
  run_as n input (ok (t, g)) s = execute n t g input (with_quota g s)

  -- `Run`, for at most `n` rounds of the engine's loop. The statements of `Get` go by `env`, those of
  -- `Grant` and `SetQuota` by `later`.
  unfoldable pub run : ℕ → String → Bytes → Store → Run
  unfolding allowed run_as
  run n name input s = run_as n input (allowed name s) s
