-- ===== src/Server/Control.antt =====
-- internal/server/server.go: the handlers of the CONTROL plane.
use mykeep_foundry.Prelude.{
  Bool, Bytes, List, Option, Result, String, [], err, false, if◌then◌else◌, is_ok, none, ok, some,
  ℕ, ◌+◌, ◌==◌, ◌∷◌,
}
use mykeep_foundry.Store.State.{Env, Store}
use mykeep_foundry.Server.Use.{run_tool}
use mykeep_foundry.Server.{
  Request, ControlEntry, registry_error, market_error, control_tools, granted_body, removed_body,
  dev_installed, catalog_body, installed_body, Handled, Server, replied, write_err,
}
use mykeep_foundry.Registry.Tools.{Tool, install_dev, get, list, remove, set_grant, grant}
use mykeep_foundry.Registry.Manifest.{Manifest, RegErr, parse_manifest, hash, default_grant}
use mykeep_foundry.Registry.Index.{MarketErr}
use mykeep_foundry.Registry.Client.{Client, ensure_index, install}

module _ {M : Type 0} (srv : Server M) (moments : ℕ → Env) where
  control_entry : Bool → Tool → ControlEntry
  control_entry granted t = record {
    name = t.manifest.name;
    version = t.manifest.version;
    class = t.class;
    description = t.manifest.description;
    granted = granted;
    verified = t.verified;
  }

  -- The loop of `ctrlList`; the tools are at the accesses from `k` on.
  unfoldable pub control_entries : ℕ → List Tool → Store → List ControlEntry
  unfolding control_entry
  control_entries k [] s = []
  control_entries k (t ∷ ts) s =
      control_entry (is_ok (grant srv.rt.registry (moments k) t.manifest.name s)) t
      ∷ control_entries (k + 1) ts s

  -- `ctrlList`
  unfoldable pub ctrl_list : Store → Option Client → Handled
  unfolding control_entries
  ctrl_list s market = elim (list srv.rt.registry (moments 0) s) [
    | err e ↦ write_err 500 "list_failed" s market
    | ok tools ↦ replied 200 (control_tools (control_entries 1 tools s)) s market
  ]

  after_grant : Result RegErr (Unit {0}) × Store → Option Client → Handled
  after_grant (ok _, s) market = replied 200 granted_body s market
  after_grant (err e, s) market = replied 400 (registry_error e) s market

  -- `ctrlGrant`
  unfoldable pub ctrl_grant : Request → String → Store → Option Client → Handled
  unfolding after_grant
  ctrl_grant r name s market = elim (srv.wire.decode_grant r.body) [
    | none ↦ write_err 400 "bad_request" s market
    | some g ↦ after_grant (set_grant srv.rt.registry (moments 0) name g s) market
  ]

  after_remove : Result RegErr (Unit {0}) × Store → Option Client → Handled
  after_remove (ok _, s) market = replied 200 removed_body s market
  after_remove (err e, s) market = write_err 500 "remove_failed" s market

  -- `ctrlRemove`
  unfoldable pub ctrl_remove : String → Store → Option Client → Handled
  unfolding after_remove
  ctrl_remove name s market = after_remove (remove srv.rt.registry (moments 0) name s) market

  after_dev_install : Manifest → Result RegErr (Unit {0}) × Store → Option Client → Handled
  after_dev_install m (err e, s) market = write_err 500 "install_failed" s market
  after_dev_install m (ok _, s) market =
      replied 200
        (dev_installed m.name (hash srv.rt.registry.coding m)
          (default_grant srv.rt.registry.coding m))
        s market

  dev_install : Result RegErr Manifest → Bytes → Store → Option Client → Handled
  unfolding after_dev_install
  dev_install (err e) source s market = replied 400 (registry_error e) s market
  dev_install (ok m) source s market =
      after_dev_install m (install_dev srv.rt.registry (moments 0) m source s) market

  -- `ctrlDevInstall`
  unfoldable pub ctrl_dev_install : Request → Store → Option Client → Handled
  unfolding dev_install
  ctrl_dev_install r s market = elim (srv.wire.decode_dev_install r.body) [
    | none ↦ write_err 400 "bad_request" s market
    | some (manifest, source) ↦
        dev_install (parse_manifest srv.rt.registry.coding manifest) source s market
  ]

  -- `ctrlDevRun`
  unfoldable pub ctrl_dev_run : Request → String → Store → Option Client → Handled
  ctrl_dev_run r name s market = run_tool srv moments 0 r name s market

  refreshed : Result MarketErr (Unit {0}) × Client → Store → Handled
  refreshed (err e, c) s = write_err 502 "catalog unavailable" s (some c)
  refreshed (ok _, c) s = replied 200 (catalog_body c.idx) s (some c)

  -- `ctrlMarketRefresh`
  unfoldable pub ctrl_market_refresh : Store → Option Client → Handled
  unfolding refreshed
  ctrl_market_refresh s none = write_err 501 "marketplace not configured" s none
  ctrl_market_refresh s (some c) = refreshed (ensure_index srv.web srv.rt.registry c) s

  abbrev vouched : Result RegErr Tool → Bool
  vouched (ok t) = t.verified
  vouched (err e) = false

  after_install : Result MarketErr Manifest × Client × Store → Handled
  after_install (err e, c, s) = replied 400 (market_error e) s (some c)
  after_install (ok m, c, s) =
      replied 200
        (installed_body m.name m.version (vouched (get srv.rt.registry (moments 1) m.name s))
          (hash srv.rt.registry.coding m) (default_grant srv.rt.registry.coding m))
        s (some c)

  -- `ctrlInstall`
  unfoldable pub ctrl_install : Request → Store → Option Client → Handled
  unfolding after_install
  ctrl_install r s none = write_err 501 "marketplace not configured" s none
  ctrl_install r s (some c) = elim (srv.wire.decode_install r.body) [
    | none ↦ write_err 400 "bad_request" s (some c)
    | some (id, version) ↦
        if id == ""
        then write_err 400 "bad_request" s (some c)
        else after_install (install srv.web srv.rt.registry (moments 0) c id version s)
  ]
