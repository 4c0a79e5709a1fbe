-- ===== src/Server/Use.antt =====
-- internal/server/server.go: the handlers of the USE plane, and `runTool`.
pub mod Runs
pub mod Catalog
use mykeep_foundry.Prelude.{
  Bool, Bytes, List, Option, Result, String, [], err, if◌then◌else◌, is_ok, none, ok, some, ℕ, ◌&&◌,
  ◌+◌, ◌==◌, ◌∷◌,
}
use mykeep_foundry.Store.State.{Env, Store}
use mykeep_foundry.Server.{
  Request, UseEntry, Body, guide_body, use_tools, run_failed, run_done, Response, Handled, Server,
  base_url_of, replied, write_err, read_body,
}
use mykeep_foundry.Runtime.{RunErr, run}
use mykeep_foundry.Registry.Tools.{class_marketplace, Tool, get, list, grant}
use mykeep_foundry.Registry.Manifest.{RegErr}
use mykeep_foundry.Registry.Client.{Client}
use mykeep_foundry.Engine.{LogLine}

abbrev run_body : Result RunErr Bytes → List LogLine → Body
run_body (ok v) logs = run_done v logs
run_body (err e) logs = run_failed e

-- The response of `runTool`, once the run is over.
run_response : Option (Result RunErr Bytes) → List LogLine → Option Response
run_response none logs = none
run_response (some r) logs = some (record { status = 200; body = run_body r logs })

-- `moments n` is what the machine decides for the n-th access of a request to the store.
module _ {M : Type 0} (srv : Server M) (moments : ℕ → Env) where
  -- `runTool`, from the access `k` on.
  unfoldable pub run_tool : ℕ → Request → String → Store → Option Client → Handled
  unfolding run_response
  run_tool k r name s market =
      let done =
        run srv.vm srv.rt (moments k) (moments (k + 1)) srv.rounds name (read_body srv.wire r.body)
          s in
      record {
        response = run_response done.result done.logs;
        store = done.site.0;
        market = market;
        effects = done.site.1;
      }

  entry_of : Tool → UseEntry
  entry_of t = record {
    name = t.manifest.name;
    version = t.manifest.version;
    description = t.manifest.description;
    verified = t.verified;
    params_schema = t.manifest.params_schema;
  }

  -- A tool that `useCatalog` lists: of the marketplace, and granted.
  unfoldable pub listed_for_use : ℕ → Store → Tool → Bool
  listed_for_use k s t =
      t.class == class_marketplace && is_ok (grant srv.rt.registry (moments k) t.manifest.name s)

  -- The loop of `useCatalog`; the tools are at the accesses from `k` on.
  unfoldable pub use_entries : ℕ → List Tool → Store → List UseEntry
  unfolding listed_for_use entry_of
  use_entries k [] s = []
  use_entries k (t ∷ ts) s =
      let rest = use_entries (k + 1) ts s in
      if listed_for_use k s t then entry_of t ∷ rest else rest

  catalog_of : Result RegErr (List Tool) → Store → Option Client → Handled
  unfolding use_entries
  catalog_of (err e) s market = write_err 500 "list_failed" s market
  catalog_of (ok tools) s market = replied 200 (use_tools (use_entries 1 tools s)) s market

  -- `useCatalog`
  unfoldable pub use_catalog : Store → Option Client → Handled
  unfolding catalog_of
  use_catalog s market = catalog_of (list srv.rt.registry (moments 0) s) s market

  run_marketplace : Result RegErr Tool → Request → String → Store → Option Client → Handled
  unfolding run_tool
  run_marketplace (err e) r name s market = write_err 404 "not_found" s market
  run_marketplace (ok t) r name s market =
      if t.class == class_marketplace
      then run_tool 1 r name s market
      else write_err 404 "not_found" s market

  -- `useRun`
  unfoldable pub use_run : Request → String → Store → Option Client → Handled
  unfolding run_marketplace
  use_run r name s market = run_marketplace (get srv.rt.registry (moments 0) name s) r name s market

  -- `guide`
  unfoldable pub guide : Request → Store → Option Client → Handled
  guide r s market = replied 200 (guide_body (base_url_of r)) s market
