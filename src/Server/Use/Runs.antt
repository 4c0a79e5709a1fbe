-- ===== src/Server/Use/Runs.antt =====
-- What the handlers of the USE plane can do.
use mykeep_foundry.Server.Use.{catalog_of}
use mykeep_foundry.Prelude.{
  All, Bool-cases, Option, Result, Result-cases, String, [], ap, eq_iff, err, inl, inr, ok, refl,
  subst, sym, ℕ, ◌+◌, ◌==◌, ◌≡◌, ◌⊎◌,
}
use mykeep_foundry.Store.State.{Env, Store}
use mykeep_foundry.Server.{Request, Body, Handled, Server, replied, read_body}
use mykeep_foundry.Runtime.Registered.{SameTools, run-SameTools, SameTools-refl}
use mykeep_foundry.Runtime.Confined.{run-IsGranted, IsCovered}
use mykeep_foundry.Runtime.{Site}
use mykeep_foundry.Registry.Tools.{class_marketplace, Tool, get, list, grant}
use mykeep_foundry.Registry.Manifest.{Grant, RegErr}
use mykeep_foundry.Registry.Client.{Client}
use mykeep_foundry.Host.Dispatcher.Scope.{IsShort}
use mykeep_foundry.Server.Use.{run_marketplace, run_tool, use_catalog, use_run}

-- A run for the agent: of a tool of the marketplace, under a current grant, which covers every request
-- that was handed to the transport and every use of the vault.
pub record Ran {M : Type 0} (srv : Server M) (moments : ℕ → Env) (name : String) (s : Store)
    (h : Handled) : Type 0 where
  pub tool : Tool
  pub installed : get srv.rt.registry (moments 0) name s ≡ ok tool
  pub reviewed : tool.class ≡ class_marketplace
  pub given : Grant
  pub approved : grant srv.rt.registry (moments 2) name s ≡ ok given
  pub covered : All (IsCovered srv.rt given) h.effects

-- Nothing changed, and nothing done outside the store.
pub record Idle (before : Store) (client : Option Client) (h : Handled) : Type 0 where
  pub store : h.store ≡ before
  pub market : h.market ≡ client
  pub effects : h.effects ≡ []

pub replied-Idle :
    (status : ℕ) (body : Body) (s : Store) (market : Option Client)
    → Idle s market (replied status body s market)
replied-Idle status body s market = record { store = refl; market = refl; effects = refl }

module _ {M : Type 0} (srv : Server M) (moments : ℕ → Env) (r : Request) (s : Store)
    (market : Option Client) where
  pub use_catalog-Idle : Idle s market (use_catalog srv moments s market)
  unfolding use_catalog
  use_catalog-Idle = elim (Result-cases (list srv.rt.registry (moments 0) s)) [
    | inl (ts, e) ↦ rw e (unfold catalog_of in replied-Idle _ _ s market)
    | inr (x, e) ↦ rw e (unfold catalog_of in replied-Idle _ _ s market)
  ]

  run_tool-Ran :
      (name : String) (t : Tool)
      → get srv.rt.registry (moments 0) name s ≡ ok t
      → t.class ≡ class_marketplace
      → Idle s market (run_tool srv moments 1 r name s market)
        ⊎ Ran srv moments name s (run_tool srv moments 1 r name s market)
  unfolding run_tool
  run_tool-Ran name t found reviewed =
      elim (run-IsGranted srv.vm srv.rt (moments 1) (moments 2) srv.rounds name
        (read_body srv.wire r.body) s) [
          | inl e ↦ inl (record {
            store = ap (λ (x : Site). x.0) e;
            market = refl;
            effects = ap (λ (x : Site). x.1) e;
          })
          | inr (g, approved, covered) ↦ inr (record {
            tool = t;
            installed = found;
            reviewed = reviewed;
            given = g;
            approved = approved;
            covered = covered;
          })
        ]

  run_marketplace-Ran :
      (name : String) (t : Tool)
      → get srv.rt.registry (moments 0) name s ≡ ok t
      → Idle s market (run_marketplace srv moments (ok t) r name s market)
        ⊎ Ran srv moments name s (run_marketplace srv moments (ok t) r name s market)
  unfolding run_marketplace
  run_marketplace-Ran name t found = elim (Bool-cases (t.class == class_marketplace)) [
    | inl e ↦ rw e (run_tool-Ran name t found ((eq_iff t.class class_marketplace).0 e))
    | inr e ↦ rw e (inl (replied-Idle _ _ s market))
  ]

  pub use_run-Ran :
      (name : String)
      → Idle s market (use_run srv moments r name s market)
        ⊎ Ran srv moments name s (use_run srv moments r name s market)
  unfolding use_run
  use_run-Ran name = elim (Result-cases (get srv.rt.registry (moments 0) name s)) [
    | inr (x, e) ↦ rw e (unfold run_marketplace in inl (replied-Idle _ _ s market))
    | inl (t, e) ↦ rw e (run_marketplace-Ran name t e)
  ]

  -- The installed tools, the grants and the client as they were.
  pub record Unregistered (h : Handled) : Type 0 where
    pub tables : SameTools s.db h.store.db
    pub market_kept : h.market ≡ market

  pub Idle-Unregistered : {h : Handled} → Idle s market h → Unregistered h
  Idle-Unregistered {h} still = record {
    tables = subst (λ (x : Store). SameTools s.db x.db) (sym still.store) (SameTools-refl s.db);
    market_kept = still.market;
  }

  run_tool-Unregistered :
      (k : ℕ) (name : String)
      → IsShort srv.rt.codec
      → Unregistered (run_tool srv moments k r name s market)
  unfolding run_tool
  run_tool-Unregistered k name short = record {
    tables =
        run-SameTools srv.vm srv.rt (moments k) (moments (k + 1)) srv.rounds name
          (read_body srv.wire r.body) s short;
    market_kept = refl;
  }

  run_marketplace-Unregistered :
      (found : Result RegErr Tool) (name : String)
      → IsShort srv.rt.codec
      → Unregistered (run_marketplace srv moments found r name s market)
  unfolding run_marketplace
  run_marketplace-Unregistered (err e) name short = Idle-Unregistered (replied-Idle _ _ s market)
  run_marketplace-Unregistered (ok t) name short =
      elim (Bool-cases (t.class == class_marketplace)) [
        | inl e ↦ rw e (run_tool-Unregistered 1 name short)
        | inr e ↦ rw e (Idle-Unregistered (replied-Idle _ _ s market))
      ]

  pub use_run-Unregistered :
      (name : String) → IsShort srv.rt.codec → Unregistered (use_run srv moments r name s market)
  unfolding use_run
  use_run-Unregistered name short =
      run_marketplace-Unregistered (get srv.rt.registry (moments 0) name s) name short
