-- ===== src/Server/Routes/Agent.antt =====
-- What the agent's requests can do.
use mykeep_foundry.Prelude.{List, Option, String, inl, inr, refl, subst, sym, ℕ, ◌≡◌, ◌⊎◌}
use mykeep_foundry.Host.Dispatcher.Scope.{IsShort}
use mykeep_foundry.Store.State.{Env, Store}
use mykeep_foundry.Server.Use.Runs.{
  Ran, Idle, replied-Idle, use_catalog-Idle, use_run-Ran, Unregistered, Idle-Unregistered,
  use_run-Unregistered,
}
use mykeep_foundry.Server.Use.{guide}
use mykeep_foundry.Server.Routes.Guards.{Refused, Agent, use_plane-guarded}
use mykeep_foundry.Server.{Request, Handled, Server}
use mykeep_foundry.Registry.Client.{Client}
use mykeep_foundry.Server.Routes.{
  found, wrong_method, not_found, Found, UseRoute, guide_route, catalog_route, run_route, use_route,
  use_handler, use_plane,
}

module _ {M : Type 0} (srv : Server M) (moments : ℕ → Env) (r : Request) (s : Store)
    (market : Option Client) where
  -- What a handler of the USE plane does with the store, the client and the world.
  Answers : Found UseRoute → Handled → Type 0
  Answers (found (run_route name)) h = Idle s market h ⊎ Ran srv moments name s h
  Answers f h = Idle s market h

  use_handler-Answers : (f : Found UseRoute) → Answers f (use_handler srv moments f r s market)
  unfolding use_handler Answers guide
  use_handler-Answers (found guide_route) = replied-Idle _ _ s market
  use_handler-Answers (found catalog_route) = use_catalog-Idle srv moments r s market
  use_handler-Answers (found (run_route name)) = use_run-Ran srv moments r s market name
  use_handler-Answers wrong_method = replied-Idle _ _ s market
  use_handler-Answers not_found = replied-Idle _ _ s market

  Answers-Ran :
      (f : Found UseRoute) (h : Handled)
      → Answers f h
      → Idle s market h
        ⊎ ((name : String) × (f ≡ found (run_route name)) × Ran srv moments name s h)
  unfolding Answers
  Answers-Ran (found guide_route) h a = inl a
  Answers-Ran (found catalog_route) h a = inl a
  Answers-Ran (found (run_route name)) h (inl a) = inl a
  Answers-Ran (found (run_route name)) h (inr a) = inr (name, refl, a)
  Answers-Ran wrong_method h a = inl a
  Answers-Ran not_found h a = inl a

  Refused-Idle : {h : Handled} → Refused s market h → Idle s market h
  Refused-Idle refusal =
      subst (Idle s market) (sym refusal.as_before)
        (replied-Idle refusal.status refusal.body s market)

  -- A request to the USE plane changes nothing and does nothing outside the store, or it bears the
  -- agent's token and its route is the run of a tool that is installed from the marketplace and has a
  -- current grant, which covers every request that the run hands to the transport and every use that it
  -- makes of the vault.
  pub use_plane-Ran :
      (rest : List String)
      → Idle s market (use_plane srv moments rest r s market)
        ⊎ ((name : String) × Agent srv r
            × (use_route r.method rest ≡ found (run_route name))
            × Ran srv moments name s (use_plane srv moments rest r s market))
  use_plane-Ran rest = elim (use_plane-guarded srv r moments rest s market) [
    | inl refusal ↦ inl (Refused-Idle refusal)
    | inr (agent, same) ↦
        elim (Answers-Ran (use_route r.method rest) _
          (use_handler-Answers (use_route r.method rest))) [
            | inl a ↦ inl (subst (Idle s market) (sym same) a)
            | inr (name, at_run, a) ↦
                inr (name, agent, at_run, subst (Ran srv moments name s) (sym same) a)
          ]
  ]

  use_handler-Unregistered :
      (f : Found UseRoute)
      → IsShort srv.rt.codec
      → Unregistered srv moments r s market (use_handler srv moments f r s market)
  unfolding use_handler
  use_handler-Unregistered (found (run_route name)) short =
      use_run-Unregistered srv moments r s market name short
  use_handler-Unregistered (found guide_route) short =
      Idle-Unregistered srv moments r s market (replied-Idle _ _ s market)
  use_handler-Unregistered (found catalog_route) short =
      Idle-Unregistered srv moments r s market (use_catalog-Idle srv moments r s market)
  use_handler-Unregistered wrong_method short =
      Idle-Unregistered srv moments r s market (replied-Idle _ _ s market)
  use_handler-Unregistered not_found short =
      Idle-Unregistered srv moments r s market (replied-Idle _ _ s market)

  -- Whatever is asked of the USE plane, the installed tools, the grants and the marketplace client stay
  -- as they were. (A decoded value is no longer than the arguments of its call.)
  pub use_plane-Unregistered :
      (rest : List String)
      → IsShort srv.rt.codec
      → Unregistered srv moments r s market (use_plane srv moments rest r s market)
  use_plane-Unregistered rest short = elim (use_plane-guarded srv r moments rest s market) [
    | inl refusal ↦ Idle-Unregistered srv moments r s market (Refused-Idle refusal)
    | inr (agent, same) ↦
        subst (Unregistered srv moments r s market) (sym same)
          (use_handler-Unregistered (use_route r.method rest) short)
  ]
