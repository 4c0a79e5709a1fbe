-- ===== src/Gui/Handler/Clock.antt =====
-- The idle clock.
use mykeep_foundry.Gui.{is_unlocked, AppConfig, App, AppFiles, Visit, Moment}
use mykeep_foundry.Gui.Handler.{
  planes_answer, proxied, routed, pair_route, GuiRoute, plane_route, redirect_route, no_route,
  gui_route, agent_path, lock_now, proxy, touch, maybe_idle_lock, gui_serve, serve_all,
}
use mykeep_foundry.Prelude.{
  All, Bool, Bool-cases, List, Option, String, [], eq_iff, false, if◌then◌else◌, inl, inr, none,
  refl, some, true, ℕ, ◌&&◌, ◌-◌, ◌==◌, ◌||◌, ◌∙◌, ◌∷◌, ◌≡◌,
}
use mykeep_foundry.Store.Open.{Flushing}
use mykeep_foundry.Server.{Handled, from_loopback}
use mykeep_foundry.Secret.{Kdf}
use mykeep_foundry.Prelude.Int.{pos, ltb_ℤ}
use mykeep_foundry.KeyFile.{EnvelopeJson}
use mykeep_foundry.Component.{Machine, Component}

-- The clock and the lock as they were.
record SameClock {M : Type 0} (a b : App M) : Type 0 where
  seen : b.last_seen ≡ a.last_seen
  lock_kept : is_unlocked b.comp ≡ is_unlocked a.comp

SameClock-refl : {M : Type 0} (a : App M) → SameClock a a
SameClock-refl a = record { seen = refl; lock_kept = refl }

-- The routes that an agent's path can have.
data AgentRoute : GuiRoute → Type 0 where
  at_plane : AgentRoute plane_route
  at_redirect : AgentRoute redirect_route
  at_none : AgentRoute no_route

AgentRoute-if :
    (b : Bool) (g h : GuiRoute) → AgentRoute g → AgentRoute h → AgentRoute (if b then g else h)
AgentRoute-if true g h p q = p
AgentRoute-if false g h p q = q

gui_route-agent :
    (m : String) (path : List String) → agent_path path ≡ true → AgentRoute (gui_route m path)
unfolding agent_path gui_route pair_route
gui_route-agent m [] h = cc
gui_route-agent m (a ∷ []) h = cc
gui_route-agent m (a ∷ b ∷ []) h =
    rw ((eq_iff a "v1").0 h) (AgentRoute-if (b == "foundry") _ _ at_redirect at_none)
gui_route-agent m (a ∷ b ∷ c ∷ rest) h =
    AgentRoute-if ((a == "v1" || a == "api") && b == "foundry") _ _ at_plane at_none

module _ {M : Type 0} (m : Machine M) (kdf : Kdf) (json : EnvelopeJson) (cfg : AppConfig) where
  module _ (t : Moment) where
    planes_answer-SameClock :
        (a : App M) (fs : AppFiles) (c : Component M) (o : Option (Handled × Component M))
        → a.comp ≡ some c
        → SameClock a (planes_answer a fs c o).1.0
    unfolding planes_answer is_unlocked
    planes_answer-SameClock a fs c none here = SameClock-refl a
    planes_answer-SameClock a fs c (some (h, c')) here = record {
      seen = refl;
      lock_kept = rw here refl;
    }

    proxied-SameClock :
        (v : Visit) (a : App M) (fs : AppFiles) (comp : Option (Component M))
        → a.comp ≡ comp
        → SameClock a (proxied t v comp a fs).1.0
    unfolding proxied
    proxied-SameClock v a fs none here = SameClock-refl a
    proxied-SameClock v a fs (some c) here = planes_answer-SameClock a fs c _ here

    routed-SameClock :
        (g : GuiRoute) (v : Visit) (a : App M) (fs : AppFiles)
        → AgentRoute g
        → SameClock a (routed m kdf json cfg t g v a fs).1.0
    unfolding routed proxy
    routed-SameClock g v a fs at_plane = proxied-SameClock v a fs a.comp refl
    routed-SameClock g v a fs at_redirect = SameClock-refl a
    routed-SameClock g v a fs at_none = SameClock-refl a

    gui_serve-SameClock :
        (v : Visit) (a : App M) (fs : AppFiles)
        → agent_path v.request.path ≡ true
        → SameClock a (gui_serve m kdf json cfg t v a fs).1.0
    unfolding gui_serve touch
    gui_serve-SameClock v a fs agent = elim (Bool-cases (from_loopback m.wire v.request)) [
      | inl e ↦
          rw (e, agent)
            (routed-SameClock _ v a fs (gui_route-agent v.request.method v.request.path agent))
      | inr e ↦ rw e (SameClock-refl a)
    ]

  serve_all-SameClock :
      (vs : List (Moment × Visit)) (a : App M) (fs : AppFiles)
      → All (λ tv. agent_path tv.1.request.path ≡ true) vs
      → SameClock a (serve_all m kdf json cfg vs a fs).0
  unfolding serve_all
  serve_all-SameClock [] a fs h = SameClock-refl a
  serve_all-SameClock ((t, v) ∷ vs) a fs (here, later) =
      let one = gui_serve-SameClock t v a fs here in
      let rest = serve_all-SameClock vs _ _ later in
      record { seen = rest.seen ∙ one.seen; lock_kept = rest.lock_kept ∙ one.lock_kept }

  -- An unlocked program that no human has used for longer than the idle time is locked by the next tick,
  -- with no session left, however many requests of agents it has served meanwhile.
  pub maybe_idle_lock-serve_all :
      (vs : List (Moment × Visit)) (now : ℕ) (f : Flushing) (a : App M) (fs : AppFiles)
      → All (λ tv. agent_path tv.1.request.path ≡ true) vs
      → is_unlocked a.comp ≡ true
      → ltb_ℤ (pos 0) cfg.idle ≡ true
      → ltb_ℤ cfg.idle (pos (now - a.last_seen)) ≡ true
      → let (b, gs) = serve_all m kdf json cfg vs a fs in
        let (c, _) = maybe_idle_lock m cfg now f b gs in (c.comp ≡ none) × (c.session ≡ [])
  unfolding maybe_idle_lock lock_now
  maybe_idle_lock-serve_all vs now f a fs agents open_now on over =
      let (b, gs) = serve_all m kdf json cfg vs a fs in
      let same = serve_all-SameClock vs a fs agents in
      let over_then : ltb_ℤ cfg.idle (pos (now - b.last_seen)) ≡ true = rw same.seen over in
      let open_then : is_unlocked b.comp ≡ true = same.lock_kept ∙ open_now in
      rw (on, open_then, over_then) (refl, refl)
