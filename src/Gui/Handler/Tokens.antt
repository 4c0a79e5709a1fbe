-- ===== src/Gui/Handler/Tokens.antt =====
-- internal/gui/gui.go: to whom the routes of the program tell the agent's token and the session.
use mykeep_foundry.Server.{Handled, from_loopback}
use mykeep_foundry.Prelude.{
  Bool-cases, List, Option, String, arith, inl, inr, none, not, refl, some, ℕ, ◌&&◌,
}
use mykeep_foundry.Secret.{Kdf}
use mykeep_foundry.KeyFile.{EnvelopeJson}
use mykeep_foundry.Gui.Unlock.Tokens.{
  told, given, Tells, silent, to_session, to_human, setup_app-Tells, unlock_app-Tells,
}
use mykeep_foundry.Gui.{
  AppConfig, App, AppFiles, Visit, Moment, Answer, has_session, is_unlocked, gui_state,
}
use mykeep_foundry.Component.{Machine, Component}
use mykeep_foundry.Gui.Handler.{
  planes_answer, proxied, routed, GuiRoute, index_route, state_route, setup_route, unlock_route,
  lock_route, plane_route, redirect_route, other_method, no_route, gui_route, agent_path, lock_app,
  proxy, touch, gui_serve,
}

module _ {M : Type 0} (m : Machine M) (kdf : Kdf) (json : EnvelopeJson) (cfg : AppConfig)
    (t : Moment) (v : Visit) where
  abbrev TellsIn : App M → Answer × (App M × AppFiles) → Type 0
  TellsIn a out = Tells cfg v a out.1.0 out.0

  gui_state-Tells : (a : App M) (fs : AppFiles) → Tells cfg v a a (gui_state v a fs)
  unfolding gui_state told given
  gui_state-Tells a fs = elim (Bool-cases (is_unlocked a.comp && has_session a v)) [
    | inl e ↦ to_session (ground (arith, e)) (ground (arith, e)) (rw e refl) refl
    | inr e ↦ silent (rw e refl) refl
  ]

  lock_app-Tells : (a : App M) (fs : AppFiles) → TellsIn a (lock_app m t v a fs)
  unfolding lock_app told given
  lock_app-Tells a fs = elim (Bool-cases (has_session a v)) [
    | inl e ↦ rw e (silent refl refl)
    | inr e ↦ rw e (silent refl refl)
  ]

  planes_answer-Tells :
      (a : App M) (fs : AppFiles) (c : Component M) (o : Option (Handled × Component M))
      → TellsIn a (planes_answer a fs c o)
  unfolding planes_answer told given
  planes_answer-Tells a fs c none = silent refl refl
  planes_answer-Tells a fs c (some (h, c')) = silent refl refl

  proxied-Tells :
      (comp : Option (Component M)) (a : App M) (fs : AppFiles) → TellsIn a (proxied t v comp a fs)
  unfolding proxied told given
  proxied-Tells none a fs = silent refl refl
  proxied-Tells (some c) a fs = planes_answer-Tells a fs c _

  routed-Tells :
      (g : GuiRoute) (a : App M) (fs : AppFiles) → TellsIn a (routed m kdf json cfg t g v a fs)
  unfolding routed proxy told given
  routed-Tells index_route a fs = silent refl refl
  routed-Tells state_route a fs = gui_state-Tells a fs
  routed-Tells setup_route a fs = setup_app-Tells m kdf json cfg t v a fs
  routed-Tells unlock_route a fs = unlock_app-Tells m kdf json cfg t v a fs
  routed-Tells lock_route a fs = lock_app-Tells a fs
  routed-Tells plane_route a fs = proxied-Tells a.comp a fs
  routed-Tells redirect_route a fs = silent refl refl
  routed-Tells other_method a fs = silent refl refl
  routed-Tells no_route a fs = silent refl refl

  touched :
      (seen : ℕ) (a b : App M) (r : Answer)
      → Tells cfg v (record a { last_seen = seen }) b r
      → Tells cfg v a b r
  touched seen a b r (silent x y) = silent x y
  touched seen a b r (to_session o x y z) = to_session o (unfold has_session in x) y z
  touched seen a b r (to_human x y z w) = to_human x y z w

  touch-Tells :
      (now : ℕ) (path : List String) (a b : App M) (r : Answer)
      → Tells cfg v (touch now path a) b r
      → Tells cfg v a b r
  unfolding touch
  touch-Tells now path a b r h = elim (Bool-cases (not (agent_path path) && is_unlocked a.comp)) [
    | inl e ↦ touched now a b r (rw e at h)
    | inr e ↦ rw e at h
  ]

  -- The answers of the planes aside, the program tells the agent's token only to the session while it is
  -- unlocked, and the token with a new session only to the request with the launch token that unlocked
  -- it.
  pub gui_serve-Tells :
      (a : App M) (fs : AppFiles)
      → let out = gui_serve m kdf json cfg t v a fs in Tells cfg v a out.1.0 out.0
  unfolding gui_serve told given
  gui_serve-Tells a fs = elim (Bool-cases (from_loopback m.wire v.request)) [
    | inr e ↦ rw e (silent refl refl)
    | inl e ↦ rw e (
        touch-Tells t.now v.request.path a _ _ (
          routed-Tells (gui_route v.request.method v.request.path) (touch t.now v.request.path a)
            fs))
  ]
