-- ===== src/Gui/Handler/Sessions.antt =====
-- What a request can do to the session of the human.
use mykeep_foundry.Gui.{
  is_unlocked, AppConfig, App, Visit, Moment, has_launch_token, has_session, AppFiles,
  session_cookie_name,
}
use mykeep_foundry.Gui.Handler.{
  planes_answer, proxied, routed, GuiRoute, index_route, state_route, setup_route, unlock_route,
  lock_route, plane_route, redirect_route, other_method, no_route, agent_path, lock_app, proxy,
  touch, gui_serve, gui_route, lock_now, serve_all,
}
use mykeep_foundry.Prelude.{
  Bool-cases, Bytes, List, Option, String, [], ap, arith, inl, inr, none, not, refl, some, subst,
  sym, true, ℕ, ◌&&◌, ◌∙◌, ◌∷◌, ◌≡◌, ◌⊎◌,
}
use mykeep_foundry.Server.Accepts.{Accepts, control_auth-Accepts}
use mykeep_foundry.Server.{Handled, from_loopback, Server, Options}
use mykeep_foundry.Secret.{Kdf}
use mykeep_foundry.KeyFile.{EnvelopeJson}
use mykeep_foundry.Gui.Unlock.Cases.{Unlocked, setup_app-Becomes, unlock_app-Becomes}
use mykeep_foundry.Component.Served.{SameServer, mounted-SameServer}
use mykeep_foundry.Component.{Component, Machine, mounted, Parts}

-- What one request does to the application: it unlocks it, which takes the launch token; it locks it,
-- which takes the session; a plane serves it, under the same options; or the lock stays as it is.
pub data Changes {M : Type 0} (cfg : AppConfig) (t : Moment) (v : Visit) (a : App M)
    : App M → Type 0 where
  stays : (seen : ℕ) → Changes cfg t v a (record a { last_seen = seen })
  unlocks :
      (b : App M)
      → has_launch_token cfg v ≡ true
      → Unlocked t (record a { last_seen = t.now }) b
      → Changes cfg t v a b
  locks :
      (seen : ℕ)
      → has_session a v ≡ true
      → Changes cfg t v a (record { comp = none; session = []; last_seen = seen })
  serves :
      (seen : ℕ) (c c' : Component M)
      → a.comp ≡ some c
      → SameServer c c'
      → Changes cfg t v a (record a { comp = some c'; last_seen = seen })

module _ {M : Type 0} (m : Machine M) (kdf : Kdf) (json : EnvelopeJson) (cfg : AppConfig)
    (t : Moment) where
  touch-seen :
      (now : ℕ) (path : List String) (a : App M)
      → (seen : ℕ) × (touch now path a ≡ record a { last_seen = seen })
  unfolding touch
  touch-seen now path a = elim (Bool-cases (not (agent_path path) && is_unlocked a.comp)) [
    | inl e ↦ (now, rw e refl)
    | inr e ↦ (a.last_seen, rw e refl)
  ]

  planes_answer-Changes :
      (v : Visit) (a : App M) (seen : ℕ) (fs : AppFiles) (c : Component M)
      (o : Option (Handled × Component M))
      → a.comp ≡ some c
      → o ≡ mounted t.moments v.request c
      → Changes cfg t v a (planes_answer (record a { last_seen = seen }) fs c o).1.0
  unfolding planes_answer
  planes_answer-Changes v a seen fs c none here made = stays seen
  planes_answer-Changes v a seen fs c (some (h, c')) here made =
      serves seen c c' here (mounted-SameServer t.moments v.request c (sym made))

  proxied-Changes :
      (v : Visit) (a : App M) (seen : ℕ) (fs : AppFiles) (comp : Option (Component M))
      → a.comp ≡ comp
      → Changes cfg t v a (proxied t v comp (record a { last_seen = seen }) fs).1.0
  unfolding proxied
  proxied-Changes v a seen fs none here = stays seen
  proxied-Changes v a seen fs (some c) here = planes_answer-Changes v a seen fs c _ here refl

  lock_app-Changes :
      (v : Visit) (a : App M) (seen : ℕ) (fs : AppFiles)
      → Changes cfg t v a (lock_app m t v (record a { last_seen = seen }) fs).1.0
  unfolding lock_app
  lock_app-Changes v a seen fs = elim (Bool-cases (has_session (record a { last_seen = seen }) v)) [
    | inl e ↦ rw e (unfold lock_now in locks seen (unfold has_session in e))
    | inr e ↦ rw e (stays seen)
  ]

  opened-Changes :
      (v : Visit) (a : App M) (seen : ℕ) (after : App M)
      → (after ≡ record a { last_seen = seen })
        ⊎ ((has_launch_token cfg v ≡ true) × Unlocked t (record a { last_seen = seen }) after)
      → Changes cfg t v a after
  opened-Changes v a seen after (inl same) = subst (Changes cfg t v a) (sym same) (stays seen)
  opened-Changes v a seen after (inr (has, u)) = unlocks after has (record {
    locked = u.locked;
    component = u.component;
    parts = u.parts;
    stands = u.stands;
    serves = u.serves;
    under = u.under;
    cookie_named = u.cookie_named;
  })

  routed-Changes :
      (g : GuiRoute) (v : Visit) (a : App M) (seen : ℕ) (fs : AppFiles)
      → Changes cfg t v a (routed m kdf json cfg t g v (record a { last_seen = seen }) fs).1.0
  unfolding routed proxy
  routed-Changes index_route v a seen fs = stays seen
  routed-Changes state_route v a seen fs = stays seen
  routed-Changes setup_route v a seen fs =
      opened-Changes v a seen _ (setup_app-Becomes m kdf json cfg t v _ fs)
  routed-Changes unlock_route v a seen fs =
      opened-Changes v a seen _ (unlock_app-Becomes m kdf json cfg t v _ fs)
  routed-Changes lock_route v a seen fs = lock_app-Changes v a seen fs
  routed-Changes plane_route v a seen fs = proxied-Changes v a seen fs a.comp refl
  routed-Changes redirect_route v a seen fs = stays seen
  routed-Changes other_method v a seen fs = stays seen
  routed-Changes no_route v a seen fs = stays seen

  -- Of the requests to the program only one with the launch token unlocks it, only one with the session
  -- locks it, and every other leaves the lock and the session as they are; a plane that serves a request
  -- keeps its options.
  pub gui_serve-Changes :
      (v : Visit) (a : App M) (fs : AppFiles)
      → Changes cfg t v a (gui_serve m kdf json cfg t v a fs).1.0
  unfolding gui_serve
  gui_serve-Changes v a fs = elim (Bool-cases (from_loopback m.wire v.request)) [
    | inl e ↦
        let (seen, same) = touch-seen t.now v.request.path a in
        rw e (
          subst
            (λ (x : App M).
              Changes cfg t v a
                (routed m kdf json cfg t (gui_route v.request.method v.request.path) v x fs).1.0)
            (sym same) (routed-Changes (gui_route v.request.method v.request.path) v a seen fs))
    | inr e ↦ rw e (stays a.last_seen)
  ]

-- Unlocked, the component serves under the session of the application; locked, there is no session.
unfoldable pub Bound : {M : Type 0} → Option (Component M) → Bytes → Type 0
Bound none session = session ≡ []
Bound {M} (some c) session =
    (p : Parts M) × (c.parts ≡ some p) × Accepts p.srv.opt session_cookie_name session

SameServer-Bound :
    {M : Type 0} (c c' : Component M) (session : Bytes)
    → SameServer c c'
    → Bound (some c) session
    → Bound (some c') session
unfolding Bound
SameServer-Bound c c' session s (p, serving, accepts) =
    let same_parts : s.old_parts ≡ p = ground (arith, s.served, serving) in
    let same_opt : s.new_parts.srv.opt ≡ p.srv.opt =
      ap (λ (x : Server _). x.opt) s.same ∙ ap (λ (x : Parts _). x.srv.opt) same_parts in
    (
      s.new_parts,
      s.serves_on,
      subst (λ (o : Options). Accepts o session_cookie_name session) (sym same_opt) accepts,
    )

Changes-Bound :
    {M : Type 0} {cfg : AppConfig} {t : Moment} {v : Visit} {a b : App M}
    → Changes cfg t v a b
    → Bound a.comp a.session
    → Bound b.comp b.session
Changes-Bound (stays seen) h = h
Changes-Bound (unlocks b has u) h =
    subst (λ (x : App _). Bound x.comp x.session) (sym u.stands)
      (unfold Bound in
        (
          u.parts,
          u.serves,
          control_auth-Accepts u.parts.srv.opt session_cookie_name _ u.under u.cookie_named,
        ))
Changes-Bound (locks seen has) h = unfold Bound in refl
Changes-Bound {a = a} (serves seen c c' here same) h =
    SameServer-Bound c c' a.session same
      (subst (λ (x : Option (Component _)). Bound x a.session) here h)

module _ {M : Type 0} (m : Machine M) (kdf : Kdf) (json : EnvelopeJson) (cfg : AppConfig) where
  -- Whatever is asked of the program, in any order: unlocked, the test of the control plane lets a request
  -- pass exactly when it has the control token of the server, or the session of the application in the
  -- application's cookie; locked, there is no session.
  pub serve_all-Bound :
      (vs : List (Moment × Visit)) (a : App M) (fs : AppFiles)
      → Bound a.comp a.session
      → let (b, _) = serve_all m kdf json cfg vs a fs in Bound b.comp b.session
  unfolding serve_all
  serve_all-Bound [] a fs h = h
  serve_all-Bound ((t, v) ∷ vs) a fs h =
      serve_all-Bound vs _ _ (Changes-Bound (gui_serve-Changes m kdf json cfg t v a fs) h)
