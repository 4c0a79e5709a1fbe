-- ===== src/Gui/Handler.antt =====
-- internal/gui/gui.go: the routes of the application, locking, and the idle clock.
pub mod Sessions
pub mod Clock
pub mod Tokens
use mykeep_foundry.Gui.{
  is_unlocked, AppConfig, App, AppFiles, Visit, Moment, index_page, locked_page, plane_page,
  redirect_page, Answer, answered_with, refused_with, has_session, gui_state,
}
use mykeep_foundry.Prelude.{
  Bool, List, Option, String, [], false, if◌then◌else◌, none, not, some, ℕ, ◌&&◌, ◌-◌, ◌==◌, ◌||◌,
  ◌∷◌,
}
use mykeep_foundry.Store.Persist.{idle}
use mykeep_foundry.Store.Open.{Drive, Flushing}
use mykeep_foundry.Server.Routes.{is_get}
use mykeep_foundry.Server.{Response, Handled, from_loopback}
use mykeep_foundry.Secret.{Kdf}
use mykeep_foundry.Prelude.Int.{pos, ltb_ℤ}
use mykeep_foundry.KeyFile.{EnvelopeJson}
use mykeep_foundry.Gui.Unlock.{setup_app, unlock_app}
use mykeep_foundry.Component.{Machine, Component, lock, mounted}

pub data GuiRoute : Type 0 where
  index_route state_route setup_route unlock_route lock_route plane_route : GuiRoute
  redirect_route other_method no_route : GuiRoute

on_method : Bool → GuiRoute → GuiRoute
on_method right r = if right then r else other_method

api_leaf : String → String → GuiRoute
unfolding on_method
api_leaf m leaf =
    if leaf == "state"
    then on_method (is_get m) state_route
    else if leaf == "setup"
    then on_method (m == "POST") setup_route
    else if leaf == "unlock"
    then on_method (m == "POST") unlock_route
    else if leaf == "lock"
    then on_method (m == "POST") lock_route
    else if leaf == "foundry"
    then redirect_route
    else no_route

pair_route : String → String → String → GuiRoute
unfolding api_leaf
pair_route m a b =
    if a == "api"
    then api_leaf m b
    else if a == "v1" && b == "foundry"
    then redirect_route
    else no_route

-- The patterns of `handler`.
unfoldable pub gui_route : String → List String → GuiRoute
unfolding on_method pair_route
gui_route m (a ∷ []) = if a == "" then on_method (is_get m) index_route else no_route
gui_route m (a ∷ b ∷ []) = pair_route m a b
gui_route m (a ∷ b ∷ c ∷ rest) =
    if (a == "v1" || a == "api") && b == "foundry" then plane_route else no_route
gui_route m [] = no_route

-- A path under `/v1/`.
unfoldable pub agent_path : List String → Bool
agent_path (a ∷ b ∷ rest) = a == "v1"
agent_path _ = false

-- No status yet while a tool runs on.
plane_status : Option Response → ℕ
plane_status none = 0
plane_status (some r) = r.status

module _ {M : Type 0} where
  lock_component : Machine M → Flushing → Option (Component M) → Drive → Drive
  unfolding lock
  lock_component m f none d = d
  lock_component m f (some c) d = (lock m f c d).1.1

  -- `lockNow`
  unfoldable pub lock_now : Machine M → Flushing → App M → AppFiles → App M × AppFiles
  unfolding lock_component
  lock_now m f a fs = (
    record a { comp = none; session = [] },
    record fs { drive = lock_component m f a.comp fs.drive },
  )

  -- `lock`
  unfoldable pub lock_app :
      Machine M → Moment → Visit → App M → AppFiles → Answer × (App M × AppFiles)
  unfolding has_session lock_now
  lock_app m t v a fs =
      if not (has_session a v) then (refused_with 401 "unauthorized", (a, fs)) else (
        record { status = 200; page = locked_page; set_cookie = some [] },
        lock_now m t.flushing a fs,
      )

  planes_answer :
      App M → AppFiles → Component M → Option (Handled × Component M) → Answer × (App M × AppFiles)
  unfolding plane_status
  planes_answer a fs c none = (refused_with 404 "404 page not found", (a, fs))
  planes_answer a fs c (some (h, c')) =
      (answered_with (plane_status h.response) (plane_page h), (record a { comp = some c' }, fs))

  proxied : Moment → Visit → Option (Component M) → App M → AppFiles → Answer × (App M × AppFiles)
  unfolding planes_answer mounted
  proxied t v none a fs = (refused_with 423 "locked — unlock Foundry first", (a, fs))
  proxied t v (some c) a fs = planes_answer a fs c (mounted t.moments v.request c)

  -- `proxy`; the status of a plane's answer stands in its page.
  unfoldable pub proxy : Moment → Visit → App M → AppFiles → Answer × (App M × AppFiles)
  unfolding proxied
  proxy t v a fs = proxied t v a.comp a fs

  -- `touch`
  unfoldable pub touch : ℕ → List String → App M → App M
  unfolding agent_path is_unlocked
  touch now path a =
      if not (agent_path path) && is_unlocked a.comp then record a { last_seen = now } else a

  -- `maybeIdleLock`
  unfoldable pub maybe_idle_lock :
      Machine M → AppConfig → ℕ → Flushing → App M → AppFiles → App M × AppFiles
  unfolding lock_now is_unlocked
  maybe_idle_lock m cfg now f a fs =
      if ltb_ℤ (pos 0) cfg.idle && is_unlocked a.comp && ltb_ℤ cfg.idle (pos (now - a.last_seen))
      then lock_now m f a fs
      else (a, fs)

  -- The handlers, by their route.
  routed :
      Machine M
      → Kdf
      → EnvelopeJson
      → AppConfig
      → Moment
      → GuiRoute
      → Visit
      → App M
      → AppFiles
      → Answer × (App M × AppFiles)
  unfolding gui_state setup_app unlock_app lock_app proxy
  routed m kdf json cfg t index_route v a fs = (answered_with 200 index_page, (a, fs))
  routed m kdf json cfg t state_route v a fs = (gui_state v a fs, (a, fs))
  routed m kdf json cfg t setup_route v a fs = setup_app m kdf json cfg t v a fs
  routed m kdf json cfg t unlock_route v a fs = unlock_app m kdf json cfg t v a fs
  routed m kdf json cfg t lock_route v a fs = lock_app m t v a fs
  routed m kdf json cfg t plane_route v a fs = proxy t v a fs
  routed m kdf json cfg t redirect_route v a fs = (answered_with 301 redirect_page, (a, fs))
  routed m kdf json cfg t other_method v a fs = (refused_with 405 "Method Not Allowed", (a, fs))
  routed m kdf json cfg t no_route v a fs = (refused_with 404 "404 page not found", (a, fs))

  -- A request to the program: `loopbackGuard`, `touch`, and the mux of `handler`.
  unfoldable pub gui_serve :
      Machine M
      → Kdf
      → EnvelopeJson
      → AppConfig
      → Moment
      → Visit
      → App M
      → AppFiles
      → Answer × (App M × AppFiles)
  unfolding routed touch gui_route from_loopback
  gui_serve m kdf json cfg t v a fs =
      if not (from_loopback m.wire v.request)
      then (refused_with 403 "loopback only", (a, fs))
      else routed m kdf json cfg t (gui_route v.request.method v.request.path) v
          (touch t.now v.request.path a) fs

  -- A row of requests.
  unfoldable pub serve_all :
      Machine M
      → Kdf
      → EnvelopeJson
      → AppConfig
      → List (Moment × Visit)
      → App M
      → AppFiles
      → App M × AppFiles
  unfolding gui_serve
  serve_all m kdf json cfg [] a fs = (a, fs)
  serve_all m kdf json cfg ((t, v) ∷ vs) a fs =
      let out = gui_serve m kdf json cfg t v a fs in serve_all m kdf json cfg vs out.1.0 out.1.1
