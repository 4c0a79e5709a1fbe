-- ===== src/Server/Routes.antt =====
-- internal/server/server.go, `Mount`: the routes of the two planes, behind their guards.
pub mod Guards
pub mod Agent
use mykeep_foundry.Prelude.{
  Bool, Bytes, List, Option, String, [], if◌then◌else◌, none, not, some, ℕ, ◌&&◌, ◌==◌, ◌||◌, ◌∷◌,
}
use mykeep_foundry.Registry.Client.{Client}
use mykeep_foundry.Store.State.{Env, Store}
use mykeep_foundry.Server.Use.{use_catalog, use_run, guide}
use mykeep_foundry.Server.Control.{
  ctrl_list, ctrl_grant, ctrl_remove, ctrl_dev_install, ctrl_dev_run, ctrl_market_refresh,
  ctrl_install,
}
use mykeep_foundry.Server.{
  Request, Handled, Server, token_ok, control_auth, from_loopback, write_err,
}

-- The handlers of the routes, with the path's name.
pub data UseRoute : Type 0 where
  guide_route catalog_route : UseRoute
  run_route : String → UseRoute

pub data ControlRoute : Type 0 where
  list_route dev_install_route refresh_route install_route : ControlRoute
  grant_route remove_route dev_run_route : String → ControlRoute

-- What a mux finds: a handler, a path that stands only under other methods, or nothing.
pub data Found (R : Type 0) : Type 0 where
  found : R → Found R
  wrong_method not_found : Found R

-- A pattern for GET matches HEAD too.
abbrev pub is_get : String → Bool
is_get m = m == "GET" || m == "HEAD"

for_method : {R : Type 0} → Bool → R → Found R
for_method right r = if right then found r else wrong_method

use_leaf : String → String → Found UseRoute
unfolding for_method
use_leaf m leaf =
    if leaf == "guide"
    then for_method (is_get m) guide_route
    else if leaf == "tools"
    then for_method (is_get m) catalog_route
    else not_found

-- The patterns of the USE plane, below /v1/foundry.
unfoldable pub use_route : String → List String → Found UseRoute
unfolding for_method use_leaf
use_route m (leaf ∷ []) = use_leaf m leaf
use_route m (tools ∷ name ∷ []) =
    if tools == "tools" && not (name == "")
    then for_method (m == "POST") (run_route name)
    else not_found
use_route m _ = not_found

control_leaf : String → String → Found ControlRoute
unfolding for_method
control_leaf m leaf = if leaf == "tools" then for_method (is_get m) list_route else not_found

-- Below `tools`: POST tools/install, and DELETE tools/{name}.
tool_leaf : String → String → Found ControlRoute
unfolding for_method
tool_leaf m name =
    if name == ""
    then not_found
    else if name == "install" && m == "POST"
    then found install_route
    else for_method (m == "DELETE") (remove_route name)

control_pair : String → String → String → Found ControlRoute
unfolding for_method tool_leaf
control_pair m a b =
    if a == "tools"
    then tool_leaf m b
    else if a == "dev" && b == "tools"
    then for_method (m == "POST") dev_install_route
    else if a == "market" && b == "refresh"
    then for_method (m == "POST") refresh_route
    else not_found

-- The patterns of the CONTROL plane, below /api/foundry.
unfoldable pub control_route : String → List String → Found ControlRoute
unfolding for_method control_leaf control_pair
control_route m (a ∷ []) = control_leaf m a
control_route m (a ∷ b ∷ []) = control_pair m a b
control_route m (a ∷ b ∷ c ∷ []) =
    if a == "tools" && not (b == "") && c == "grant"
    then for_method (m == "POST") (grant_route b)
    else not_found
control_route m (a ∷ b ∷ c ∷ e ∷ []) =
    if a == "dev" && b == "tools" && not (c == "") && e == "run"
    then for_method (m == "POST") (dev_run_route c)
    else not_found
control_route m _ = not_found

module _ {M : Type 0} (srv : Server M) (moments : ℕ → Env) where
  pub use_handler : Found UseRoute → Request → Store → Option Client → Handled
  unfolding use_catalog use_run guide
  use_handler (found guide_route) r s market = guide srv moments r s market
  use_handler (found catalog_route) r s market = use_catalog srv moments s market
  use_handler (found (run_route name)) r s market = use_run srv moments r name s market
  use_handler wrong_method r s market = write_err 405 "Method Not Allowed" s market
  use_handler not_found r s market = write_err 404 "404 page not found" s market

  pub control_handler : Found ControlRoute → Request → Store → Option Client → Handled
  control_handler (found list_route) r s market = ctrl_list srv moments s market
  control_handler (found dev_install_route) r s market = ctrl_dev_install srv moments r s market
  control_handler (found refresh_route) r s market = ctrl_market_refresh srv moments s market
  control_handler (found install_route) r s market = ctrl_install srv moments r s market
  control_handler (found (grant_route name)) r s market = ctrl_grant srv moments r name s market
  control_handler (found (remove_route name)) r s market = ctrl_remove srv moments name s market
  control_handler (found (dev_run_route name)) r s market = ctrl_dev_run srv moments r name s market
  control_handler wrong_method r s market = write_err 405 "Method Not Allowed" s market
  control_handler not_found r s market = write_err 404 "404 page not found" s market

  -- `requireToken`
  require_token :
      Bytes
      → (Request → Store → Option Client → Handled)
      → Request
      → Store
      → Option Client
      → Handled
  require_token token next r s market =
      if not (token_ok r.token token)
      then write_err 401 "unauthorized" s market
      else next r s market

  -- `controlAuth`
  require_control :
      (Request → Store → Option Client → Handled) → Request → Store → Option Client → Handled
  require_control next r s market =
      if control_auth srv.opt r then next r s market else write_err 401 "unauthorized" s market

  -- `loopbackOnly`
  loopback_only :
      (Request → Store → Option Client → Handled) → Request → Store → Option Client → Handled
  loopback_only next r s market =
      if from_loopback srv.wire r then next r s market else write_err 403 "loopback_only" s market

  -- The USE plane, for what follows /v1/foundry in the path.
  unfoldable pub use_plane : List String → Request → Store → Option Client → Handled
  unfolding require_token loopback_only use_handler
  use_plane rest r s market =
      let guarded = require_token srv.opt.use_token (use_handler (use_route r.method rest)) in
      (if srv.opt.enable_lan then guarded else loopback_only guarded) r s market

  -- The CONTROL plane, for what follows /api/foundry in the path.
  unfoldable pub control_plane : List String → Request → Store → Option Client → Handled
  unfolding require_control loopback_only control_handler
  control_plane rest r s market =
      loopback_only (require_control (control_handler (control_route r.method rest))) r s market

  unfoldable pub plane_at :
      String → String → List String → Request → Store → Option Client → Option Handled
  unfolding use_plane control_plane
  plane_at a b rest r s market =
      if a == "v1" && b == "foundry"
      then some (use_plane rest r s market)
      else if a == "api" && b == "foundry"
      then some (control_plane rest r s market)
      else none

  -- The mux that `Mount` attaches to, by the segments of the path; none for the paths that belong to
  -- others.
  unfoldable pub serve_path : List String → Request → Store → Option Client → Option Handled
  unfolding plane_at
  serve_path (a ∷ b ∷ c ∷ rest) r s market = plane_at a b (c ∷ rest) r s market
  serve_path _ r s market = none

  unfoldable pub serve_http : Request → Store → Option Client → Option Handled
  unfolding serve_path
  serve_http r s market = serve_path r.path r s market
