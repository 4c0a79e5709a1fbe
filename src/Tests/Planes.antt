-- ===== src/Tests/Planes.antt =====
-- The two planes at concrete requests.
use mykeep_foundry.Server.Routes.{found}
use mykeep_foundry.Tests.{quiet, notes}
use mykeep_foundry.Prelude.{List, String, [], false, none, refl, some, true, ℕ, ◌∷◌, ◌≡◌, ◌⊎◌}
use mykeep_foundry.Tests.Runs.{storing, clock_runtime}
use mykeep_foundry.Tests.Market.{clock2, approved, market, sig2}
use mykeep_foundry.Tests.Invocation.{plain-IsShort}
use mykeep_foundry.Tests.Catalog.{mirror}
use mykeep_foundry.Store.State.{Env, Store}
use mykeep_foundry.Server.Use.Runs.{Ran, Idle, Unregistered}
use mykeep_foundry.Server.Routes.Guards.{Refused, Agent, Human, IsBelow, serve_http-guarded}
use mykeep_foundry.Server.Routes.Agent.{use_plane-Ran, use_plane-Unregistered}
use mykeep_foundry.Server.Routes.{run_route, use_route, use_plane, plane_at, serve_path, serve_http}
use mykeep_foundry.Server.{Options, Request, UseEntry, Handled, Wire, Server}
use mykeep_foundry.Registry.Tools.{install_marketplace, set_grant}
use mykeep_foundry.Host.Text.{codes}
use mykeep_foundry.Engine.{Frame}

-- The clock, from the marketplace, with a grant.
abbrev sold : Store
sold = (install_marketplace market quiet clock2 (5 ∷ []) sig2 true notes).1

abbrev pub granted_clock : Store
granted_clock = (set_grant market quiet "clock" approved sold).1

-- Every peer is this machine, and nothing decodes.
abbrev pub local : Wire
local = record {
  decode_grant = λ b. none;
  decode_dev_install = λ b. none;
  decode_install = λ b. none;
  decode_raw = λ b. none;
  split_host = λ t. none;
  parse_ip = λ t. some (127 ∷ 0 ∷ 0 ∷ 1 ∷ []);
}

abbrev clock_options : Options
clock_options = record {
  enable_lan = false;
  use_token = 7 ∷ 8 ∷ [];
  control_token = 9 ∷ [];
  control_session = [];
  session_cookie = "fdy_session";
}

abbrev clock_server : Server (List Frame)
clock_server = record {
  opt = clock_options;
  rt = clock_runtime;
  vm = storing;
  web = mirror;
  wire = local;
  rounds = 3;
}

abbrev pub clock_request : Request
clock_request = record {
  method = "POST";
  path = "v1" ∷ "foundry" ∷ "tools" ∷ "clock" ∷ [];
  token = 7 ∷ 8 ∷ [];
  cookies = [];
  remote_addr = codes "127.0.0.1:5000";
  tls = false;
  host = codes "localhost";
  body = [];
}

abbrev pub always : ℕ → Env
always n = quiet

abbrev served : Handled
served = use_plane clock_server always ("tools" ∷ "clock" ∷ []) clock_request granted_clock none

serve_http-guarded_example :
    Refused granted_clock none served
    ⊎ ((IsBelow clock_server always clock_request "v1" × Agent clock_server clock_request)
        ⊎ (IsBelow clock_server always clock_request "api" × Human clock_server clock_request))
unfolding serve_http serve_path plane_at
serve_http-guarded_example =
    serve_http-guarded clock_server always clock_request granted_clock none {h = served} refl

use_plane-Ran_example :
    Idle granted_clock none served
    ⊎ ((name : String) × Agent clock_server clock_request
        × (use_route "POST" ("tools" ∷ "clock" ∷ []) ≡ found (run_route name))
        × Ran clock_server always name granted_clock served)
use_plane-Ran_example =
    use_plane-Ran clock_server always clock_request granted_clock none ("tools" ∷ "clock" ∷ [])

use_plane-Unregistered_example :
    Unregistered clock_server always clock_request granted_clock none served
use_plane-Unregistered_example =
    use_plane-Unregistered clock_server always clock_request granted_clock none
      ("tools" ∷ "clock" ∷ []) plain-IsShort

abbrev clock_entry : UseEntry
clock_entry = record {
  name = "clock";
  version = "2";
  description = "";
  verified = true;
  params_schema = [];
}
