-- ===== src/Tests/Visits.antt =====
-- The local application at concrete requests.
use mykeep_foundry.Prelude.{List, [], false, none, refl, some, true, ◌∷◌, ◌≡◌}
use mykeep_foundry.Tests.Planes.{clock_request, always}
use mykeep_foundry.Tests.Keys.{short_kdf, lengths, key_io}
use mykeep_foundry.Tests.Drives.{flushing_well, machine, starting, dirtied_component}
use mykeep_foundry.Prelude.Int.{pos}
use mykeep_foundry.Gui.Handler.Sessions.{Changes, gui_serve-Changes, Bound, serve_all-Bound}
use mykeep_foundry.Gui.Handler.Tokens.{gui_serve-Tells}
use mykeep_foundry.Gui.Unlock.Tokens.{Tells}
use mykeep_foundry.Gui.Handler.Clock.{maybe_idle_lock-serve_all}
use mykeep_foundry.Gui.Handler.{agent_path, maybe_idle_lock, gui_serve, serve_all}
use mykeep_foundry.Gui.{AppConfig, App, AppFiles, Visit, Moment, is_unlocked}
use mykeep_foundry.Engine.{Frame}

-- Fifteen minutes.
abbrev quarter : AppConfig
quarter = record {
  data_dir = "keep";
  idle = pos 900000000000;
  launch_token = 5 ∷ 6 ∷ [];
  market_url = [];
  pubkeys = [];
}

abbrev at_first : Moment
at_first = record {
  now = 1000;
  stats = true;
  key_io = key_io;
  unlocking = starting;
  flushing = flushing_well;
  fresh_session = 3 ∷ [];
  moments = always;
}

-- The human sets a password, with the launch token.
abbrev setting_up : Visit
setting_up = record {
  request = record clock_request { path = "api" ∷ "setup" ∷ [] };
  launch = 5 ∷ 6 ∷ [];
  password = some (4 ∷ []);
}

-- An agent asks for the catalog.
abbrev asking : Visit
asking = record {
  request = record clock_request { method = "GET"; path = "v1" ∷ "foundry" ∷ "tools" ∷ [] };
  launch = [];
  password = none;
}

abbrev closed_app : App (List Frame)
closed_app = record { comp = none; session = []; last_seen = 0 }

abbrev new_files : AppFiles
new_files = record { drive = record { blob = none; locked = false }; key_file = none }

gui_serve-Changes_example :
    Changes quarter at_first setting_up closed_app
      (gui_serve machine short_kdf lengths quarter at_first setting_up closed_app new_files).1.0
gui_serve-Changes_example =
    gui_serve-Changes machine short_kdf lengths quarter at_first setting_up closed_app new_files

serve_all-Bound_example :
    let (b, _) =
      serve_all machine short_kdf lengths quarter
        ((at_first, setting_up) ∷ (at_first, asking) ∷ [])
        closed_app
        new_files in
    Bound b.comp b.session
unfolding Bound
serve_all-Bound_example =
    serve_all-Bound machine short_kdf lengths quarter
      ((at_first, setting_up) ∷ (at_first, asking) ∷ []) closed_app new_files refl

abbrev open_app_now : App (List Frame)
open_app_now = record { comp = some dirtied_component; session = 3 ∷ []; last_seen = 1000 }

maybe_idle_lock-serve_all_example :
    let (b, gs) =
      serve_all machine short_kdf lengths quarter
        ((at_first, asking) ∷ (at_first, asking) ∷ [])
        open_app_now
        new_files in
    let (c, _) = maybe_idle_lock machine quarter 900000001001 flushing_well b gs in
    (c.comp ≡ none) × (c.session ≡ [])
unfolding agent_path is_unlocked
maybe_idle_lock-serve_all_example =
    maybe_idle_lock-serve_all machine short_kdf lengths quarter
      ((at_first, asking) ∷ (at_first, asking) ∷ []) 900000001001 flushing_well open_app_now
      new_files (refl, (refl, tt)) refl refl refl

-- The page of the human asks for the state.
abbrev looking : Visit
looking = record {
  request = record clock_request {
    method = "GET";
    path = "api" ∷ "state" ∷ [];
    cookies = ("fdy_session", 3 ∷ []) ∷ [];
  };
  launch = [];
  password = none;
}

gui_serve-Tells_example :
    let out = gui_serve machine short_kdf lengths quarter at_first looking open_app_now new_files in
    Tells quarter looking open_app_now out.1.0 out.0
gui_serve-Tells_example =
    gui_serve-Tells machine short_kdf lengths quarter at_first looking open_app_now new_files
