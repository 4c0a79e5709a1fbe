-- ===== src/Gui.antt =====
-- internal/gui/gui.go: the local application, which holds the component, the session of the human who
-- unlocked it, and the idle clock.
pub mod Unlock
pub mod Handler
use mykeep_foundry.Prelude.{
  Bool, Bytes, List, Option, String, [], false, if◌then◌else◌, none, not, some, true, ℕ, ◌&&◌,
}
use mykeep_foundry.Secret.{wrong_password, Kdf}
use mykeep_foundry.Store.State.{Env}
use mykeep_foundry.Store.Open.{Drive, Flushing}
use mykeep_foundry.Server.{Request, Handled, cookie}
use mykeep_foundry.Prelude.Int.{ℤ}
use mykeep_foundry.KeyFile.{KeyIo, EnvelopeJson, KeyErr, of_secret, derive_dek}
use mykeep_foundry.Host.Text.{Text, text_eq}
use mykeep_foundry.Component.{
  Component, ComponentErr, Unlocking, use_token_of, Setup, Machine, new_component, unlock, lock,
  mounted,
}

-- The fields of `App` that stay as they are. The idle time is in nanoseconds.
pub record AppConfig : Type 0 where
  pub data_dir : String
  pub idle : ℤ
  pub launch_token : Bytes
  pub market_url : Text
  pub pubkeys : List Bytes

-- The fields that change. The mux of the planes is there where the component is.
pub record App (M : Type 0) : Type 0 where
  pub comp : Option (Component M)
  pub session : Bytes
  pub last_seen : ℕ

-- The files of the data directory.
pub record AppFiles : Type 0 where
  pub drive : Drive
  pub key_file : Option Bytes

-- A request, with its header X-Launch-Token and the password that `passReq` decodes from its body.
pub record Visit : Type 0 where
  pub request : Request
  pub launch : Bytes
  pub password : Option Bytes

-- What the machine decides for a request: the clock, whether the key file can be looked up, the calls
-- on the key file and the store, the session that is read of randomness, and the accesses to the store.
pub record Moment : Type 0 where
  pub now : ℕ
  pub stats : Bool
  pub key_io : KeyIo
  pub unlocking : Unlocking
  pub flushing : Flushing
  pub fresh_session : Bytes
  pub moments : ℕ → Env

pub data Page : Type 0 where
  index_page : Page
  state_page : Bool → Bool → Bytes → Page
  unlocked_page : Option Bytes → Page
  locked_page : Page
  error_page : String → Page
  component_error : ComponentErr → Page
  plane_page : Handled → Page
  redirect_page : Page

-- The status, the page and the cookie that is set, an empty one to take it away.
pub record Answer : Type 0 where
  pub status : ℕ
  pub page : Page
  pub set_cookie : Option Bytes

abbrev pub session_cookie_name : String
session_cookie_name = "fdy_session"

abbrev pub answered_with : ℕ → Page → Answer
answered_with status page = record { status = status; page = page; set_cookie = none }

abbrev pub refused_with : ℕ → String → Answer
refused_with status msg = record { status = status; page = error_page msg; set_cookie = none }

same_bytes : Option Bytes → Bytes → Bool
unfolding text_eq
same_bytes none want = false
same_bytes (some v) want = text_eq v want

-- `hasCookie`
unfoldable pub has_cookie : Visit → Bytes → Bool
unfolding same_bytes cookie
has_cookie v want = same_bytes (cookie session_cookie_name v.request.cookies) want

-- `hasLaunchToken`
unfoldable pub has_launch_token : AppConfig → Visit → Bool
unfolding text_eq
has_launch_token cfg v = not (text_eq v.launch []) && text_eq v.launch cfg.launch_token

-- `os.Stat` of the key file: whether it returns no error, and whether it says that there is no file.
unfoldable pub key_found : Bool → Option Bytes → Bool
key_found stats none = false
key_found stats (some b) = stats

key_missing : Option Bytes → Bool
key_missing none = true
key_missing (some b) = false

module _ {M : Type 0} where
  -- `hasSession`
  unfoldable pub has_session : App M → Visit → Bool
  unfolding has_cookie text_eq
  has_session a v = not (text_eq a.session []) && has_cookie v a.session

  unfoldable pub is_unlocked : Option (Component M) → Bool
  is_unlocked none = false
  is_unlocked (some c) = true

  unfoldable pub agent_token_of : Option (Component M) → Bytes
  unfolding use_token_of
  agent_token_of none = []
  agent_token_of (some c) = use_token_of c

  -- `state`
  unfoldable pub gui_state : Visit → App M → AppFiles → Answer
  unfolding key_missing is_unlocked has_session agent_token_of
  gui_state v a fs = answered_with 200 (
      state_page (key_missing fs.key_file) (is_unlocked a.comp)
        (if is_unlocked a.comp && has_session a v then agent_token_of a.comp else []))
