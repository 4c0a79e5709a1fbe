-- ===== src/Gui/Unlock.antt =====
-- internal/gui/gui.go: setting up and unlocking.
pub mod Cases
pub mod Tokens
use mykeep_foundry.Prelude.{
  Bool, Bytes, Option, Result, [], err, false, if◌then◌else◌, none, not, ok, some, true,
}
use mykeep_foundry.Store.Open.{Drive}
use mykeep_foundry.Secret.{wrong_password, Kdf}
use mykeep_foundry.KeyFile.{EnvelopeJson, KeyErr, of_secret, derive_dek}
use mykeep_foundry.Host.Text.{text_eq}
use mykeep_foundry.Gui.{
  AppConfig, App, AppFiles, Visit, Moment, unlocked_page, component_error, Answer,
  session_cookie_name, answered_with, refused_with, has_launch_token, key_found,
}
use mykeep_foundry.Component.{
  Setup, Machine, Component, ComponentErr, new_component, unlock, use_token_of,
}

-- The options of the component that `open` makes.
setup_of : AppConfig → Bytes → Setup
setup_of cfg session = record {
  data_dir = cfg.data_dir;
  lan = false;
  agent_token = [];
  human_token = [];
  human_session = session;
  cookie_name = session_cookie_name;
  registry_keys = cfg.pubkeys;
  market_url = cfg.market_url;
  vault_filler = none;
}

key_error : KeyErr → Answer
key_error (of_secret wrong_password) = refused_with 401 "wrong password"
key_error e = refused_with 500 "could not unlock"

module _ {M : Type 0} where
  -- `open` after `comp.Unlock`.
  unlocked_now :
      Moment
      → Bytes
      → App M
      → AppFiles
      → Result ComponentErr (Unit {0}) × (Component M × Drive)
      → Answer × (App M × AppFiles)
  unfolding use_token_of
  unlocked_now t session a fs (err e, (c, d)) =
      (refused_with 500 "could not open store", (a, record fs { drive = d }))
  unlocked_now t session a fs (ok _, (c, d)) = (
    record {
      status = 200;
      page = unlocked_page (some (use_token_of c));
      set_cookie = some session;
    },
    (record { comp = some c; session = session; last_seen = t.now }, record fs { drive = d }),
  )

  with_component :
      Machine M
      → Moment
      → Bytes
      → App M
      → AppFiles
      → Result ComponentErr (Component M)
      → Answer × (App M × AppFiles)
  unfolding unlocked_now unlock
  with_component m t dek a fs (err e) = (answered_with 500 (component_error e), (a, fs))
  with_component m t dek a fs (ok c) =
      unlocked_now t t.fresh_session a fs (unlock m t.unlocking dek c fs.drive)

  with_key :
      Machine M
      → AppConfig
      → Moment
      → App M
      → AppFiles
      → Result KeyErr Bytes × Option Bytes
      → Answer × (App M × AppFiles)
  unfolding key_error setup_of new_component with_component
  with_key m cfg t a fs (err e, file) = (key_error e, (a, record fs { key_file = file }))
  with_key m cfg t a fs (ok dek, file) =
      with_component m t dek a (record fs { key_file = file })
        (new_component (setup_of cfg t.fresh_session))

  open_locked :
      Machine M
      → Kdf
      → EnvelopeJson
      → AppConfig
      → Moment
      → Bool
      → Bytes
      → App M
      → AppFiles
      → Answer × (App M × AppFiles)
  unfolding with_key derive_dek
  open_locked m kdf json cfg t create pw a fs =
      with_key m cfg t a fs (derive_dek m.aead kdf json create t.key_io pw fs.key_file)

  opened_already :
      Option (Component M)
      → App M
      → AppFiles
      → Answer × (App M × AppFiles)
      → Answer × (App M × AppFiles)
  opened_already none a fs opened_now = opened_now
  opened_already (some c) a fs opened_now = (answered_with 200 (unlocked_page none), (a, fs))

  with_password :
      Machine M
      → Kdf
      → EnvelopeJson
      → AppConfig
      → Moment
      → Bool
      → Option Bytes
      → App M
      → AppFiles
      → Answer × (App M × AppFiles)
  unfolding open_locked opened_already text_eq
  with_password m kdf json cfg t create none a fs = (refused_with 400 "password required", (a, fs))
  with_password m kdf json cfg t create (some pw) a fs =
      if text_eq pw []
      then (refused_with 400 "password required", (a, fs))
      else opened_already a.comp a fs (open_locked m kdf json cfg t create pw a fs)

  -- `open`
  unfoldable pub open_app :
      Machine M
      → Kdf
      → EnvelopeJson
      → AppConfig
      → Moment
      → Bool
      → Visit
      → App M
      → AppFiles
      → Answer × (App M × AppFiles)
  unfolding with_password
  open_app m kdf json cfg t create v a fs = with_password m kdf json cfg t create v.password a fs

  -- `setup`
  unfoldable pub setup_app :
      Machine M
      → Kdf
      → EnvelopeJson
      → AppConfig
      → Moment
      → Visit
      → App M
      → AppFiles
      → Answer × (App M × AppFiles)
  unfolding has_launch_token key_found open_app
  setup_app m kdf json cfg t v a fs =
      if not (has_launch_token cfg v)
      then (refused_with 401 "launch token required", (a, fs))
      else if key_found t.stats fs.key_file
      then (refused_with 409 "already set up", (a, fs))
      else open_app m kdf json cfg t true v a fs

  -- `unlock`
  unfoldable pub unlock_app :
      Machine M
      → Kdf
      → EnvelopeJson
      → AppConfig
      → Moment
      → Visit
      → App M
      → AppFiles
      → Answer × (App M × AppFiles)
  unfolding has_launch_token open_app
  unlock_app m kdf json cfg t v a fs =
      if not (has_launch_token cfg v)
      then (refused_with 401 "launch token required", (a, fs))
      else open_app m kdf json cfg t false v a fs
