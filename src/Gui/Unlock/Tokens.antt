-- ===== src/Gui/Unlock/Tokens.antt =====
-- internal/gui/gui.go: to whom setting up and unlocking tell the agent's token and the session.
use mykeep_foundry.Store.Open.{Drive}
use mykeep_foundry.Prelude.{
  Bool, Bool-cases, Bytes, Option, Result, [], err, false, inl, inr, none, ok, refl, some, true,
  ◌≡◌,
}
use mykeep_foundry.Secret.{bad_dek, no_random, too_short, wrong_password, Kdf}
use mykeep_foundry.KeyFile.{
  EnvelopeJson, KeyErr, no_key_file, key_unreadable, bad_envelope, key_not_written, of_secret,
}
use mykeep_foundry.Host.Text.{text_eq}
use mykeep_foundry.Gui.{
  AppConfig, App, AppFiles, Visit, Moment, Page, state_page, unlocked_page, Answer,
  has_launch_token, key_found, has_session, agent_token_of, is_unlocked,
}
use mykeep_foundry.Component.{Machine, Component, ComponentErr}
use mykeep_foundry.Gui.Unlock.{
  unlocked_now, open_app, setup_app, unlock_app, key_error, with_component, with_key, open_locked,
  opened_already, with_password,
}

-- The agent's token on a page of the program's own.
unfoldable pub told : Page → Bytes
told (state_page first unlocked token) = token
told (unlocked_page (some token)) = token
told page = []

-- The value of the cookie that an answer sets.
unfoldable pub given : Option Bytes → Bytes
given none = []
given (some session) = session

-- Nothing; the token of the agent to the session; or both secrets to the launch token, which unlocked
-- the program.
pub data Tells {M : Type 0} (cfg : AppConfig) (v : Visit) (a b : App M) (r : Answer) : Type 0 where
  silent : told r.page ≡ [] → given r.set_cookie ≡ [] → Tells cfg v a b r
  to_session :
      is_unlocked a.comp ≡ true
      → has_session a v ≡ true
      → told r.page ≡ agent_token_of a.comp
      → given r.set_cookie ≡ []
      → Tells cfg v a b r
  to_human :
      has_launch_token cfg v ≡ true
      → a.comp ≡ none
      → told r.page ≡ agent_token_of b.comp
      → given r.set_cookie ≡ b.session
      → Tells cfg v a b r

module _ {M : Type 0} (m : Machine M) (kdf : Kdf) (json : EnvelopeJson) (cfg : AppConfig)
    (t : Moment) (v : Visit) where
  abbrev Silent : Answer → Type 0
  Silent r = (told r.page ≡ []) × (given r.set_cookie ≡ [])

  abbrev TellsIn : App M → Answer × (App M × AppFiles) → Type 0
  TellsIn a out = Tells cfg v a out.1.0 out.0

  unlocked_now-Tells :
      (a : App M) (fs : AppFiles) (r : Result ComponentErr (Unit {0}) × (Component M × Drive))
      → has_launch_token cfg v ≡ true
      → a.comp ≡ none
      → TellsIn a (unlocked_now t t.fresh_session a fs r)
  unfolding unlocked_now told given agent_token_of
  unlocked_now-Tells a fs (err e, (c, d)) has locked = silent refl refl
  unlocked_now-Tells a fs (ok _, (c, d)) has locked = to_human has locked refl refl

  with_component-Tells :
      (dek : Bytes) (a : App M) (fs : AppFiles) (r : Result ComponentErr (Component M))
      → has_launch_token cfg v ≡ true
      → a.comp ≡ none
      → TellsIn a (with_component m t dek a fs r)
  unfolding with_component told given
  with_component-Tells dek a fs (err e) has locked = silent refl refl
  with_component-Tells dek a fs (ok c) has locked = unlocked_now-Tells a fs _ has locked

  key_error-Silent : (e : KeyErr) → Silent (key_error e)
  unfolding key_error told given
  key_error-Silent no_key_file = (refl, refl)
  key_error-Silent key_unreadable = (refl, refl)
  key_error-Silent bad_envelope = (refl, refl)
  key_error-Silent key_not_written = (refl, refl)
  key_error-Silent (of_secret bad_dek) = (refl, refl)
  key_error-Silent (of_secret no_random) = (refl, refl)
  key_error-Silent (of_secret too_short) = (refl, refl)
  key_error-Silent (of_secret wrong_password) = (refl, refl)

  with_key-Tells :
      (a : App M) (fs : AppFiles) (r : Result KeyErr Bytes × Option Bytes)
      → has_launch_token cfg v ≡ true
      → a.comp ≡ none
      → TellsIn a (with_key m cfg t a fs r)
  unfolding with_key
  with_key-Tells a fs (err e, file) has locked =
      silent (key_error-Silent e).0 (key_error-Silent e).1
  with_key-Tells a fs (ok dek, file) has locked =
      with_component-Tells dek a (record fs { key_file = file }) _ has locked

  opened_already-Tells :
      (c : Option (Component M)) (a : App M) (fs : AppFiles)
      (opened_now : Answer × (App M × AppFiles))
      → (c ≡ none → TellsIn a opened_now)
      → TellsIn a (opened_already c a fs opened_now)
  unfolding opened_already told given
  opened_already-Tells none a fs opened_now h = h refl
  opened_already-Tells (some c) a fs opened_now h = silent refl refl

  with_password-Tells :
      (create : Bool) (pw : Option Bytes) (a : App M) (fs : AppFiles)
      → has_launch_token cfg v ≡ true
      → TellsIn a (with_password m kdf json cfg t create pw a fs)
  unfolding with_password told given
  with_password-Tells create none a fs has = silent refl refl
  with_password-Tells create (some pw) a fs has = elim (Bool-cases (text_eq pw [])) [
    | inl e ↦ rw e (silent refl refl)
    | inr e ↦ rw e (
        opened_already-Tells a.comp a fs _
          λ locked. unfold open_locked in with_key-Tells a fs _ has locked)
  ]

  pub setup_app-Tells : (a : App M) (fs : AppFiles) → TellsIn a (setup_app m kdf json cfg t v a fs)
  unfolding setup_app open_app told given
  setup_app-Tells a fs = elim (Bool-cases (has_launch_token cfg v)) [
    | inr e ↦ rw e (silent refl refl)
    | inl e ↦ elim (Bool-cases (key_found t.stats fs.key_file)) [
      | inl f ↦ rw (e, f) (silent refl refl)
      | inr f ↦ rw (e, f) (with_password-Tells true v.password a fs e)
    ]
  ]

  pub unlock_app-Tells :
      (a : App M) (fs : AppFiles) → TellsIn a (unlock_app m kdf json cfg t v a fs)
  unfolding unlock_app open_app told given
  unlock_app-Tells a fs = elim (Bool-cases (has_launch_token cfg v)) [
    | inr e ↦ rw e (silent refl refl)
    | inl e ↦ rw e (with_password-Tells false v.password a fs e)
  ]
