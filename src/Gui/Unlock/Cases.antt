-- ===== src/Gui/Unlock/Cases.antt =====
-- What setting up and unlocking can do to the application.
use mykeep_foundry.Gui.Unlock.{unlocked_now, open_app, setup_app, unlock_app}
use mykeep_foundry.Gui.Unlock.{
  with_component, with_key, open_locked, opened_already, with_password, setup_of,
}
use mykeep_foundry.Prelude.{
  Bool, Bool-cases, Bytes, Option, Result, [], arith, err, false, inl, inr, none, ok, refl, some,
  true, ◌==◌, ◌≡◌, ◌⊎◌,
}
use mykeep_foundry.Host.Text.{text_eq}
use mykeep_foundry.Store.Open.{Drive}
use mykeep_foundry.Server.{with_defaults}
use mykeep_foundry.Secret.{Kdf}
use mykeep_foundry.Registry.Tools.{bound}
use mykeep_foundry.KeyFile.{EnvelopeJson, KeyErr}
use mykeep_foundry.Gui.{
  AppConfig, App, AppFiles, Moment, Visit, Answer, has_launch_token, key_found, session_cookie_name,
}
use mykeep_foundry.Component.Lifecycle.{Unlocks, fails, already, opens, unlock-Unlocks}
use mykeep_foundry.Component.{Machine, Parts, Component, ComponentErr, server_of, new_component}

-- The component was locked, and it now stands unlocked under a fresh session.
pub record Unlocked {M : Type 0} (t : Moment) (before after : App M) : Type 0 where
  pub locked : before.comp ≡ none
  pub component : Component M
  pub parts : Parts M
  pub stands :
      after ≡ record { comp = some component; session = t.fresh_session; last_seen = t.now }
  pub serves : component.parts ≡ some parts
  pub under : parts.srv.opt.control_session ≡ t.fresh_session
  pub cookie_named : parts.srv.opt.session_cookie ≡ session_cookie_name

module _ {M : Type 0} (m : Machine M) (kdf : Kdf) (json : EnvelopeJson) (cfg : AppConfig)
    (t : Moment) where
  abbrev pub Becomes : App M → App M → Type 0
  Becomes a b = (b ≡ a) ⊎ Unlocked t a b

  unlocked_now-Becomes :
      (dek : Bytes) (a : App M) (fs : AppFiles) (c : Component M)
      (r : Result ComponentErr (Unit {0}) × (Component M × Drive))
      → a.comp ≡ none
      → c.parts ≡ none
      → c.setup.human_session ≡ t.fresh_session
      → c.setup.cookie_name ≡ session_cookie_name
      → Unlocks m t.unlocking dek c fs.drive r
      → Becomes a (unlocked_now t t.fresh_session a fs r).1.0
  unfolding unlocked_now
  unlocked_now-Becomes dek a fs c r locked none_yet bound named (fails e) = inl refl
  unlocked_now-Becomes dek a fs c r locked none_yet bound named (already p e) =
      absurd (ground (arith, e, none_yet))
  unlocked_now-Becomes dek a fs c r locked none_yet bound named (opens db after e took has) =
      inr (record {
        locked = locked;
        component = _;
        parts = _;
        stands = refl;
        serves = refl;
        under = unfold server_of with_defaults in bound;
        cookie_named = unfold server_of with_defaults in rw named refl;
      })

  new_component-fresh :
      (c : Component M)
      → ok c ≡ new_component (setup_of cfg t.fresh_session)
      → (c.parts ≡ none)
        × (c.setup.human_session ≡ t.fresh_session)
        × (c.setup.cookie_name ≡ session_cookie_name)
  unfolding new_component setup_of
  new_component-fresh c h = elim (Bool-cases (cfg.data_dir == "")) [
    | inl e ↦ cc (rw e at h)
    | inr e ↦
        let same = rw e at h in (ground (arith, same), ground (arith, same), ground (arith, same))
  ]

  with_component-Becomes :
      (dek : Bytes) (a : App M) (fs : AppFiles) (r : Result ComponentErr (Component M))
      → a.comp ≡ none
      → r ≡ new_component (setup_of cfg t.fresh_session)
      → Becomes a (with_component m t dek a fs r).1.0
  unfolding with_component
  with_component-Becomes dek a fs (err e) locked made = inl refl
  with_component-Becomes dek a fs (ok c) locked made =
      let (none_yet, bound, named) = new_component-fresh c made in
      unlocked_now-Becomes dek a fs c _ locked none_yet bound named
        (unlock-Unlocks m t.unlocking dek c fs.drive)

  with_key-Becomes :
      (a : App M) (fs : AppFiles) (r : Result KeyErr Bytes × Option Bytes)
      → a.comp ≡ none
      → Becomes a (with_key m cfg t a fs r).1.0
  unfolding with_key
  with_key-Becomes a fs (err e, file) locked = inl refl
  with_key-Becomes a fs (ok dek, file) locked =
      with_component-Becomes dek a (record fs { key_file = file }) _ locked refl

  opened_already-Becomes :
      (c : Option (Component M)) (a : App M) (fs : AppFiles)
      (opened_now : Answer × (App M × AppFiles))
      → (c ≡ none → Becomes a opened_now.1.0)
      → Becomes a (opened_already c a fs opened_now).1.0
  unfolding opened_already
  opened_already-Becomes none a fs opened_now h = h refl
  opened_already-Becomes (some c) a fs opened_now h = inl refl

  with_password-Becomes :
      (create : Bool) (pw : Option Bytes) (a : App M) (fs : AppFiles)
      → Becomes a (with_password m kdf json cfg t create pw a fs).1.0
  unfolding with_password
  with_password-Becomes create none a fs = inl refl
  with_password-Becomes create (some pw) a fs = elim (Bool-cases (text_eq pw [])) [
    | inl e ↦ rw e (inl refl)
    | inr e ↦ rw e (
        opened_already-Becomes a.comp a fs _
          λ locked. unfold open_locked in with_key-Becomes a fs _ locked)
  ]

  -- `setup` and `unlock` leave the application as it was, or unlock it for the human who has the launch
  -- token.
  pub setup_app-Becomes :
      (v : Visit) (a : App M) (fs : AppFiles)
      → let after = (setup_app m kdf json cfg t v a fs).1.0 in
        (after ≡ a) ⊎ ((has_launch_token cfg v ≡ true) × Unlocked t a after)
  unfolding setup_app open_app
  setup_app-Becomes v a fs = elim (Bool-cases (has_launch_token cfg v)) [
    | inr e ↦ rw e (inl refl)
    | inl e ↦ elim (Bool-cases (key_found t.stats fs.key_file)) [
      | inl f ↦ rw (e, f) (inl refl)
      | inr f ↦
          rw (e, f)
            (elim (with_password-Becomes true v.password a fs) [
              | inl same ↦ inl same
              | inr opened_now ↦ inr (refl, opened_now)
            ])
    ]
  ]

  pub unlock_app-Becomes :
      (v : Visit) (a : App M) (fs : AppFiles)
      → let after = (unlock_app m kdf json cfg t v a fs).1.0 in
        (after ≡ a) ⊎ ((has_launch_token cfg v ≡ true) × Unlocked t a after)
  unfolding unlock_app open_app
  unlock_app-Becomes v a fs = elim (Bool-cases (has_launch_token cfg v)) [
    | inr e ↦ rw e (inl refl)
    | inl e ↦ rw e (elim (with_password-Becomes false v.password a fs) [
      | inl same ↦ inl same
      | inr opened_now ↦ inr (refl, opened_now)
    ])
  ]
