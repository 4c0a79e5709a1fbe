-- ===== src/Registry/Tools/Signs.antt =====
-- An artifact that the registry has signed.
use mykeep_foundry.Registry.Tools.{
  signed, put_if, Registry, source_sha256, marketplace_row, install_marketplace,
}
use mykeep_foundry.Prelude.{
  Bool, Bytes, In, any-found, arith, eqb, length, ok, refl, true, ◌&&◌, ◌↔◌, ◌≡◌,
}
use mykeep_foundry.Store.Tools.{put_tool}
use mykeep_foundry.Store.State.{Env, Store}
use mykeep_foundry.Registry.Sign.{public_key_size, signed_message, by_pinned_key, verify}
use mykeep_foundry.Registry.Publish.{sign_artifact}
use mykeep_foundry.Registry.Manifest.{Manifest}
use mykeep_foundry.Host.Text.{codes}

-- What is relied on of Ed25519: what the private key signs, the public key verifies. The public key is
-- pinned.
pub record Pinned (r : Registry) (priv : Bytes) : Type 0 where
  pub pk : Bytes
  pub pinned : In pk r.pubkeys
  pub full : length pk ≡ public_key_size
  pub verifies : (msg : Bytes) → r.ed25519.check pk msg (r.ed25519.sign priv msg) ≡ true

module _ (r : Registry) (priv : Bytes) (keys : Pinned r priv) where
  stands :
      (msg sig pk : Bytes)
      → ((eqb (length pk) public_key_size && r.ed25519.check pk msg sig) ≡ true)
        ↔ ((length pk ≡ public_key_size) × (r.ed25519.check pk msg sig ≡ true))
  stands msg sig pk = (λ h. ground arith, λ h. ground arith)

  by_pinned_key-sign :
      (msg : Bytes) → by_pinned_key r.ed25519 r.pubkeys msg (r.ed25519.sign priv msg) ≡ true
  unfolding by_pinned_key
  by_pinned_key-sign msg =
      any-found _ _ (stands msg (r.ed25519.sign priv msg)) keys.pk r.pubkeys keys.pinned
        (keys.full, keys.verifies msg)

  -- What the registry has signed is installed.
  pub install_marketplace-sign :
      (env : Env) (m : Manifest) (source : Bytes) (verified : Bool) (s : Store)
      → (put_tool env (marketplace_row r m source verified) s).0 ≡ ok tt
      → install_marketplace r env m source
          (sign_artifact r priv (codes m.name) (codes m.version) source)
          verified
          s
        ≡ (ok tt, (put_tool env (marketplace_row r m source verified) s).1)
  unfolding install_marketplace signed verify put_if sign_artifact
  install_marketplace-sign env m source verified s put =
      rw
        (by_pinned_key-sign
          (signed_message (codes m.name) (codes m.version) (codes (source_sha256 r source))))
        (rw put refl)
