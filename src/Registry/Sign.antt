-- ===== src/Registry/Sign.antt =====
-- internal/registry/sign.go: the registry's signature of an artifact. Ed25519 is a parameter.
use mathlib.Core.List.{append_assoc}
use mykeep_foundry.Prelude.{
  All, Bool, Bytes, List, Result, [], any, arith, eqb, err, if◌then◌else◌, length, ok, refl, ℕ,
  ◌&&◌, ◌++◌, ◌∷◌, ◌≡◌, ◌≢◌,
}
use mykeep_foundry.Registry.Manifest.{RegErr, bad_signature}
use mykeep_foundry.Host.Text.{Text}

-- `ed25519.Verify` and `ed25519.Sign`.
pub record Ed25519 : Type 0 where
  pub check : Bytes → Bytes → Bytes → Bool
  pub sign : Bytes → Bytes → Bytes

abbrev pub public_key_size : ℕ
public_key_size = 32

-- `signedMessage`
unfoldable pub signed_message : Text → Text → Text → Bytes
signed_message name version sha = name ++ b'\n' ∷ (version ++ b'\n' ∷ sha)

-- The loop of `verify` and of `verifyIndex` over the pinned keys.
unfoldable pub by_pinned_key : Ed25519 → List Bytes → Bytes → Bytes → Bool
by_pinned_key e keys msg sig =
    any (λ pk. eqb (length pk) public_key_size && e.check pk msg sig) keys

-- `verify`
unfoldable pub verify : Ed25519 → List Bytes → Text → Text → Text → Bytes → Result RegErr (Unit {0})
unfolding signed_message
verify e keys name version sha sig =
    if by_pinned_key e keys (signed_message name version sha) sig then ok tt else err bad_signature

-- No newline stands in the text.
abbrev pub IsLine : Text → Type 0
IsLine = All (λ c. c ≢ b'\n')

split_line :
    (s t u v : Text) → IsLine s → IsLine t → s ++ b'\n' ∷ u ≡ t ++ b'\n' ∷ v → (s ≡ t) × (u ≡ v)
split_line [] [] u v hs ht e = (refl, ground arith)
split_line [] (c ∷ t) u v hs ht e = absurd (ht.0 (ground arith))
split_line (c ∷ s) [] u v hs ht e = absurd (hs.0 (ground arith))
split_line (c ∷ s) (d ∷ t) u v hs ht e =
    let rest = split_line s t u v hs.1 ht.1 (ground arith) in (ground arith, rest.1)

-- Of names and versions without a newline, a signed message stands for one artifact only.
pub signed_message-injective :
    (name version sha name' version' sha' : Text)
    → IsLine name
    → IsLine version
    → IsLine name'
    → IsLine version'
    → signed_message name version sha ≡ signed_message name' version' sha'
    → (name ≡ name') × (version ≡ version') × (sha ≡ sha')
unfolding signed_message
signed_message-injective name version sha name' version' sha' n v n' v' e =
    let first = split_line name name' _ _ n n' e in
    let second = split_line version version' sha sha' v v' first.1 in (first.0, second.0, second.1)

-- With a newline in a name two artifacts share a message, and so a signature: whatever the texts,
-- the name and the version may be cut at either newline.
pub signed_message-ambiguous :
    (a b c sha : Text)
    → signed_message (a ++ b'\n' ∷ b) c sha ≡ signed_message a (b ++ b'\n' ∷ c) sha
unfolding signed_message
signed_message-ambiguous a b c sha = simp append_assoc
