-- ===== src/Tests/Market.antt =====
-- The registry and its client at concrete inputs.
use mykeep_foundry.Prelude.{
  Bool, Bytes, In, Option, String, [], arith, eqb, err, false, if◌then◌else◌, length, none, ok,
  refl, some, true, ℕ, ◌++◌, ◌==◌, ◌∷◌, ◌≡◌, ◌⊎◌,
}
use mykeep_foundry.Store.Tools.{
  select_tool, upsert_tool, put_tool, get_tool, put_grant, get_grant, installed, select_grant,
  upsert_grant,
}
use mykeep_foundry.Store.State.{Store}
use mykeep_foundry.Registry.Tools.Consent.{install_marketplace-signed, grant-stale, grant-set_grant}
use mykeep_foundry.Registry.Tools.{
  Registry, source_sha256, install_dev, install_marketplace, get, set_grant, grant,
}
use mykeep_foundry.Registry.Sign.{
  Ed25519, public_key_size, signed_message, by_pinned_key, verify, signed_message-injective,
  signed_message-ambiguous,
}
use mykeep_foundry.Registry.Manifest.{
  Capabilities, Manifest, Grant, Coding, manifest_changed, with_namespace, wall_default,
  parse_manifest, canonical, hash, wall_default-overflow,
}
use mykeep_foundry.Prelude.Int.{pos, ltb_ℤ}
use mykeep_foundry.Host.Text.{codes, text_eq}
use mykeep_foundry.Tests.{differ, quiet, afterwards, notes, times}

abbrev no_capabilities : Capabilities
no_capabilities = record {
  hosts = [];
  credentials = [];
  namespace = "clock";
  quota_bytes = pos 0;
  mem_pages = 0;
  wall_ms = pos 9300000000000;
}

abbrev clock1 : Manifest
clock1 = record {
  name = "clock";
  version = "1";
  description = "";
  author = "";
  params_schema = [];
  capabilities = no_capabilities;
}

abbrev pub clock2 : Manifest
clock2 = record clock1 { version = "2" }

abbrev pub approved : Grant
approved = record {
  hosts = [];
  vault_creds = [];
  namespace = "clock";
  quota_bytes = pos 0;
  wall = pos 1000;
  mem_pages = 16;
  manifest_hash = "one";
}

abbrev starts : ℕ → Bytes → Bool
starts n [] = false
starts n (x ∷ b) = eqb x n

abbrev decode_manifest : Bytes → Option Manifest
decode_manifest b = if starts 1 b then some clock1 else if starts 2 b then some clock2 else none

abbrev sha256_hex : Bytes → String
sha256_hex b = if starts 1 b then "one" else if starts 2 b then "two" else "many"

-- A JSON of two manifests and one grant.
abbrev coding : Coding
coding = record {
  decode_manifest = decode_manifest;
  marshal_manifest = λ m. if m.version == "1" then 1 ∷ [] else 2 ∷ [];
  marshal_grant = λ g. 7 ∷ [];
  decode_grant = λ b. some approved;
  sha256_hex = sha256_hex;
}

-- A signature is the message itself.
abbrev echoing : Ed25519
echoing = record { check = λ pk msg sig. text_eq msg sig; sign = λ pk msg. msg }

abbrev pub market : Registry
market = record { coding = coding; ed25519 = echoing; pubkeys = times 32 ∷ [] }

abbrev pub sig2 : Bytes
sig2 = signed_message (codes "clock") (codes "2") (codes "many")

-- The first version is installed from a folder, and granted.
abbrev with_clock1 : Store
with_clock1 = (install_dev market quiet clock1 (5 ∷ []) notes).1

abbrev pub with_grant : Store
with_grant = (set_grant market quiet "clock" approved with_clock1).1

wall_default-overflow_example : ltb_ℤ (pos 0) (wall_default clock1) ≡ false
wall_default-overflow_example =
    wall_default-overflow clock1 9300000000000 refl (omega arith) (omega arith)

signed_message-injective_example :
    (codes "clock" ≡ codes "clock") × (codes "1" ≡ codes "1") × (codes "s" ≡ codes "s")
signed_message-injective_example =
    signed_message-injective (codes "clock") (codes "1") (codes "s") (codes "clock") (codes "1")
      (codes "s") (ground arith) (ground arith) (ground arith) (ground arith) refl

signed_message-ambiguous_example :
    signed_message (codes "a" ++ b'\n' ∷ codes "b") (codes "c") (codes "s")
    ≡ signed_message (codes "a") (codes "b" ++ b'\n' ∷ codes "c") (codes "s")
signed_message-ambiguous_example =
    signed_message-ambiguous (codes "a") (codes "b") (codes "c") (codes "s")

install_marketplace-signed_example :
    ((install_marketplace market quiet clock2 (5 ∷ []) sig2 true notes).1 ≡ notes)
    ⊎ ((pk : Bytes) × In pk market.pubkeys
        × ((length pk ≡ public_key_size)
            × (market.ed25519.check pk
                  (signed_message
                    (codes "clock")
                    (codes "2")
                    (codes (source_sha256 market (5 ∷ []))))
                  sig2
                ≡ true)))
install_marketplace-signed_example =
    install_marketplace-signed market quiet clock2 (5 ∷ []) sig2 true notes

pub granted_now : grant market afterwards "clock" with_grant ≡ ok approved
unfolding install_dev put_tool set_grant get get_tool put_grant parse_manifest with_namespace
    upsert_tool select_tool hash source_sha256 canonical installed
granted_now =
    grant-set_grant market quiet afterwards "clock" approved
      (record { manifest = clock1; source = 5 ∷ []; class = "dev"; verified = false }) with_clock1
      refl refl refl (refl, refl) (refl, refl)

grant-stale_example :
    grant market afterwards "clock"
      (install_marketplace market quiet clock2 (5 ∷ []) sig2 true with_grant).1
    ≡ err manifest_changed
unfolding install_dev put_tool set_grant get get_tool put_grant get_grant parse_manifest
    with_namespace upsert_tool select_tool hash source_sha256 canonical install_marketplace verify
    by_pinned_key text_eq select_grant installed upsert_grant
grant-stale_example =
    grant-stale market quiet afterwards clock2 (5 ∷ []) sig2 true with_grant (7 ∷ []) "one" refl
      refl refl (differ "one" "two" refl) refl
