-- ===== src/Registry/Manifest.antt =====
-- internal/registry/manifest.go and internal/registry/grant.go. `encoding/json` and SHA-256 are
-- parameters.
use mykeep_foundry.Prelude.{
  Bytes, List, Option, Option-cases, Result, String, arith, eq_iff, eqb, err, false, if◌then◌else◌,
  inl, inr, none, ok, some, true, ℕ, ◌*◌, ◌==◌, ◌||◌, ◌≡◌, ◌≢◌, ◌≤◌,
}
use mykeep_foundry.Store.State.{StoreErr}
use mykeep_foundry.Prelude.Int.{ℤ, pos, pos_part, ltb_ℤ, int64, int64-pos}

-- `Capabilities`, its four groups side by side.
pub record Capabilities : Type 0 where
  pub hosts : List String
  pub credentials : List String
  pub namespace : String
  pub quota_bytes : ℤ
  pub mem_pages : ℕ
  pub wall_ms : ℤ

pub record Manifest : Type 0 where
  pub name : String
  pub version : String
  pub description : String
  pub author : String
  pub params_schema : Bytes
  pub capabilities : Capabilities

-- `Grant`; `wall` is a duration in nanoseconds.
pub record Grant : Type 0 where
  pub hosts : List String
  pub vault_creds : List String
  pub namespace : String
  pub quota_bytes : ℤ
  pub wall : ℤ
  pub mem_pages : ℕ
  pub manifest_hash : String

-- What the registry uses of `encoding/json` and `crypto/sha256`: the decoder that refuses unknown
-- fields, `json.Marshal` and `json.Unmarshal`, and the hash in hex.
pub record Coding : Type 0 where
  pub decode_manifest : Bytes → Option Manifest
  pub marshal_manifest : Manifest → Bytes
  pub marshal_grant : Grant → Bytes
  pub decode_grant : Bytes → Option Grant
  pub sha256_hex : Bytes → String

pub data RegErr : Type 0 where
  of_store : StoreErr → RegErr
  not_installed : String → RegErr
  bad_json name_and_version_required bad_signature : RegErr
  not_granted manifest_changed : RegErr

-- The namespace defaults to the tool's name.
unfoldable pub with_namespace : Manifest → Manifest
with_namespace m =
    if m.capabilities.namespace == ""
    then record m { capabilities = record m.capabilities { namespace = m.name } }
    else m

-- `wallDefault`; the product is an int64.
unfoldable pub wall_default : Manifest → ℤ
wall_default m =
    if ltb_ℤ (pos 0) m.capabilities.wall_ms
    then int64 (pos (pos_part m.capabilities.wall_ms * 1000000))
    else pos 5000000000

-- `jsengine.DefaultLimits.MemPages`
abbrev pub default_mem_pages : ℕ
default_mem_pages = 1024

module _ (c : Coding) where
  -- The checks of `ParseManifest` behind the decoder.
  validated : Option Manifest → Result RegErr Manifest
  unfolding with_namespace
  validated none = err bad_json
  validated (some m) =
      if m.name == "" || m.version == ""
      then err name_and_version_required
      else ok (with_namespace m)

  -- `ParseManifest`
  unfoldable pub parse_manifest : Bytes → Result RegErr Manifest
  unfolding validated
  parse_manifest b = validated (c.decode_manifest b)

  -- `Canonical`
  unfoldable pub canonical : Manifest → Bytes
  canonical m = c.marshal_manifest m

  -- `Hash`
  unfoldable pub hash : Manifest → String
  unfolding canonical
  hash m = c.sha256_hex (canonical m)

  -- `DefaultGrant`
  unfoldable pub default_grant : Manifest → Grant
  unfolding wall_default hash
  default_grant m = record {
    hosts = m.capabilities.hosts;
    vault_creds = m.capabilities.credentials;
    namespace = m.capabilities.namespace;
    quota_bytes = m.capabilities.quota_bytes;
    wall = wall_default m;
    mem_pages =
        if eqb m.capabilities.mem_pages 0 then default_mem_pages else m.capabilities.mem_pages;
    manifest_hash = hash m;
  }

  -- A parsed manifest has a name, a version and a namespace, and is the decoder's but for the
  -- namespace.
  pub parse_manifest-ok :
      (b : Bytes) {m : Manifest}
      → parse_manifest b ≡ ok m
      → (m.name ≢ "") × (m.version ≢ "") × (m.capabilities.namespace ≢ "")
  unfolding parse_manifest with_namespace
  parse_manifest-ok b {m} h = elim (Option-cases (c.decode_manifest b)) [
    | inl e ↦ ground arith
    | inr (d, e) ↦ ground (
      arith,
      eq_iff d.name "",
      eq_iff d.version "",
      eq_iff d.capabilities.namespace "",
      eq_iff m.name "",
      eq_iff m.version "",
      eq_iff m.capabilities.namespace "",
    )
  ]

-- The default wall clock is positive, if the manifest asks for at most 9223372036854 milliseconds.
pub wall_default-pos :
    (m : Manifest)
    → pos_part m.capabilities.wall_ms ≤ 9223372036854
    → ltb_ℤ (pos 0) (wall_default m) ≡ true
unfolding wall_default
wall_default-pos m h = ground (arith, int64-pos (pos_part m.capabilities.wall_ms * 1000000))

-- A manifest that asks for more, up to twice as much, gets a negative one: the product overflows.
pub wall_default-overflow :
    (m : Manifest) (ms : ℕ)
    → m.capabilities.wall_ms ≡ pos ms
    → 9223372036855 ≤ ms
    → ms ≤ 18446744073709
    → ltb_ℤ (pos 0) (wall_default m) ≡ false
unfolding wall_default int64
wall_default-overflow m ms e low high = ground arith
