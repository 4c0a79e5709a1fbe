-- ===== src/Registry/Tools.antt =====
-- internal/registry/registry.go: installing, loading and granting tools over the store.
pub mod Consent
pub mod Signs
use mykeep_foundry.Prelude.{
  Bool, Bytes, List, Option, Result, String, [], err, false, if◌then◌else◌, none, ok, some, ◌==◌,
  ◌∷◌, ◌>>=◌, ◌>>◌,
}
use mykeep_foundry.Store.Tools.{put_tool, get_tool, list_tools, delete_tool, put_grant, get_grant}
use mykeep_foundry.Store.State.{ToolRow, StoreErr, Env, Store}
use mykeep_foundry.Registry.Sign.{Ed25519, verify}
use mykeep_foundry.Registry.Manifest.{
  of_store, Manifest, Grant, Coding, RegErr, not_installed, bad_json, not_granted, manifest_changed,
  parse_manifest, canonical, hash,
}
use mykeep_foundry.Host.Text.{codes}

abbrev pub class_dev : String
class_dev = "dev"

abbrev pub class_marketplace : String
class_marketplace = "marketplace"

-- `Tool`; the source is a byte string.
pub record Tool : Type 0 where
  pub manifest : Manifest
  pub source : Bytes
  pub class : String
  pub verified : Bool

-- `Registry`, less the store: the pinned keys, with the packages that it uses.
pub record Registry : Type 0 where
  pub coding : Coding
  pub ed25519 : Ed25519
  pub pubkeys : List Bytes

-- The store's error as the registry's.
abbrev pub lifted {ℓ} : {A : Type ℓ} → Result StoreErr A → Result RegErr A
lifted (ok a) = ok a
lifted (err e) = err (of_store e)

module _ (r : Registry) where
  -- `sourceSHA256`
  unfoldable pub source_sha256 : Bytes → String
  source_sha256 source = r.coding.sha256_hex source

  abbrev pub dev_row : Manifest → Bytes → ToolRow
  dev_row m source = record {
    name = m.name;
    version = m.version;
    class = class_dev;
    manifest = canonical r.coding m;
    source = source;
    source_sha = source_sha256 source;
    verified = false;
  }

  abbrev pub marketplace_row : Manifest → Bytes → Bool → ToolRow
  marketplace_row m source verified = record {
    name = m.name;
    version = m.version;
    class = class_marketplace;
    manifest = canonical r.coding m;
    source = source;
    source_sha = source_sha256 source;
    verified = verified;
  }

  -- `InstallDev`
  unfoldable pub install_dev : Env → Manifest → Bytes → Store → Result RegErr (Unit {0}) × Store
  install_dev env m source s = let (res, s') = put_tool env (dev_row m source) s in (lifted res, s')

  signed : Manifest → Bytes → Bytes → Result RegErr (Unit {0})
  signed m source sig =
      verify r.ed25519 r.pubkeys (codes m.name) (codes m.version) (codes (source_sha256 source)) sig

  put_if : Result RegErr (Unit {0}) → Env → ToolRow → Store → Result RegErr (Unit {0}) × Store
  put_if (ok _) env row s = let (res, s') = put_tool env row s in (lifted res, s')
  put_if (err e) env row s = (err e, s)

  -- `InstallMarketplace`
  unfoldable pub install_marketplace :
      Env → Manifest → Bytes → Bytes → Bool → Store → Result RegErr (Unit {0}) × Store
  unfolding signed put_if
  install_marketplace env m source sig verified s =
      put_if (signed m source sig) env (marketplace_row m source verified) s

  tool_of : String → Option ToolRow → Result RegErr Tool
  tool_of name none = err (not_installed name)
  tool_of name (some row) = do
    m ← parse_manifest r.coding row.manifest
    ok (record { manifest = m; source = row.source; class = row.class; verified = row.verified })

  -- `Get`
  unfoldable pub get : Env → String → Store → Result RegErr Tool
  unfolding tool_of
  get env name s = do row ← lifted (get_tool env name s); tool_of name row

  tools_of : List ToolRow → Result RegErr (List Tool)
  tools_of [] = ok []
  tools_of (row ∷ rows) = do
    m ← parse_manifest r.coding row.manifest
    rest ← tools_of rows
    ok (record { manifest = m; source = []; class = row.class; verified = row.verified } ∷ rest)

  -- `List`
  unfoldable pub list : Env → Store → Result RegErr (List Tool)
  unfolding tools_of
  list env s = do rows ← lifted (list_tools env s); tools_of rows

  -- `Remove`
  unfoldable pub remove : Env → String → Store → Result RegErr (Unit {0}) × Store
  remove env name s = let (res, s') = delete_tool env name s in (lifted res, s')

  -- The grant as `SetGrant` records it.
  abbrev pub bound : Grant → Tool → Grant
  bound g t = record g { manifest_hash = hash r.coding t.manifest }

  put_bound : Env → String → Grant → Result RegErr Tool → Store → Result RegErr (Unit {0}) × Store
  put_bound env name g (err e) s = (err e, s)
  put_bound env name g (ok t) s =
      let (res, s') =
        put_grant env name (r.coding.marshal_grant (bound g t)) (hash r.coding t.manifest) s in
      (lifted res, s')

  -- `SetGrant`
  unfoldable pub set_grant : Env → String → Grant → Store → Result RegErr (Unit {0}) × Store
  unfolding put_bound
  set_grant env name g s = put_bound env name g (get env name s) s

  decoded : Option Grant → Result RegErr Grant
  decoded none = err bad_json
  decoded (some g) = ok g

  checked : Tool → Option (Bytes × String) → Result RegErr Grant
  unfolding decoded
  checked t none = err not_granted
  checked t (some (caps, sha)) =
      if sha == hash r.coding t.manifest
      then decoded (r.coding.decode_grant caps)
      else err manifest_changed

  -- `Grant`
  unfoldable pub grant : Env → String → Store → Result RegErr Grant
  unfolding checked
  grant env name s = do t ← get env name s; row ← lifted (get_grant env name s); checked t row
