-- ===== src/Registry/Publish.antt =====
-- internal/registry/index.go and internal/registry/sign.go: the publishing side. The writer of
-- `archive/zip` and the JSON of the catalog are parameters.
use mykeep_foundry.Prelude.{Bytes, List, Option, [], ◌∷◌}
use mykeep_foundry.Registry.Tools.{Registry, source_sha256}
use mykeep_foundry.Registry.Sign.{Ed25519, signed_message}
use mykeep_foundry.Registry.Manifest.{Manifest, Coding, canonical}
use mykeep_foundry.Registry.Index.{Index}
use mykeep_foundry.Host.Text.{Text, codes}

-- What publishing uses: the writer of archives (none where it fails), and `json.Marshal` of a catalog.
pub record Press : Type 0 where
  pub zip_members : List (Text × Bytes) → Option Bytes
  pub marshal_index : Index → Bytes

-- `CanonicalIndex`
unfoldable pub canonical_index : Press → Index → Bytes
canonical_index press idx = press.marshal_index idx

-- `SignIndex`
unfoldable pub sign_index : Press → Ed25519 → Bytes → Index → Bytes
unfolding canonical_index
sign_index press e priv idx = e.sign priv (canonical_index press idx)

-- `Sign`
unfoldable pub sign_artifact : Registry → Bytes → Text → Text → Bytes → Bytes
unfolding signed_message source_sha256
sign_artifact r priv name version source =
    r.ed25519.sign priv (signed_message name version (codes (source_sha256 r source)))

-- `PackTool`
unfoldable pub pack_tool : Press → Coding → Manifest → Bytes → Option Bytes
unfolding canonical
pack_tool press c m source =
    press.zip_members ((codes "manifest.json", canonical c m) ∷ (codes "tool.js", source) ∷ [])
