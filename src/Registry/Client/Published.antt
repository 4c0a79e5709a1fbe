-- ===== src/Registry/Client/Published.antt =====
-- What the registry has published.
use mykeep_foundry.Registry.Client.{Web, Client}
use mykeep_foundry.Registry.Client.{artifact}
use mykeep_foundry.Prelude.{Bytes, [], length, ok, some, ◌++◌, ◌≡◌, ◌≢◌, ◌≤◌}
use mykeep_foundry.Store.State.{Store}
use mykeep_foundry.Registry.Tools.{Registry}
use mykeep_foundry.Registry.Publish.{Press, sign_artifact, pack_tool}
use mykeep_foundry.Registry.Manifest.{Manifest, parse_manifest, canonical}
use mykeep_foundry.Registry.Index.Pack.{ReadsBack}
use mykeep_foundry.Registry.Index.{IndexVersion, Index}
use mykeep_foundry.Host.Text.{codes}

module _ (web : Web) (r : Registry) (press : Press) (priv : Bytes) where
  -- The entry `v` of a catalog is that of the packed and signed tool, and the mirror has its artifact.
  pub record Publishes (c : Client) (m : Manifest) (source : Bytes) (v : IndexVersion)
      : Type 0 where
    pub zipped : Bytes
    pub packed : pack_tool press r.coding m source ≡ some zipped
    pub reads_back : ReadsBack press web.unzip
    pub hashed : web.zip_sha256 zipped ≡ v.zip_sha256
    pub signed_as : v.source_sig ≡ sign_artifact r priv (codes m.name) (codes m.version) source
    pub mirrored : web.http_get (c.base_url ++ codes v.artifact) ≡ some (200, zipped)
    pub fits : length zipped ≤ 16777216

  -- The tool itself: its manifest reads back, and its source is neither empty nor beyond 4 MiB.
  pub record Publishable (m : Manifest) (source : Bytes) : Type 0 where
    pub some_source : source ≢ []
    pub source_fits : length source ≤ 4194304
    pub manifest_fits : length (canonical r.coding m) ≤ 1048576
    pub parses : parse_manifest r.coding (canonical r.coding m) ≡ ok m
