-- ===== src/Server/Use/Catalog.antt =====
-- What the catalog of the USE plane shows.
use mykeep_foundry.Prelude.{In, List, Option, ok, ℕ, ◌≡◌}
use mykeep_foundry.Store.State.{Env, Store}
use mykeep_foundry.Server.{UseEntry, Server}
use mykeep_foundry.Registry.Tools.{class_marketplace, Tool, grant}
use mykeep_foundry.Registry.Manifest.{Grant}
use mykeep_foundry.Registry.Client.{Client}

module _ {M : Type 0} (srv : Server M) (moments : ℕ → Env) (s : Store)
    (market : Option Client) where
  -- What stands behind an entry of the catalog.
  pub record Offered (ts : List Tool) (e : UseEntry) : Type 0 where
    pub tool : Tool
    pub listed : In tool ts
    pub shown : e.name ≡ tool.manifest.name
    pub reviewed : tool.class ≡ class_marketplace
    pub access : ℕ
    pub given : Grant
    pub approved : grant srv.rt.registry (moments access) tool.manifest.name s ≡ ok given
