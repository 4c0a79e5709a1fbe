-- ===== src/Store/Tools.antt =====
-- internal/store/tools.go: the installed tools and their grants.
pub mod ReadBack
use Prim.Native.Nat.{Ordering}
use Prim.Native.String.{compare}
use mathlib.Core.Option
use mykeep_foundry.Prelude.{
  Bool, Bytes, List, Option, Result, String, [], eqb, err, false, if◌then◌else◌, map, none, not, ok,
  some, true, ℕ, ◌==◌, ◌∷◌, ◌>>=◌, ◌>>◌,
}
use mykeep_foundry.Store.State.{
  ToolRow, InstalledTool, GrantRow, tools_upsert, tools_select, tools_list, tools_delete,
  grants_upsert, grants_select, grants_delete, StoreErr, driver, Env, now_ms, Store, mark_dirty,
  exec, query,
}

unfoldable pub b2i : Bool → ℕ
b2i b = if b then 1 else 0

-- `t.Verified = verified != 0`, and the columns that `GetTool` reads.
abbrev pub loaded : InstalledTool → ToolRow
loaded r = record {
  name = r.name;
  version = r.version;
  class = r.class;
  manifest = r.manifest;
  source = r.source;
  source_sha = r.source_sha;
  verified = not (eqb r.verified 0);
}

-- `ListTools` does not read the source.
abbrev pub listed : InstalledTool → ToolRow
listed r = record {
  name = r.name;
  version = r.version;
  class = r.class;
  manifest = r.manifest;
  source = [];
  source_sha = r.source_sha;
  verified = not (eqb r.verified 0);
}

unfoldable pub installed : Env → ToolRow → InstalledTool
unfolding b2i
installed env t = record {
  name = t.name;
  version = t.version;
  class = t.class;
  manifest = t.manifest;
  source = t.source;
  source_sha = t.source_sha;
  verified = b2i t.verified;
  installed_at = now_ms env;
}

-- WHERE name=?
unfoldable pub select_tool : String → List InstalledTool → Option InstalledTool
select_tool name [] = none
select_tool name (r ∷ t) = if r.name == name then some r else select_tool name t

-- INSERT INTO tools … ON CONFLICT(name) DO UPDATE SET …
unfoldable pub upsert_tool : InstalledTool → List InstalledTool → List InstalledTool
upsert_tool r [] = r ∷ []
upsert_tool r (x ∷ t) = if x.name == r.name then r ∷ t else x ∷ upsert_tool r t

-- DELETE FROM tools WHERE name=?
unfoldable pub delete_row : String → List InstalledTool → List InstalledTool
delete_row name [] = []
delete_row name (r ∷ t) = let rest = delete_row name t in if r.name == name then rest else r ∷ rest

-- WHERE tool=?
unfoldable pub select_grant : String → List GrantRow → Option GrantRow
select_grant tool [] = none
select_grant tool (g ∷ t) = if g.tool == tool then some g else select_grant tool t

-- INSERT INTO grants … ON CONFLICT(tool) DO UPDATE SET …
unfoldable pub upsert_grant : GrantRow → List GrantRow → List GrantRow
upsert_grant g [] = g ∷ []
upsert_grant g (x ∷ t) = if x.tool == g.tool then g ∷ t else x ∷ upsert_grant g t

-- DELETE FROM grants WHERE tool=?
unfoldable pub delete_grant : String → List GrantRow → List GrantRow
delete_grant tool [] = []
delete_grant tool (g ∷ t) =
    let rest = delete_grant tool t in if g.tool == tool then rest else g ∷ rest

-- ORDER BY name, by the bytes of the names.
unfoldable pub name_before : InstalledTool → InstalledTool → Bool
name_before a b = elim (compare a.name b.name) [ Ordering.gt ↦ false | _ ↦ true ]

unfoldable pub insert_by_name : InstalledTool → List InstalledTool → List InstalledTool
unfolding name_before
insert_by_name r [] = r ∷ []
insert_by_name r (x ∷ t) = if name_before r x then r ∷ x ∷ t else x ∷ insert_by_name r t

unfoldable pub by_name : List InstalledTool → List InstalledTool
unfolding insert_by_name
by_name [] = []
by_name (r ∷ t) = insert_by_name r (by_name t)

unfoldable pub put_tool : Env → ToolRow → Store → Result StoreErr (Unit {0}) × Store
unfolding exec
put_tool env t s =
    exec env tools_upsert (λ db. record db { tools = upsert_tool (installed env t) db.tools }) s

unfoldable pub get_tool : Env → String → Store → Result StoreErr (Option ToolRow)
unfolding query
get_tool env name s = do
  row ← query env tools_select (select_tool name s.db.tools)
  ok (Option.map loaded row)

unfoldable pub list_tools : Env → Store → Result StoreErr (List ToolRow)
unfolding query
list_tools env s = do rows ← query env tools_list (by_name s.db.tools); ok (map listed rows)

-- The second statement's failure leaves the first one's deletion in the database, and the store is
-- then not marked dirty.
unfoldable pub delete_tool : Env → String → Store → Result StoreErr (Unit {0}) × Store
unfolding mark_dirty
delete_tool env name s =
    if env.fails tools_delete
    then (err driver, s)
    else let t = record s { db = record s.db { tools = delete_row name s.db.tools } } in
      if env.fails grants_delete then (err driver, t) else (
        ok tt,
        mark_dirty env (record t { db = record t.db { grants = delete_grant name t.db.grants } }),
      )

abbrev pub grant_row : Env → String → Bytes → String → GrantRow
grant_row env tool caps sha = record {
  tool = tool;
  caps = caps;
  manifest_sha = sha;
  granted_at = now_ms env;
}

unfoldable pub put_grant :
    Env → String → Bytes → String → Store → Result StoreErr (Unit {0}) × Store
unfolding exec
put_grant env tool caps sha s =
    exec env grants_upsert
      (λ db. record db { grants = upsert_grant (grant_row env tool caps sha) db.grants }) s

unfoldable pub get_grant : Env → String → Store → Result StoreErr (Option (Bytes × String))
unfolding query
get_grant env tool s = do
  row ← query env grants_select (select_grant tool s.db.grants)
  ok (Option.map (λ g. (g.caps, g.manifest_sha)) row)
