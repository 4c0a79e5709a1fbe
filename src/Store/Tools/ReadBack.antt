-- ===== src/Store/Tools/ReadBack.antt =====
-- What the tables of tools and grants return after a write that succeeded.
use mykeep_foundry.Store.Tools.{
  grant_row, installed, select_tool, upsert_tool, delete_row, select_grant, upsert_grant,
  delete_grant, put_tool, get_tool, delete_tool, put_grant, get_grant,
}
use mykeep_foundry.Prelude.{
  Bytes, List, String, [], arith, eq_iff, false, if◌then◌else◌, none, ok, refl, some, ◌==◌, ◌∷◌,
  ◌≡◌,
}
use mykeep_foundry.Store.State.{
  ToolRow, InstalledTool, GrantRow, tools_select, grants_select, Env, Store,
}

pub select_tool-upsert :
    (name : String) (r : InstalledTool) (t : List InstalledTool)
    → select_tool name (upsert_tool r t) ≡ (if r.name == name then some r else select_tool name t)
unfolding select_tool upsert_tool
select_tool-upsert name r [] = refl
select_tool-upsert name r (x ∷ t) = ground (
  arith,
  eq_iff x.name r.name,
  eq_iff x.name name,
  eq_iff r.name name,
  select_tool-upsert name r t,
)

pub select_tool-delete :
    (name j : String) (t : List InstalledTool)
    → select_tool j (delete_row name t) ≡ (if name == j then none else select_tool j t)
unfolding select_tool delete_row
select_tool-delete name j [] = ground arith
select_tool-delete name j (x ∷ t) =
    ground (arith, eq_iff x.name name, eq_iff x.name j, eq_iff name j, select_tool-delete name j t)

pub select_grant-upsert :
    (tool : String) (g : GrantRow) (t : List GrantRow)
    → select_grant tool (upsert_grant g t)
      ≡ (if g.tool == tool then some g else select_grant tool t)
unfolding select_grant upsert_grant
select_grant-upsert tool g [] = refl
select_grant-upsert tool g (x ∷ t) = ground (
  arith,
  eq_iff x.tool g.tool,
  eq_iff x.tool tool,
  eq_iff g.tool tool,
  select_grant-upsert tool g t,
)

pub select_grant-delete :
    (tool j : String) (t : List GrantRow)
    → select_grant j (delete_grant tool t) ≡ (if tool == j then none else select_grant j t)
unfolding select_grant delete_grant
select_grant-delete tool j [] = ground arith
select_grant-delete tool j (x ∷ t) =
    ground (arith, eq_iff x.tool tool, eq_iff x.tool j, eq_iff tool j, select_grant-delete tool j t)

-- After a `PutTool` that succeeded, a `GetTool` whose statement works returns the tool as it was put,
-- and of another name what it returned before.
pub get_tool-put_tool :
    (env later : Env) (t : ToolRow) (name : String) (s : Store)
    → (put_tool env t s).0 ≡ ok tt
    → later.fails tools_select ≡ false
    → get_tool later name (put_tool env t s).1
      ≡ (if t.name == name then ok (some t) else get_tool later name s)
unfolding put_tool get_tool installed
get_tool-put_tool env later t name s done works =
    ground (arith, select_tool-upsert name (installed env t) s.db.tools)

-- After a `PutGrant` that succeeded, a `GetGrant` whose statement works returns what was put for that
-- tool, and for another what it returned before.
pub get_grant-put_grant :
    (env later : Env) (tool j : String) (caps : Bytes) (sha : String) (s : Store)
    → (put_grant env tool caps sha s).0 ≡ ok tt
    → later.fails grants_select ≡ false
    → get_grant later j (put_grant env tool caps sha s).1
      ≡ (if tool == j then ok (some (caps, sha)) else get_grant later j s)
unfolding put_grant get_grant
get_grant-put_grant env later tool j caps sha s done works =
    ground (arith, select_grant-upsert j (grant_row env tool caps sha) s.db.grants)

-- After a `DeleteTool` that succeeded neither the tool nor its grant is found, and the tools and
-- grants of other names are what they were.
pub delete_tool_lem :
    (env later : Env) (name j : String) (s : Store)
    → (delete_tool env name s).0 ≡ ok tt
    → later.fails tools_select ≡ false
    → later.fails grants_select ≡ false
    → (get_tool later j (delete_tool env name s).1
        ≡ (if name == j then ok none else get_tool later j s))
      × (get_grant later j (delete_tool env name s).1
          ≡ (if name == j then ok none else get_grant later j s))
unfolding delete_tool get_tool get_grant
delete_tool_lem env later name j s done reads_tools reads_grants = (
  ground (arith, select_tool-delete name j s.db.tools),
  ground (arith, select_grant-delete name j s.db.grants),
)
