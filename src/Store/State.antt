-- ===== src/Store/State.antt =====
-- internal/store/store.go, internal/store/tools.go: the database of the schema, the fields of
-- `Store` that a call changes, and what the machine decides for a call: the clock, and which SQL
-- statements the driver fails. A statement that fails has changed nothing.
use mykeep_foundry.Prelude.{
  Bool, Bytes, List, Option, Result, String, [], arith, err, false, if◌then◌else◌, none, ok, some,
  true, ℕ, ◌+◌, ◌/◌, ◌≡◌,
}
use mykeep_foundry.Prelude.Int.{ℤ, u64}
use mykeep_foundry.Store.Tables.{Row}

-- A row of `queue`.
pub record Message : Type 0 where
  pub ns : String
  pub name : String
  pub id : ℕ
  pub msg : Bytes
  pub bytes : ℕ
  pub enq_at : ℕ

-- `ToolRow`; `Class` and the hashes are texts.
pub record ToolRow : Type 0 where
  pub name : String
  pub version : String
  pub class : String
  pub manifest : Bytes
  pub source : Bytes
  pub source_sha : String
  pub verified : Bool

-- A row of `tools`.
pub record InstalledTool : Type 0 where
  pub name : String
  pub version : String
  pub class : String
  pub manifest : Bytes
  pub source : Bytes
  pub source_sha : String
  pub verified : ℕ
  pub installed_at : ℕ

-- A row of `grants`.
pub record GrantRow : Type 0 where
  pub tool : String
  pub caps : Bytes
  pub manifest_sha : String
  pub granted_at : ℕ

-- The tables of `schema` that the program reads or writes. `sequence` is what AUTOINCREMENT keeps
-- for `queue`. Nothing in the program touches the table `audit`.
pub record Db : Type 0 where
  pub kv : List Row
  pub queue : List Message
  pub sequence : ℕ
  pub cache : List Row
  pub blob : List Row
  pub quota : List (String × ℤ)
  pub tools : List InstalledTool
  pub grants : List GrantRow

-- The statements that the store sends to the driver.
pub data Stmt : Type 0 where
  kv_upsert kv_select kv_delete kv_bytes kv_sum : Stmt
  queue_insert queue_pop_stmt queue_sum : Stmt
  cache_upsert cache_select cache_delete cache_bytes cache_sum : Stmt
  blob_upsert blob_select blob_bytes blob_sum : Stmt
  quota_select quota_upsert : Stmt
  tools_upsert tools_select tools_list tools_delete : Stmt
  grants_upsert grants_select grants_delete : Stmt

pub data StoreErr : Type 0 where
  err_quota driver : StoreErr

-- What the machine decides for one call: the clock, in nanoseconds since 1970, and the statements
-- that fail.
pub record Env : Type 0 where
  pub clock : ℕ
  pub fails : Stmt → Bool

-- `time.Now().UnixMilli()`
unfoldable pub now_ms : Env → ℕ
now_ms env = env.clock / 1000000

abbrev pub flush_debounce : ℕ
flush_debounce = 250000000

-- The fields of `Store` that the calls change; `timer` is when an armed timer fires.
pub record Store : Type 0 where
  pub db : Db
  pub dirty : Bool
  pub closed : Bool
  pub write_gen : ℕ
  pub timer : Option ℕ

abbrev pub empty_db : Db
empty_db = record {
  kv = [];
  queue = [];
  sequence = 0;
  cache = [];
  blob = [];
  quota = [];
  tools = [];
  grants = [];
}

-- A store as `Open` leaves it over a database.
abbrev pub opened : Db → Store
opened db = record { db = db; dirty = false; closed = false; write_gen = 0; timer = none }

-- `markDirtyLocked`
unfoldable pub mark_dirty : Env → Store → Store
mark_dirty env s =
    let t = record s { dirty = true; write_gen = u64 (s.write_gen + 1) } in
    if s.closed then t else record t { timer = some (env.clock + flush_debounce) }

-- A statement that writes: `ExecContext`, and `markDirtyLocked` where it succeeds.
unfoldable pub exec : Env → Stmt → (Db → Db) → Store → Result StoreErr (Unit {0}) × Store
unfolding mark_dirty
exec env stmt change s =
    if env.fails stmt
    then (err driver, s)
    else (ok tt, mark_dirty env (record s { db = change s.db }))

-- A statement that reads.
unfoldable pub query {ℓ} : {A : Type ℓ} → Env → Stmt → A → Result StoreErr A
query env stmt a = if env.fails stmt then err driver else ok a

pub query-ok {ℓ} :
    {A : Type ℓ} (env : Env) (stmt : Stmt) (a : A) {b : A} → query env stmt a ≡ ok b → a ≡ b
unfolding query
query-ok env stmt a h = ground arith
