-- ===== src/Store/Moves.antt =====
-- internal/store/store.go and tools.go: what a call does to the fields of the store. It leaves them, or
-- changes the database and marks the store dirty; `DeleteTool` may also be cut short.
use mykeep_foundry.Store.Kv.{row_of}
use mykeep_foundry.Store.Kv.{guarded, row_of}
use mykeep_foundry.Store.Tables.{select, upsert, delete}
use mykeep_foundry.Prelude.{
  Bool-cases, Bytes, List, Option, Result, String, err, false, inl, inr, length, ltb, none, ok,
  some, suc, true, ◌≡◌, ◌⊎◌,
}
use mykeep_foundry.Store.Tools.{
  put_tool, delete_tool, put_grant, installed, upsert_tool, upsert_grant, grant_row,
}
use mykeep_foundry.Store.Tables.{Row, delete}
use mykeep_foundry.Store.State.{
  Message, ToolRow, Db, Stmt, queue_pop_stmt, cache_select, cache_delete, tools_delete,
  grants_delete, StoreErr, Env, Store, mark_dirty, exec, kv_upsert, kv_delete, queue_insert,
  cache_upsert, blob_upsert, quota_upsert, tools_upsert, grants_upsert,
}
use mykeep_foundry.Store.Quota.{
  set_quota, put_limit, kv_table, cache_table, blob_table, no_table, check_quota,
}
use mykeep_foundry.Store.Kv.{kv_set, kv_del}
use mykeep_foundry.Store.Blob.{blob_put}
use mykeep_foundry.Prelude.Int.{ℤ, i64_mod}
use mykeep_foundry.Engine.Pipe.{write}
use mykeep_foundry.Store.Cache.{fresh_or_sweep, sweep, cache_set, expired, cache_get, entry}
use mykeep_foundry.Store.Queue.{insert, popped, queue_push, queue_pop, enqueue, pop_row}

pub data Moves (env : Env) (s : Store) : Store → Type 0 where
  unmoved : Moves env s s
  moved_to : (db : Db) → Moves env s (mark_dirty env (record s { db = db }))

module _ (env : Env) (s : Store) where
  exec-Moves : (stmt : Stmt) (f : Db → Db) → Moves env s (exec env stmt f s).1
  unfolding exec
  exec-Moves stmt f = elim (Bool-cases (env.fails stmt)) [
    | inl e ↦ rw e unmoved
    | inr e ↦ rw e (moved_to (f s.db))
  ]

  guarded-Moves :
      (r : Result StoreErr (Unit {0})) (write : Store → Result StoreErr (Unit {0}) × Store)
      → Moves env s (write s).1
      → Moves env s (guarded r write s).1
  guarded-Moves (ok _) write h = h
  guarded-Moves (err e) write h = unmoved

  guarded-exec-Moves :
      (r : Result StoreErr (Unit {0})) (stmt : Stmt) (f : Db → Db)
      → Moves env s (guarded r (exec env stmt f) s).1
  guarded-exec-Moves r stmt f = guarded-Moves r (exec env stmt f) (exec-Moves stmt f)

  pub kv_set-Moves : (ns key : String) (val : Bytes) → Moves env s (kv_set env ns key val s).1
  unfolding kv_set
  kv_set-Moves ns key val =
      guarded-exec-Moves (check_quota env ns kv_table key (length val) s.db) kv_upsert
        (λ db. record db { kv = upsert (row_of env ns key val) db.kv })

  pub kv_del-Moves : (ns key : String) → Moves env s (kv_del env ns key s).1
  unfolding kv_del
  kv_del-Moves ns key = exec-Moves kv_delete (λ db. record db { kv = delete ns key db.kv })

  pub queue_push-Moves :
      (ns name : String) (msg : Bytes) → Moves env s (queue_push env ns name msg s).1
  unfolding queue_push insert
  queue_push-Moves ns name msg =
      guarded-Moves (check_quota env ns no_table "" (length msg) s.db) (insert env ns name msg)
        (elim (Bool-cases (ltb (suc s.db.sequence) i64_mod)) [
          | inl e ↦ rw e (exec-Moves queue_insert (enqueue env ns name msg))
          | inr e ↦ rw e unmoved
        ])

  popped-Moves : (o : Option (Message × List Message)) → Moves env s (popped env o s).1
  unfolding popped
  popped-Moves none = unmoved
  popped-Moves (some (m, rest)) = moved_to (record s.db { queue = rest })

  pub queue_pop-Moves : (ns name : String) → Moves env s (queue_pop env ns name s).1
  unfolding queue_pop
  queue_pop-Moves ns name = elim (Bool-cases (env.fails queue_pop_stmt)) [
    | inl e ↦ rw e unmoved
    | inr e ↦ rw e (popped-Moves (pop_row ns name s.db.queue))
  ]

  pub cache_set-Moves :
      (ns key : String) (val : Bytes) (ttl : ℤ) → Moves env s (cache_set env ns key val ttl s).1
  unfolding cache_set
  cache_set-Moves ns key val ttl =
      guarded-exec-Moves (check_quota env ns cache_table key (length val) s.db) cache_upsert
        (λ db. record db { cache = upsert (entry env ns key val ttl) db.cache })

  sweep-Moves : (ns key : String) → Moves env s (sweep env ns key s)
  unfolding sweep
  sweep-Moves ns key = elim (Bool-cases (env.fails cache_delete)) [
    | inl e ↦ rw e (moved_to s.db)
    | inr e ↦ rw e (moved_to (record s.db { cache = delete ns key s.db.cache }))
  ]

  fresh_or_sweep-Moves :
      (ns key : String) (o : Option Row) → Moves env s (fresh_or_sweep env ns key o s).1
  unfolding fresh_or_sweep
  fresh_or_sweep-Moves ns key none = unmoved
  fresh_or_sweep-Moves ns key (some r) = elim (Bool-cases (expired env r)) [
    | inl e ↦ rw e (sweep-Moves ns key)
    | inr e ↦ rw e unmoved
  ]

  pub cache_get-Moves : (ns key : String) → Moves env s (cache_get env ns key s).1
  unfolding cache_get
  cache_get-Moves ns key = elim (Bool-cases (env.fails cache_select)) [
    | inl e ↦ rw e unmoved
    | inr e ↦ rw e (fresh_or_sweep-Moves ns key (select ns key s.db.cache))
  ]

  pub blob_put-Moves : (ns name : String) (val : Bytes) → Moves env s (blob_put env ns name val s).1
  unfolding blob_put
  blob_put-Moves ns name val =
      guarded-exec-Moves (check_quota env ns blob_table name (length val) s.db) blob_upsert
        (λ db. record db { blob = upsert (row_of env ns name val) db.blob })

  pub set_quota-Moves : (ns : String) (l : ℤ) → Moves env s (set_quota env ns l s).1
  unfolding set_quota
  set_quota-Moves ns l =
      exec-Moves quota_upsert (λ db. record db { quota = put_limit ns l db.quota })

  pub put_tool-Moves : (t : ToolRow) → Moves env s (put_tool env t s).1
  unfolding put_tool
  put_tool-Moves t =
      exec-Moves tools_upsert (λ db. record db { tools = upsert_tool (installed env t) db.tools })

  pub put_grant-Moves :
      (tool : String) (caps : Bytes) (sha : String) → Moves env s (put_grant env tool caps sha s).1
  unfolding put_grant
  put_grant-Moves tool caps sha =
      exec-Moves grants_upsert
        (λ db. record db { grants = upsert_grant (grant_row env tool caps sha) db.grants })

  -- `DeleteTool` moves the store like any other call, or was cut short.
  pub delete_tool-Moves :
      (name : String)
      → Moves env s (delete_tool env name s).1
        ⊎ ((env.fails tools_delete ≡ false) × (env.fails grants_delete ≡ true))
  unfolding delete_tool
  delete_tool-Moves name = elim (Bool-cases (env.fails tools_delete)) [
    | inl e ↦ rw e (inl unmoved)
    | inr e ↦ elim (Bool-cases (env.fails grants_delete)) [
      | inl f ↦ inr (e, f)
      | inr f ↦ rw (e, f) (inl (moved_to _))
    ]
  ]
