-- ===== src/Store/Kv.antt =====
-- internal/store/store.go, `KVSet`, `KVGet` and `KVDel`.
use mykeep_foundry.Prelude.{Bytes, Option, Result, String, err, length, ok, ◌>>=◌}
use mathlib.Core.Option
use mykeep_foundry.Store.Tables.{Row, select, upsert, delete}
use mykeep_foundry.Store.State.{
  Env, Store, StoreErr, kv_upsert, kv_select, kv_delete, query, exec, now_ms,
}
use mykeep_foundry.Store.Quota.{check_quota, kv_table}

-- A write behind `checkQuota`.
abbrev pub guarded :
    Result StoreErr (Unit {0})
    → (Store → Result StoreErr (Unit {0}) × Store)
    → Store
    → Result StoreErr (Unit {0}) × Store
guarded (ok _) write s = write s
guarded (err e) write s = (err e, s)

abbrev pub row_of : Env → String → String → Bytes → Row
row_of env ns key val = record {
  ns = ns;
  key = key;
  val = val;
  bytes = length val;
  at = now_ms env;
}

unfoldable pub kv_set : Env → String → String → Bytes → Store → Result StoreErr (Unit {0}) × Store
unfolding exec
kv_set env ns key val s =
    guarded (check_quota env ns kv_table key (length val) s.db)
      (exec env kv_upsert (λ db. record db { kv = upsert (row_of env ns key val) db.kv })) s

unfoldable pub kv_get : Env → String → String → Store → Result StoreErr (Option Bytes)
unfolding query
kv_get env ns key s = do
  row ← query env kv_select (select ns key s.db.kv)
  ok (Option.map (λ r. r.val) row)

unfoldable pub kv_del : Env → String → String → Store → Result StoreErr (Unit {0}) × Store
unfolding exec
kv_del env ns key s = exec env kv_delete (λ db. record db { kv = delete ns key db.kv }) s
