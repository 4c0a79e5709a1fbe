-- ===== src/Store/Blob.antt =====
-- internal/store/store.go, `BlobPut` and `BlobGet`.
use mathlib.Core.Option
use mykeep_foundry.Prelude.{Bytes, Option, Result, String, length, ok, ◌>>=◌}
use mykeep_foundry.Store.Tables.{select, upsert}
use mykeep_foundry.Store.State.{Env, Store, StoreErr, blob_upsert, blob_select, query, exec}
use mykeep_foundry.Store.Quota.{check_quota, blob_table}
use mykeep_foundry.Store.Kv.{guarded, row_of}

unfoldable pub blob_put : Env → String → String → Bytes → Store → Result StoreErr (Unit {0}) × Store
unfolding exec
blob_put env ns name val s =
    guarded (check_quota env ns blob_table name (length val) s.db)
      (exec env blob_upsert (λ db. record db { blob = upsert (row_of env ns name val) db.blob })) s

unfoldable pub blob_get : Env → String → String → Store → Result StoreErr (Option Bytes)
unfolding query
blob_get env ns name s = do
  row ← query env blob_select (select ns name s.db.blob)
  ok (Option.map (λ r. r.val) row)
