-- ===== src/Store/Quota.antt =====
-- internal/store/store.go, `SetQuota`, `checkQuota` and `nsUsedLocked`: the byte ceiling of a
-- namespace over its four tables.
pub mod Bounds
use mykeep_foundry.Prelude.{
  Bool, List, Option, Result, String, [], err, false, if◌then◌else◌, ltb, none, not, ok, some, true,
  ℕ, ◌+◌, ◌==◌, ◌||◌, ◌∷◌, ◌>>=◌, ◌>>◌,
}
use mykeep_foundry.Prelude.Int.{ℤ, pos, ◌+ℤ◌, ◌-ℤ◌, ltb_ℤ, int64, i64_mod}
use mykeep_foundry.Store.Tables.{Row, select, sum_bytes, row_bytes}
use mykeep_foundry.Store.State.{
  Db, Message, Env, Store, Stmt, StoreErr, driver, err_quota, kv_sum, queue_sum, cache_sum,
  blob_sum, kv_bytes, cache_bytes, blob_bytes, quota_select, quota_upsert, query, exec,
}

-- SELECT limit_bytes FROM quota WHERE ns=?
unfoldable pub limit_of : String → List (String × ℤ) → Option ℤ
limit_of ns [] = none
limit_of ns ((m, l) ∷ t) = if m == ns then some l else limit_of ns t

-- INSERT INTO quota … ON CONFLICT(ns) DO UPDATE SET limit_bytes=excluded.limit_bytes
unfoldable pub put_limit : String → ℤ → List (String × ℤ) → List (String × ℤ)
put_limit ns l [] = (ns, l) ∷ []
put_limit ns l ((m, k) ∷ t) = if m == ns then (m, l) ∷ t else (m, k) ∷ put_limit ns l t

-- SELECT COALESCE(SUM(bytes),0) FROM queue WHERE ns=?
unfoldable pub queue_bytes : String → List Message → ℕ
queue_bytes ns [] = 0
queue_bytes ns (m ∷ t) = (if m.ns == ns then m.bytes else 0) + queue_bytes ns t

-- SQLite refuses a SUM that leaves the signed 64-bit range.
sum_query : Env → Stmt → ℕ → Result StoreErr ℤ
unfolding query
sum_query env stmt n = if ltb n i64_mod then query env stmt (pos n) else err driver

-- `nsUsedLocked`: the loop over the four statements, with `total += n`.
unfoldable pub ns_used : Env → String → Db → Result StoreErr ℤ
unfolding sum_query ◌+ℤ◌
ns_used env ns db = do
  n ← sum_query env kv_sum (sum_bytes ns db.kv)
  let total = int64 (pos 0 +ℤ n)
  n ← sum_query env queue_sum (queue_bytes ns db.queue)
  let total = int64 (total +ℤ n)
  n ← sum_query env cache_sum (sum_bytes ns db.cache)
  let total = int64 (total +ℤ n)
  n ← sum_query env blob_sum (sum_bytes ns db.blob)
  ok (int64 (total +ℤ n))

-- The argument `table` of `checkQuota`; "" has no case in its switch.
pub data Table : Type 0 where
  kv_table cache_table blob_table no_table : Table

-- What `Scan(&existing)` leaves in `existing`: an error is dropped, and leaves 0.
scan_existing : Env → Stmt → Option Row → ℕ
scan_existing env stmt row = if env.fails stmt then 0 else row_bytes row

unfoldable pub existing : Env → String → Table → String → Db → ℕ
unfolding scan_existing
existing env ns kv_table key db = scan_existing env kv_bytes (select ns key db.kv)
existing env ns cache_table key db = scan_existing env cache_bytes (select ns key db.cache)
existing env ns blob_table key db = scan_existing env blob_bytes (select ns key db.blob)
existing env ns no_table key db = 0

-- `errors.Is(err, sql.ErrNoRows)`, and what `Scan(&limit)` leaves in `limit`.
no_rows : Result StoreErr (Option ℤ) → Bool
no_rows (ok none) = true
no_rows _ = false

scanned : Result StoreErr (Option ℤ) → ℤ
scanned (ok (some l)) = l
scanned _ = pos 0

as_error : Result StoreErr (Option ℤ) → Result StoreErr (Unit {0})
as_error (ok _) = ok tt
as_error (err e) = err e

-- `used-existing+int64(addBytes) > limit`
unfoldable pub over_limit : ℤ → ℕ → ℕ → ℤ → Bool
unfolding ◌+ℤ◌ ◌-ℤ◌
over_limit used old add limit = ltb_ℤ limit (int64 (int64 (used -ℤ pos old) +ℤ pos add))

-- `checkQuota`
unfoldable pub check_quota : Env → String → Table → String → ℕ → Db → Result StoreErr (Unit {0})
unfolding query no_rows scanned as_error
check_quota env ns table key add db =
    let row = query env quota_select (limit_of ns db.quota) in
    let limit = scanned row in
    if no_rows row || not (ltb_ℤ (pos 0) limit) then ok tt else do
      as_error row
      used ← ns_used env ns db
      if over_limit used (existing env ns table key db) add limit then err err_quota else ok tt

-- `SetQuota`
unfoldable pub set_quota : Env → String → ℤ → Store → Result StoreErr (Unit {0}) × Store
unfolding exec
set_quota env ns l s = exec env quota_upsert (λ db. record db { quota = put_limit ns l db.quota }) s
