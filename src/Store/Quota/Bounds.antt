-- ===== src/Store/Quota/Bounds.antt =====
-- `checkQuota` against the bytes that a namespace holds.
use mykeep_foundry.Prelude.{
  Result-cases, String, arith, err, false, if◌then◌else◌, inl, inr, leb, none, ok, refl, some, true,
  ℕ, ◌+◌, ◌-◌, ◌<◌, ◌≡◌, ◌≤◌, ◌⊎◌,
}
use mykeep_foundry.Prelude.Int.{ℤ, pos, ◌+ℤ◌, int64, int64-pos, i64_mod, ltb_ℤ}
use mykeep_foundry.Store.Tables.{select, sum_bytes, row_bytes, row_bytes-le}
use mykeep_foundry.Store.State.{
  Db, Stmt, Env, quota_select, kv_bytes, kv_sum, queue_sum, cache_bytes, cache_sum, blob_bytes,
  blob_sum, err_quota,
}
use mykeep_foundry.Store.Quota.{
  Table, kv_table, cache_table, blob_table, no_table, limit_of, queue_bytes, sum_query, ns_used,
  existing, over_limit, check_quota,
}

-- The bytes that a namespace holds in its four tables.
unfoldable pub total : String → Db → ℕ
total ns db =
    sum_bytes ns db.kv + queue_bytes ns db.queue + sum_bytes ns db.cache + sum_bytes ns db.blob

-- The bytes of the row that a write to the table replaces.
unfoldable pub replaced : String → Table → String → Db → ℕ
replaced ns kv_table key db = row_bytes (select ns key db.kv)
replaced ns cache_table key db = row_bytes (select ns key db.cache)
replaced ns blob_table key db = row_bytes (select ns key db.blob)
replaced ns no_table key db = 0

pub existing-le-replaced :
    (env : Env) (ns : String) (table : Table) (key : String) (db : Db)
    → existing env ns table key db ≤ replaced ns table key db
unfolding existing replaced
existing-le-replaced env ns kv_table key db = ground arith
existing-le-replaced env ns cache_table key db = ground arith
existing-le-replaced env ns blob_table key db = ground arith
existing-le-replaced env ns no_table key db = omega arith

pub replaced-le-total :
    (ns : String) (table : Table) (key : String) (db : Db) → replaced ns table key db ≤ total ns db
unfolding replaced total
replaced-le-total ns kv_table key db = omega (arith, row_bytes-le ns key db.kv)
replaced-le-total ns cache_table key db = omega (arith, row_bytes-le ns key db.cache)
replaced-le-total ns blob_table key db = omega (arith, row_bytes-le ns key db.blob)
replaced-le-total ns no_table key db = omega arith

sum_query-ok : (env : Env) (stmt : Stmt) (n : ℕ) {z : ℤ} → sum_query env stmt n ≡ ok z → z ≡ pos n
unfolding sum_query
sum_query-ok env stmt n h = ground arith

add_pos : (a b : ℕ) → a + b < i64_mod → int64 (pos a +ℤ pos b) ≡ pos (a + b)
unfolding ◌+ℤ◌
add_pos a b h = ground (arith, int64-pos (a + b))

-- What `nsUsedLocked` reports is the total, where that fits an int64.
pub ns_used-ok :
    (env : Env) (ns : String) (db : Db) {u : ℤ}
    → total ns db < i64_mod
    → ns_used env ns db ≡ ok u
    → u ≡ pos (total ns db)
unfolding ns_used total
ns_used-ok env ns db {u} fits h = ground (
  arith,
  int64-pos (sum_bytes ns db.kv),
  int64-pos (sum_bytes ns db.kv + queue_bytes ns db.queue),
  int64-pos (sum_bytes ns db.kv + queue_bytes ns db.queue + sum_bytes ns db.cache),
  int64-pos (total ns db),
)

-- With the sum in range the test is the one on plain numbers.
over_limit-false :
    (used old add l : ℕ)
    → old ≤ used
    → used + add < i64_mod
    → over_limit (pos used) old add (pos l) ≡ false
    → used + add ≤ l + old
unfolding over_limit
over_limit-false used old add l le fits h =
    ground (arith, int64-pos (used - old), int64-pos (used - old + add))

-- A write that `checkQuota` lets through leaves the namespace within its limit, if the limit is set,
-- the statement that reads it succeeds, and the byte counts fit an int64.
pub check_quota-ok :
    (env : Env) (ns : String) (table : Table) (key : String) (add : ℕ) (db : Db) (l : ℕ)
    → limit_of ns db.quota ≡ some (pos l)
    → 0 < l
    → env.fails quota_select ≡ false
    → total ns db + add < i64_mod
    → check_quota env ns table key add db ≡ ok tt
    → total ns db + add ≤ l + replaced ns table key db
unfolding check_quota
check_quota-ok env ns table key add db l row some_limit works fits h =
    elim (Result-cases (ns_used env ns db)) [
      | inl (u, e) ↦ ground (
        arith,
        ns_used-ok env ns db {u = u},
        over_limit-false (total ns db) (existing env ns table key db) add l,
        existing-le-replaced env ns table key db,
        replaced-le-total ns table key db,
      )
      | inr (e, failed) ↦ ground arith
    ]

-- No statement of the driver fails.
abbrev pub IsQuiet : Env → Type 0
IsQuiet env = (stmt : Stmt) → env.fails stmt ≡ false

existing-eq-replaced :
    (env : Env) (ns : String) (table : Table) (key : String) (db : Db)
    → IsQuiet env
    → existing env ns table key db ≡ replaced ns table key db
unfolding existing replaced
existing-eq-replaced env ns kv_table key db q = rw (q kv_bytes)
existing-eq-replaced env ns cache_table key db q = rw (q cache_bytes)
existing-eq-replaced env ns blob_table key db q = rw (q blob_bytes)
existing-eq-replaced env ns no_table key db q = refl

sum_query-quiet :
    (env : Env) (stmt : Stmt) (n : ℕ)
    → env.fails stmt ≡ false
    → n < i64_mod
    → sum_query env stmt n ≡ ok (pos n)
unfolding sum_query
sum_query-quiet env stmt n q h = ground arith

ns_used-quiet :
    (env : Env) (ns : String) (db : Db)
    → IsQuiet env
    → total ns db < i64_mod
    → ns_used env ns db ≡ ok (pos (total ns db))
unfolding ns_used total
ns_used-quiet env ns db q fits =
    rw
      (
        sum_query-quiet env kv_sum (sum_bytes ns db.kv) (q kv_sum) (omega arith),
        sum_query-quiet env queue_sum (queue_bytes ns db.queue) (q queue_sum) (omega arith),
        sum_query-quiet env cache_sum (sum_bytes ns db.cache) (q cache_sum) (omega arith),
        sum_query-quiet env blob_sum (sum_bytes ns db.blob) (q blob_sum) (omega arith),
      )
      (ground (
        arith,
        int64-pos (sum_bytes ns db.kv),
        int64-pos (sum_bytes ns db.kv + queue_bytes ns db.queue),
        int64-pos (sum_bytes ns db.kv + queue_bytes ns db.queue + sum_bytes ns db.cache),
        int64-pos (total ns db),
      ))

over_limit-eq :
    (used old add l : ℕ)
    → old ≤ used
    → used + add < i64_mod
    → over_limit (pos used) old add (pos l) ≡ (if leb (used + add) (l + old) then false else true)
unfolding over_limit
over_limit-eq used old add l le fits =
    ground (arith, int64-pos (used - old), int64-pos (used - old + add))

-- With a positive limit and no failing statement `checkQuota` lets a write through exactly when the
-- bytes of the namespace, less those of the row that the write replaces, stay within the limit.
pub check_quota-exact :
    (env : Env) (ns : String) (table : Table) (key : String) (add : ℕ) (db : Db) (l : ℕ)
    → IsQuiet env
    → limit_of ns db.quota ≡ some (pos l)
    → 0 < l
    → total ns db + add < i64_mod
    → check_quota env ns table key add db
      ≡ (if leb (total ns db + add) (l + replaced ns table key db) then ok tt else err err_quota)
unfolding check_quota
check_quota-exact env ns table key add db l q row some_limit fits =
    rw (q quota_select, ns_used-quiet env ns db q (omega arith), row)
      (ground (
        arith,
        over_limit-eq (total ns db) (existing env ns table key db) add l,
        existing-eq-replaced env ns table key db q,
        replaced-le-total ns table key db,
      ))

-- A namespace with no limit, or with one that is not positive, takes a write of any size.
pub check_quota-unlimited :
    (env : Env) (ns : String) (table : Table) (key : String) (add : ℕ) (db : Db)
    → ((limit_of ns db.quota ≡ none)
        ⊎ ((l : ℤ) × (limit_of ns db.quota ≡ some l) × (ltb_ℤ (pos 0) l ≡ false)))
    → check_quota env ns table key add db ≡ ok tt
unfolding check_quota
check_quota-unlimited env ns table key add db h = ground arith

-- Where the driver fails the statement that reads the limit, the check passes all the same: `limit`
-- is still 0, and the test for it stands before the test of the error.
pub check_quota-unread :
    (env : Env) (ns : String) (table : Table) (key : String) (add : ℕ) (db : Db)
    → env.fails quota_select ≡ true
    → check_quota env ns table key add db ≡ ok tt
unfolding check_quota
check_quota-unread env ns table key add db h = ground arith
