-- ===== src/Store/Cache.antt =====
-- internal/store/store.go, `CacheSet` and `CacheGet`: entries with a time to live.
use mykeep_foundry.Prelude.{
  Bool, Bytes, Option, Result, String, err, if◌then◌else◌, leb, length, ltb, none, ok, some, ℕ,
  ◌&&◌, ◌+◌, ◌/◌,
}
use mykeep_foundry.Prelude.Int.{ℤ, pos, ltb_ℤ, pos_part}
use mykeep_foundry.Store.Tables.{Row, select, upsert, delete}
use mykeep_foundry.Store.State.{
  Env, Store, StoreErr, driver, cache_upsert, cache_select, cache_delete, exec, now_ms, mark_dirty,
}
use mykeep_foundry.Store.Quota.{check_quota, cache_table}
use mykeep_foundry.Store.Kv.{guarded}

-- `exp` of `CacheSet`: 0 for no expiry, else `time.Now().Add(ttl).UnixMilli()`.
unfoldable pub expiry : Env → ℤ → ℕ
expiry env ttl = if ltb_ℤ (pos 0) ttl then (env.clock + pos_part ttl) / 1000000 else 0

abbrev pub entry : Env → String → String → Bytes → ℤ → Row
entry env ns key val ttl = record {
  ns = ns;
  key = key;
  val = val;
  bytes = length val;
  at = expiry env ttl;
}

unfoldable pub cache_set :
    Env → String → String → Bytes → ℤ → Store → Result StoreErr (Unit {0}) × Store
unfolding exec
cache_set env ns key val ttl s =
    guarded (check_quota env ns cache_table key (length val) s.db)
      (exec env cache_upsert
        (λ db. record db { cache = upsert (entry env ns key val ttl) db.cache }))
      s

-- `exp > 0 && time.Now().UnixMilli() >= exp`
unfoldable pub expired : Env → Row → Bool
unfolding now_ms
expired env r = ltb 0 r.at && leb r.at (now_ms env)

-- The sweep of an expired entry: its error is dropped, and it marks the store dirty in any case.
unfoldable pub sweep : Env → String → String → Store → Store
unfolding mark_dirty
sweep env ns key s = mark_dirty env (
    if env.fails cache_delete
    then s
    else record s { db = record s.db { cache = delete ns key s.db.cache } })

unfoldable pub fresh_or_sweep :
    Env → String → String → Option Row → Store → Result StoreErr (Option Bytes) × Store
unfolding sweep expired
fresh_or_sweep env ns key none s = (ok none, s)
fresh_or_sweep env ns key (some r) s =
    if expired env r then (ok none, sweep env ns key s) else (ok (some r.val), s)

unfoldable pub cache_get : Env → String → String → Store → Result StoreErr (Option Bytes) × Store
unfolding fresh_or_sweep
cache_get env ns key s =
    if env.fails cache_select
    then (err driver, s)
    else fresh_or_sweep env ns key (select ns key s.db.cache) s
