-- ===== src/Store/Limit.antt =====
-- A namespace with a limit stays within it, whatever calls are made in it.
use mykeep_foundry.Prelude.{
  Bytes, String, arith, eq_iff, false, length, ok, some, ℕ, ◌+◌, ◌<◌, ◌≡◌, ◌≤◌,
}
use mykeep_foundry.Store.Tables.{sum_bytes-upsert_self, sum_bytes-delete-le}
use mykeep_foundry.Store.State.{Db, quota_select, Env, Store}
use mykeep_foundry.Store.Quota.Bounds.{total, replaced, check_quota-ok}
use mykeep_foundry.Store.Quota.{
  limit_of, Table, kv_table, cache_table, blob_table, no_table, check_quota,
}
use mykeep_foundry.Store.Queue.Order.{Ascending}
use mykeep_foundry.Store.Queue.Fifo.{Pops-pop_row, Pops-bytes, queue_bytes-append}
use mykeep_foundry.Store.Queue.{message, enqueue, queue_push, queue_pop}
use mykeep_foundry.Store.Kv.{row_of, kv_set, kv_del}
use mykeep_foundry.Store.Cases.{
  kv_set_cases, kv_del_cases, cache_set_cases, cache_get_cases, blob_put_cases, queue_push_cases,
  queue_pop_cases,
}
use mykeep_foundry.Store.Cache.{entry, cache_set, cache_get}
use mykeep_foundry.Store.Blob.{blob_put}
use mykeep_foundry.Prelude.Int.{ℤ, pos, i64_mod}

-- A set limit `l` on the namespace, and its bytes within it.
pub record IsWithin (ns : String) (l : ℕ) (db : Db) : Type 0 where
  pub limited : limit_of ns db.quota ≡ some (pos l)
  pub positive : 0 < l
  pub held : total ns db ≤ l

-- The write fits a signed 64-bit count, and the statement that reads the limit succeeds.
pub record IsCounted (env : Env) (l add : ℕ) : Type 0 where
  pub fits : l + add < i64_mod
  pub read : env.fails quota_select ≡ false

module _ (ns : String) (l : ℕ) (env : Env) where
  passed_total :
      (table : Table) (key : String) (add : ℕ) (db : Db)
      → IsWithin ns l db
      → IsCounted env l add
      → check_quota env ns table key add db ≡ ok tt
      → total ns db + add ≤ l + replaced ns table key db
  passed_total table key add db w c p =
      check_quota-ok env ns table key add db l w.limited w.positive c.read (omega arith) p

  pub kv_set-IsWithin :
      (key : String) (val : Bytes) (s : Store)
      → IsCounted env l (length val)
      → IsWithin ns l s.db
      → IsWithin ns l (kv_set env ns key val s).1.db
  unfolding total replaced
  kv_set-IsWithin key val s c w = kv_set_cases (IsWithin ns l) env ns key val s w λ passed. record {
    limited = w.limited;
    positive = w.positive;
    held = omega (
      arith,
      passed_total kv_table key (length val) s.db w c passed,
      sum_bytes-upsert_self (row_of env ns key val) s.db.kv,
    );
  }

  pub kv_del-IsWithin :
      (key : String) (s : Store) → IsWithin ns l s.db → IsWithin ns l (kv_del env ns key s).1.db
  unfolding total
  kv_del-IsWithin key s w = kv_del_cases (IsWithin ns l) env ns key s w (record {
    limited = w.limited;
    positive = w.positive;
    held = omega (arith, w.held, sum_bytes-delete-le ns ns key s.db.kv);
  })

  pub cache_set-IsWithin :
      (key : String) (val : Bytes) (ttl : ℤ) (s : Store)
      → IsCounted env l (length val)
      → IsWithin ns l s.db
      → IsWithin ns l (cache_set env ns key val ttl s).1.db
  unfolding total replaced
  cache_set-IsWithin key val ttl s c w =
      cache_set_cases (IsWithin ns l) env ns key val ttl s w λ passed. record {
        limited = w.limited;
        positive = w.positive;
        held = omega (
          arith,
          passed_total cache_table key (length val) s.db w c passed,
          sum_bytes-upsert_self (entry env ns key val ttl) s.db.cache,
        );
      }

  pub cache_get-IsWithin :
      (key : String) (s : Store) → IsWithin ns l s.db → IsWithin ns l (cache_get env ns key s).1.db
  unfolding total
  cache_get-IsWithin key s w = cache_get_cases (IsWithin ns l) env ns key s w (record {
    limited = w.limited;
    positive = w.positive;
    held = omega (arith, w.held, sum_bytes-delete-le ns ns key s.db.cache);
  })

  pub blob_put-IsWithin :
      (name : String) (val : Bytes) (s : Store)
      → IsCounted env l (length val)
      → IsWithin ns l s.db
      → IsWithin ns l (blob_put env ns name val s).1.db
  unfolding total replaced
  blob_put-IsWithin name val s c w = blob_put_cases (IsWithin ns l) env ns name val s w λ passed.
      record {
        limited = w.limited;
        positive = w.positive;
        held = omega (
          arith,
          passed_total blob_table name (length val) s.db w c passed,
          sum_bytes-upsert_self (row_of env ns name val) s.db.blob,
        );
      }

  pub queue_push-IsWithin :
      (name : String) (msg : Bytes) (s : Store)
      → IsCounted env l (length msg)
      → IsWithin ns l s.db
      → IsWithin ns l (queue_push env ns name msg s).1.db
  unfolding total replaced enqueue
  queue_push-IsWithin name msg s c w =
      queue_push_cases (IsWithin ns l) env ns name msg s w λ passed. record {
        limited = w.limited;
        positive = w.positive;
        held = ground (
          arith,
          passed_total no_table "" (length msg) s.db w c passed,
          queue_bytes-append ns s.db.queue (message env ns name msg s.db),
          eq_iff ns ns,
        );
      }

  pub queue_pop-IsWithin :
      (name : String) (s : Store)
      → Ascending 0 s.db.sequence s.db.queue
      → IsWithin ns l s.db
      → IsWithin ns l (queue_pop env ns name s).1.db
  unfolding total
  queue_pop-IsWithin name s a w = queue_pop_cases (IsWithin ns l) env ns name s w λ m rest e.
      let p = Pops-pop_row ns name 0 s.db.sequence s.db.queue {m = m} {rest = rest} a e in
      record {
        limited = w.limited;
        positive = w.positive;
        held = omega (arith, w.held, Pops-bytes ns p);
      }
