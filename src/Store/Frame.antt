-- ===== src/Store/Frame.antt =====
-- A call in one namespace leaves every other namespace as it was.
use mathlib.Core.List.{append-nil}
use mykeep_foundry.Prelude.{Bytes, List, String, arith, eq_iff, inl, refl, ◌∙◌, ◌≡◌, ◌≢◌}
use mykeep_foundry.Prelude.Int.{ℤ}
use mykeep_foundry.Store.Tables.{
  Row, hit, select, upsert, delete, select-upsert, select-delete, sum_bytes-upsert_ne,
  sum_bytes-delete_ne,
}
use mykeep_foundry.Store.State.{Db, Env, Store}
use mykeep_foundry.Store.Quota.{limit_of}
use mykeep_foundry.Store.Quota.Bounds.{total}
use mykeep_foundry.Store.Kv.{kv_set, kv_del, row_of}
use mykeep_foundry.Store.Queue.{on_queue, enqueue, message, queue_push, queue_pop}
use mykeep_foundry.Store.Queue.Order.{Ascending}
use mykeep_foundry.Store.Queue.Fifo.{
  contents, Pops-contents_ne, Pops-bytes_ne, contents-append, queue_bytes-append, Pops-pop_row,
}
use mykeep_foundry.Store.Cache.{cache_set, cache_get, entry}
use mykeep_foundry.Store.Blob.{blob_put}
use mykeep_foundry.Store.Cases.{
  kv_set_cases, kv_del_cases, cache_set_cases, cache_get_cases, blob_put_cases, queue_push_cases,
  queue_pop_cases,
}

-- Everything that the namespace `ms` can read or is charged for is the same in `new` as in `old`.
pub record SameNs (ms : String) (old new : Db) : Type 0 where
  pub kv : (key : String) → select ms key new.kv ≡ select ms key old.kv
  pub cache : (key : String) → select ms key new.cache ≡ select ms key old.cache
  pub blob : (name : String) → select ms name new.blob ≡ select ms name old.blob
  pub queue : (name : String) → contents ms name new.queue ≡ contents ms name old.queue
  pub limit : limit_of ms new.quota ≡ limit_of ms old.quota
  pub held : total ms new ≡ total ms old

pub SameNs-refl : (ms : String) (db : Db) → SameNs ms db db
SameNs-refl ms db = record {
  kv = λ key. refl;
  cache = λ key. refl;
  blob = λ name. refl;
  queue = λ name. refl;
  limit = refl;
  held = refl;
}

pub SameNs-trans : {ms : String} {a b c : Db} → SameNs ms a b → SameNs ms b c → SameNs ms a c
SameNs-trans p q = record {
  kv = λ key. q.kv key ∙ p.kv key;
  cache = λ key. q.cache key ∙ p.cache key;
  blob = λ name. q.blob name ∙ p.blob name;
  queue = λ name. q.queue name ∙ p.queue name;
  limit = q.limit ∙ p.limit;
  held = q.held ∙ p.held;
}

select-upsert_ne :
    (ms key : String) (r : Row) (t : List Row)
    → r.ns ≢ ms
    → select ms key (upsert r t) ≡ select ms key t
unfolding hit
select-upsert_ne ms key r t h = ground (arith, select-upsert ms key r t, eq_iff r.ns ms)

select-delete_ne :
    (ns key ms j : String) (t : List Row) → ns ≢ ms → select ms j (delete ns key t) ≡ select ms j t
select-delete_ne ns key ms j t h = ground (arith, select-delete ns key ms j t, eq_iff ns ms)

module _ (ns ms : String) (other : ns ≢ ms) where
  pub kv_set-SameNs :
      (env : Env) (key : String) (val : Bytes) (s : Store)
      → SameNs ms s.db (kv_set env ns key val s).1.db
  unfolding total
  kv_set-SameNs env key val s =
      kv_set_cases (SameNs ms s.db) env ns key val s (SameNs-refl ms s.db) λ passed. record {
        kv = λ j. select-upsert_ne ms j _ s.db.kv other;
        cache = λ j. refl;
        blob = λ j. refl;
        queue = λ j. refl;
        limit = refl;
        held = rw (sum_bytes-upsert_ne ms (row_of env ns key val) s.db.kv other);
      }

  pub kv_del-SameNs :
      (env : Env) (key : String) (s : Store) → SameNs ms s.db (kv_del env ns key s).1.db
  unfolding total
  kv_del-SameNs env key s =
      kv_del_cases (SameNs ms s.db) env ns key s (SameNs-refl ms s.db) (record {
        kv = λ j. select-delete_ne ns key ms j s.db.kv other;
        cache = λ j. refl;
        blob = λ j. refl;
        queue = λ j. refl;
        limit = refl;
        held = rw (sum_bytes-delete_ne ms ns key s.db.kv other);
      })

  pub cache_set-SameNs :
      (env : Env) (key : String) (val : Bytes) (ttl : ℤ) (s : Store)
      → SameNs ms s.db (cache_set env ns key val ttl s).1.db
  unfolding total
  cache_set-SameNs env key val ttl s =
      cache_set_cases (SameNs ms s.db) env ns key val ttl s (SameNs-refl ms s.db) λ passed. record {
        cache = λ j. select-upsert_ne ms j _ s.db.cache other;
        kv = λ j. refl;
        blob = λ j. refl;
        queue = λ j. refl;
        limit = refl;
        held = rw (sum_bytes-upsert_ne ms (entry env ns key val ttl) s.db.cache other);
      }

  pub cache_get-SameNs :
      (env : Env) (key : String) (s : Store) → SameNs ms s.db (cache_get env ns key s).1.db
  unfolding total
  cache_get-SameNs env key s =
      cache_get_cases (SameNs ms s.db) env ns key s (SameNs-refl ms s.db) (record {
        cache = λ j. select-delete_ne ns key ms j s.db.cache other;
        kv = λ j. refl;
        blob = λ j. refl;
        queue = λ j. refl;
        limit = refl;
        held = rw (sum_bytes-delete_ne ms ns key s.db.cache other);
      })

  pub blob_put-SameNs :
      (env : Env) (name : String) (val : Bytes) (s : Store)
      → SameNs ms s.db (blob_put env ns name val s).1.db
  unfolding total
  blob_put-SameNs env name val s =
      blob_put_cases (SameNs ms s.db) env ns name val s (SameNs-refl ms s.db) λ passed. record {
        blob = λ j. select-upsert_ne ms j _ s.db.blob other;
        kv = λ j. refl;
        cache = λ j. refl;
        queue = λ j. refl;
        limit = refl;
        held = rw (sum_bytes-upsert_ne ms (row_of env ns name val) s.db.blob other);
      }

  pub queue_push-SameNs :
      (env : Env) (name : String) (msg : Bytes) (s : Store)
      → SameNs ms s.db (queue_push env ns name msg s).1.db
  unfolding total enqueue on_queue
  queue_push-SameNs env name msg s =
      queue_push_cases (SameNs ms s.db) env ns name msg s (SameNs-refl ms s.db) λ passed. record {
        kv = λ j. refl;
        cache = λ j. refl;
        blob = λ j. refl;
        limit = refl;
        queue = λ j. ground (
          arith,
          contents-append ms j s.db.queue (message env ns name msg s.db),
          eq_iff ns ms,
          append-nil (contents ms j s.db.queue),
        );
        held =
            ground (
              arith,
              queue_bytes-append ms s.db.queue (message env ns name msg s.db),
              eq_iff ns ms,
            );
      }

  pub queue_pop-SameNs :
      (env : Env) (name : String) (s : Store)
      → Ascending 0 s.db.sequence s.db.queue
      → SameNs ms s.db (queue_pop env ns name s).1.db
  unfolding total
  queue_pop-SameNs env name s a =
      queue_pop_cases (SameNs ms s.db) env ns name s (SameNs-refl ms s.db) λ m rest e.
        let p = Pops-pop_row ns name 0 s.db.sequence s.db.queue {m = m} {rest = rest} a e in
        record {
          kv = λ j. refl;
          cache = λ j. refl;
          blob = λ j. refl;
          limit = refl;
          queue = λ j. Pops-contents_ne ms j (inl other) p;
          held = rw (Pops-bytes_ne ms other p);
        }
