-- ===== src/Store/Cases.antt =====
-- What each call of the store can do to the database, as one rule a call: a property of the
-- database holds after the call if it held before and the call's write keeps it.
use mykeep_foundry.Prelude.{
  Bytes, List, Option-cases, Result, String, arith, err, inl, inr, length, ok, refl, some, ◌≡◌,
}
use mykeep_foundry.Prelude.Int.{ℤ}
use mykeep_foundry.Store.Tables.{upsert, delete}
use mykeep_foundry.Store.State.{Db, Env, Store, Stmt, StoreErr, exec, Message}
use mykeep_foundry.Store.Quota.{check_quota, kv_table, cache_table, blob_table, no_table}
use mykeep_foundry.Store.Kv.{guarded, row_of, kv_set, kv_del}
use mykeep_foundry.Store.Queue.{enqueue, queue_push, queue_pop, pop_row}
use mykeep_foundry.Store.Cache.{entry, cache_set, cache_get}
use mykeep_foundry.Store.Blob.{blob_put}

module _ (P : Db → Type 0) (env : Env) where
  pub exec_cases :
      (stmt : Stmt) (change : Db → Db) (s : Store)
      → P s.db
      → P (change s.db)
      → P (exec env stmt change s).1.db
  unfolding exec
  exec_cases stmt change s before after = ground arith

  guarded_cases :
      (r : Result StoreErr (Unit {0})) (write : Store → Result StoreErr (Unit {0}) × Store)
      (s : Store)
      → P s.db
      → (r ≡ ok tt → P (write s).1.db)
      → P (guarded r write s).1.db
  guarded_cases (ok tt) write s before after = after refl
  guarded_cases (err e) write s before after = before

  pub kv_set_cases :
      (ns key : String) (val : Bytes) (s : Store)
      → P s.db
      → (check_quota env ns kv_table key (length val) s.db ≡ ok tt
          → P (record s.db { kv = upsert (row_of env ns key val) s.db.kv }))
      → P (kv_set env ns key val s).1.db
  unfolding kv_set
  kv_set_cases ns key val s before after =
      guarded_cases _ _ s before λ passed. let h = after passed in ground arith

  pub kv_del_cases :
      (ns key : String) (s : Store)
      → P s.db
      → P (record s.db { kv = delete ns key s.db.kv })
      → P (kv_del env ns key s).1.db
  unfolding kv_del
  kv_del_cases ns key s before after = ground arith

  pub cache_set_cases :
      (ns key : String) (val : Bytes) (ttl : ℤ) (s : Store)
      → P s.db
      → (check_quota env ns cache_table key (length val) s.db ≡ ok tt
          → P (record s.db { cache = upsert (entry env ns key val ttl) s.db.cache }))
      → P (cache_set env ns key val ttl s).1.db
  unfolding cache_set
  cache_set_cases ns key val ttl s before after =
      guarded_cases _ _ s before λ passed. let h = after passed in ground arith

  pub cache_get_cases :
      (ns key : String) (s : Store)
      → P s.db
      → P (record s.db { cache = delete ns key s.db.cache })
      → P (cache_get env ns key s).1.db
  unfolding cache_get
  cache_get_cases ns key s before after = ground arith

  pub blob_put_cases :
      (ns name : String) (val : Bytes) (s : Store)
      → P s.db
      → (check_quota env ns blob_table name (length val) s.db ≡ ok tt
          → P (record s.db { blob = upsert (row_of env ns name val) s.db.blob }))
      → P (blob_put env ns name val s).1.db
  unfolding blob_put
  blob_put_cases ns name val s before after =
      guarded_cases _ _ s before λ passed. let h = after passed in ground arith

  pub queue_push_cases :
      (ns name : String) (msg : Bytes) (s : Store)
      → P s.db
      → (check_quota env ns no_table "" (length msg) s.db ≡ ok tt
          → P (enqueue env ns name msg s.db))
      → P (queue_push env ns name msg s).1.db
  unfolding queue_push
  queue_push_cases ns name msg s before after =
      guarded_cases _ _ s before λ passed. let h = after passed in ground arith

  pub queue_pop_cases :
      (ns name : String) (s : Store)
      → P s.db
      → ((m : Message) (rest : List Message)
          → pop_row ns name s.db.queue ≡ some (m, rest)
          → P (record s.db { queue = rest }))
      → P (queue_pop env ns name s).1.db
  unfolding queue_pop
  queue_pop_cases ns name s before after = elim (Option-cases (pop_row ns name s.db.queue)) [
    | inl e ↦ ground arith
    | inr ((m, rest), e) ↦ let h = after m rest e in ground arith
  ]
