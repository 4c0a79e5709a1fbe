-- ===== src/Store/ReadBack.antt =====
-- What a read returns after a write that succeeded, for the four kinds of storage.
use mykeep_foundry.Prelude.{
  Bytes, String, [], arith, eq_iff, false, if◌then◌else◌, inl, inr, ltb, none, not, ok, some, ◌&&◌,
  ◌++◌, ◌+◌, ◌/◌, ◌==◌, ◌||◌, ◌∷◌, ◌≡◌, ◌≤◌, ◌⊎◌,
}
use mykeep_foundry.Store.Tables.{hit, select-upsert, select-delete}
use mykeep_foundry.Store.State.{kv_select, queue_pop_stmt, cache_select, blob_select, Env, Store}
use mykeep_foundry.Store.Queue.Fifo.{contents, pop_row-Pops, Pops-contents, contents-append}
use mykeep_foundry.Store.Queue.{on_queue, message, enqueue, queue_push, queue_pop}
use mykeep_foundry.Store.Ordered.{IsOrdered}
use mykeep_foundry.Store.Kv.{row_of, kv_set, kv_get, kv_del}
use mykeep_foundry.Store.Cache.{expiry, cache_set, expired, cache_get, entry}
use mykeep_foundry.Store.Blob.{blob_put, blob_get}
use mykeep_foundry.Prelude.Int.{ℤ, pos, pos_part, ltb_ℤ}

-- After a `KVSet` that succeeded, a `KVGet` whose statement works returns the new value at that
-- namespace and key, and at any other namespace or key what it returned before.
pub kv_get-kv_set :
    (env later : Env) (ns key ms j : String) (val : Bytes) (s : Store)
    → (kv_set env ns key val s).0 ≡ ok tt
    → later.fails kv_select ≡ false
    → kv_get later ms j (kv_set env ns key val s).1
      ≡ (if ns == ms && key == j then ok (some val) else kv_get later ms j s)
unfolding kv_set kv_get hit
kv_get-kv_set env later ns key ms j val s done works =
    ground (arith, select-upsert ms j (row_of env ns key val) s.db.kv)

-- After a `KVDel` that succeeded, a `KVGet` whose statement works finds nothing at that namespace and
-- key, and elsewhere what it found before.
pub kv_get-kv_del :
    (env later : Env) (ns key ms j : String) (s : Store)
    → (kv_del env ns key s).0 ≡ ok tt
    → later.fails kv_select ≡ false
    → kv_get later ms j (kv_del env ns key s).1
      ≡ (if ns == ms && key == j then ok none else kv_get later ms j s)
unfolding kv_del kv_get
kv_get-kv_del env later ns key ms j s done works = ground (arith, select-delete ns key ms j s.db.kv)

-- After a `BlobPut` that succeeded, a `BlobGet` whose statement works returns the new content at that
-- namespace and name, and at any other namespace or name what it returned before.
pub blob_get-blob_put :
    (env later : Env) (ns name ms j : String) (val : Bytes) (s : Store)
    → (blob_put env ns name val s).0 ≡ ok tt
    → later.fails blob_select ≡ false
    → blob_get later ms j (blob_put env ns name val s).1
      ≡ (if ns == ms && name == j then ok (some val) else blob_get later ms j s)
unfolding blob_put blob_get hit
blob_get-blob_put env later ns name ms j val s done works =
    ground (arith, select-upsert ms j (row_of env ns name val) s.db.blob)

-- A `CacheGet` whose first statement works, after a `CacheSet` that succeeded, returns the value exactly while the entry has no
-- expiry or the clock, in milliseconds, stands before it. (The clock stands past the first
-- millisecond of 1970: an expiry of 0 means none.)
pub cache_get-cache_set :
    (env later : Env) (ns key : String) (val : Bytes) (ttl : ℤ) (s : Store)
    → (cache_set env ns key val ttl s).0 ≡ ok tt
    → later.fails cache_select ≡ false
    → 1000000 ≤ env.clock
    → (cache_get later ns key (cache_set env ns key val ttl s).1).0 ≡ (
        if not (ltb_ℤ (pos 0) ttl)
          || ltb (later.clock / 1000000) ((env.clock + pos_part ttl) / 1000000)
        then ok (some val)
        else ok none)
unfolding cache_set cache_get expiry expired hit
cache_get-cache_set env later ns key val ttl s done works since = ground (
  arith,
  select-upsert ns key (entry env ns key val ttl) s.db.cache,
  eq_iff ns ns,
  eq_iff key key,
)

-- Where its statement works, `QueuePop` returns the oldest message that the queue holds and leaves the
-- others of it behind, or finds nothing in an empty queue and changes nothing. (The ids are in order.)
pub queue_pop-oldest :
    (env : Env) (ns name : String) (s : Store)
    → IsOrdered s.db
    → env.fails queue_pop_stmt ≡ false
    → ((queue_pop env ns name s ≡ (ok none, s)) × (contents ns name s.db.queue ≡ []))
      ⊎ ((m : Bytes) × ((queue_pop env ns name s).0 ≡ ok (some m))
          × (contents ns name s.db.queue
              ≡ m ∷ contents ns name (queue_pop env ns name s).1.db.queue))
unfolding queue_pop
queue_pop-oldest env ns name s a works = elim (pop_row-Pops ns name 0 s.db.sequence s.db.queue a) [
  | inl e ↦ inl (ground arith, e.1)
  | inr (m, rest, e, p) ↦ inr (m.msg, ground arith, ground (arith, Pops-contents p))
]

-- A `QueuePush` that succeeded has put the message behind those that the queue held, and every other
-- queue holds what it held.
pub contents-queue_push :
    (env : Env) (ns name ms other : String) (msg : Bytes) (s : Store)
    → (queue_push env ns name msg s).0 ≡ ok tt
    → contents ms other (queue_push env ns name msg s).1.db.queue
      ≡ contents ms other s.db.queue ++ (if ns == ms && name == other then msg ∷ [] else [])
unfolding queue_push enqueue on_queue
contents-queue_push env ns name ms other msg s done =
    ground (arith, contents-append ms other s.db.queue (message env ns name msg s.db))
