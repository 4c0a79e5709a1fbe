-- ===== src/Store/Queue.antt =====
-- internal/store/store.go, `QueuePush` and `QueuePop`.
pub mod Order
pub mod Fifo
use mathlib.Core.Option
use mykeep_foundry.Prelude.{
  Bool, Bytes, List, Option, Result, String, [], eqb, err, if◌then◌else◌, length, ltb, map, none,
  ok, some, suc, ℕ, ◌&&◌, ◌++◌, ◌==◌, ◌∷◌,
}
use mykeep_foundry.Prelude.Int.{i64_mod}
use mykeep_foundry.Store.State.{
  Db, Env, Store, StoreErr, Message, driver, queue_insert, queue_pop_stmt, exec, now_ms, mark_dirty,
}
use mykeep_foundry.Store.Quota.{check_quota, no_table}
use mykeep_foundry.Store.Kv.{guarded}

-- WHERE ns=? AND name=?
unfoldable pub on_queue : String → String → Message → Bool
on_queue ns name m = m.ns == ns && m.name == name

-- The smaller id, where there are two.
abbrev pub least : ℕ → Option ℕ → ℕ
least a none = a
least a (some b) = if ltb b a then b else a

-- SELECT id FROM queue WHERE ns=? AND name=? ORDER BY id LIMIT 1
unfoldable pub oldest_id : String → String → List Message → Option ℕ
unfolding on_queue
oldest_id ns name [] = none
oldest_id ns name (m ∷ t) =
    let rest = oldest_id ns name t in if on_queue ns name m then some (least m.id rest) else rest

-- The row with an id, and the rows without it: DELETE FROM queue WHERE id=… RETURNING id,msg
unfoldable pub row_with : ℕ → List Message → Option Message
row_with id [] = none
row_with id (m ∷ t) = if eqb m.id id then some m else row_with id t

unfoldable pub rows_without : ℕ → List Message → List Message
rows_without id [] = []
rows_without id (m ∷ t) = let rest = rows_without id t in if eqb m.id id then rest else m ∷ rest

-- The row that `QueuePush` sends: AUTOINCREMENT takes the id above all that were ever given.
abbrev pub message : Env → String → String → Bytes → Db → Message
message env ns name msg db = record {
  ns = ns;
  name = name;
  id = suc db.sequence;
  msg = msg;
  bytes = length msg;
  enq_at = now_ms env;
}

-- INSERT INTO queue
unfoldable pub enqueue : Env → String → String → Bytes → Db → Db
enqueue env ns name msg db = record db {
  queue = db.queue ++ message env ns name msg db ∷ [];
  sequence = suc db.sequence;
}

-- The INSERT fails when the ids are used up (SQLITE_FULL).
unfoldable pub insert : Env → String → String → Bytes → Store → Result StoreErr (Unit {0}) × Store
unfolding exec enqueue
insert env ns name msg s =
    if ltb (suc s.db.sequence) i64_mod
    then exec env queue_insert (enqueue env ns name msg) s
    else (err driver, s)

unfoldable pub queue_push :
    Env → String → String → Bytes → Store → Result StoreErr (Unit {0}) × Store
unfolding insert
queue_push env ns name msg s =
    guarded (check_quota env ns no_table "" (length msg) s.db) (insert env ns name msg) s

delete_id : Option ℕ → List Message → Option (Message × List Message)
unfolding row_with rows_without
delete_id none t = none
delete_id (some id) t = Option.map (λ m. (m, rows_without id t)) (row_with id t)

-- The statement of `QueuePop`: the row that it returns, and the table that it leaves.
unfoldable pub pop_row : String → String → List Message → Option (Message × List Message)
unfolding oldest_id delete_id
pop_row ns name t = delete_id (oldest_id ns name t) t

-- `sql.ErrNoRows` is no error of `QueuePop`, and dirties nothing.
unfoldable pub popped :
    Env → Option (Message × List Message) → Store → Result StoreErr (Option Bytes) × Store
unfolding mark_dirty
popped env none s = (ok none, s)
popped env (some (m, rest)) s =
    (ok (some m.msg), mark_dirty env (record s { db = record s.db { queue = rest } }))

unfoldable pub queue_pop : Env → String → String → Store → Result StoreErr (Option Bytes) × Store
unfolding popped pop_row
queue_pop env ns name s =
    if env.fails queue_pop_stmt then (err driver, s) else popped env (pop_row ns name s.db.queue) s
