-- ===== src/Store/Ordered.antt =====
-- The ids in the queue table stay in order under every call, as AUTOINCREMENT promises.
use mykeep_foundry.Prelude.{Bytes, String, arith}
use mykeep_foundry.Store.State.{Db, Env, Store}
use mykeep_foundry.Store.Queue.Order.{Ascending, Ascending-append}
use mykeep_foundry.Store.Queue.Fifo.{Pops-pop_row, Pops-Ascending}
use mykeep_foundry.Store.Queue.{enqueue, queue_push, queue_pop}
use mykeep_foundry.Store.Cases.{queue_push_cases, queue_pop_cases}

abbrev pub IsOrdered : Db → Type 0
IsOrdered db = Ascending 0 db.sequence db.queue

pub queue_push-IsOrdered :
    (env : Env) (ns name : String) (msg : Bytes) (s : Store)
    → IsOrdered s.db
    → IsOrdered (queue_push env ns name msg s).1.db
unfolding enqueue
queue_push-IsOrdered env ns name msg s a =
    queue_push_cases IsOrdered env ns name msg s a
      λ passed. Ascending-append 0 s.db.sequence s.db.queue _ a (omega arith)

pub queue_pop-IsOrdered :
    (env : Env) (ns name : String) (s : Store)
    → IsOrdered s.db
    → IsOrdered (queue_pop env ns name s).1.db
queue_pop-IsOrdered env ns name s a = queue_pop_cases IsOrdered env ns name s a λ m rest e.
    Pops-Ascending 0 s.db.sequence
      (Pops-pop_row ns name 0 s.db.sequence s.db.queue {m = m} {rest = rest} a e) a
