-- ===== src/Tests/Storage.antt =====
-- The store at concrete inputs.
use mykeep_foundry.Prelude.{
  Bytes, [], arith, err, if◌then◌else◌, leb, none, ok, refl, some, true, ◌+◌, ◌∷◌, ◌≡◌, ◌⊎◌,
}
use mykeep_foundry.Store.Tables.{select, sum_bytes}
use mykeep_foundry.Store.State.{ToolRow, err_quota}
use mykeep_foundry.Store.ReadBack.{cache_get-cache_set, queue_pop-oldest}
use mykeep_foundry.Store.Quota.Bounds.{total, replaced, check_quota-exact, check_quota-unread}
use mykeep_foundry.Store.Quota.{
  ns_used, kv_table, over_limit, check_quota, limit_of, queue_bytes, existing,
}
use mykeep_foundry.Store.Queue.Fifo.{contents}
use mykeep_foundry.Store.Queue.{queue_pop}
use mykeep_foundry.Store.Cache.{cache_set, cache_get}
use mykeep_foundry.Prelude.Int.{pos, int64}
use mykeep_foundry.Tests.{quiet, afterwards, unread, notes, notes_db}

check_quota-exact_example : check_quota quiet "notes" kv_table "a" 11 notes_db ≡ (
    if leb (total "notes" notes_db + 11) (10 + replaced "notes" kv_table "a" notes_db)
    then ok tt
    else err err_quota)
unfolding limit_of total sum_bytes queue_bytes
check_quota-exact_example =
    check_quota-exact quiet "notes" kv_table "a" 11 notes_db 10 (λ stmt. refl) refl (omega arith)
      (omega arith)

check_quota-unread_example : check_quota unread "notes" kv_table "a" 5000 notes_db ≡ ok tt
check_quota-unread_example = check_quota-unread unread "notes" kv_table "a" 5000 notes_db refl

-- An entry that lives for half a second is gone after a second.
cache_get-cache_set_example :
    (cache_get afterwards "notes" "c"
      (cache_set quiet "notes" "c" (5 ∷ []) (pos 500000000) notes).1).0
    ≡ ok none
unfolding cache_set check_quota ns_used over_limit limit_of sum_bytes queue_bytes int64 existing
    select
cache_get-cache_set_example =
    cache_get-cache_set quiet afterwards "notes" "c" (5 ∷ []) (pos 500000000) notes refl refl
      (omega arith)

queue_pop-oldest_example :
    ((queue_pop quiet "other" "q" notes ≡ (ok none, notes))
      × (contents "other" "q" notes_db.queue ≡ []))
    ⊎ ((m : Bytes) × ((queue_pop quiet "other" "q" notes).0 ≡ ok (some m))
        × (contents "other" "q" notes_db.queue
            ≡ m ∷ contents "other" "q" (queue_pop quiet "other" "q" notes).1.db.queue))
queue_pop-oldest_example = queue_pop-oldest quiet "other" "q" notes (omega arith, omega arith) refl

abbrev clock_row : ToolRow
clock_row = record {
  name = "clock";
  version = "1";
  class = "dev";
  manifest = 1 ∷ [];
  source = 2 ∷ [];
  source_sha = "s";
  verified = true;
}
