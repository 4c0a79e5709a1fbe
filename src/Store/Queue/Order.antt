-- ===== src/Store/Queue/Order.antt =====
-- The order of the queue's rows: ids ascend along the table, so the row with the least id is the
-- first that matches.
use mathlib.Core.Option
use mykeep_foundry.Prelude.{
  List, Option-cases, String, [], arith, false, inl, inr, refl, some, true, ℕ, ◌++◌, ◌<◌, ◌∷◌, ◌≡◌,
  ◌≤◌,
}
use mykeep_foundry.Store.State.{Message}
use mykeep_foundry.Store.Queue.{on_queue, oldest_id, rows_without, pop_row}

-- The ids ascend, above `lo` and up to `hi`.
abbrev pub Ascending : ℕ → ℕ → List Message → Type 0
Ascending lo hi [] = lo ≤ hi
Ascending lo hi (m ∷ t) = (lo < m.id) × Ascending m.id hi t

pub Ascending-weaken :
    (lo lo' hi : ℕ) (t : List Message) → lo' ≤ lo → Ascending lo hi t → Ascending lo' hi t
Ascending-weaken lo lo' hi [] h a = omega arith
Ascending-weaken lo lo' hi (m ∷ t) h a = (omega arith, a.1)

pub Ascending-append :
    (lo hi : ℕ) (t : List Message) (m : Message)
    → Ascending lo hi t
    → hi < m.id
    → Ascending lo m.id (t ++ m ∷ [])
Ascending-append lo hi [] m a h = (omega arith, omega arith)
Ascending-append lo hi (x ∷ t) m a h = (a.0, Ascending-append x.id hi t m a.1 h)

pub oldest_id-above :
    (ns name : String) (lo hi i : ℕ) (t : List Message)
    → Ascending lo hi t
    → oldest_id ns name t ≡ some i
    → lo < i
unfolding oldest_id
oldest_id-above ns name lo hi i [] a h = cc
oldest_id-above ns name lo hi i (x ∷ t) a h = elim (Option-cases (oldest_id ns name t)) [
  | inl e ↦ ground arith
  | inr (j, e) ↦ ground (arith, oldest_id-above ns name x.id hi j t a.1 e)
]

pub rows_without-above :
    (i lo hi : ℕ) (t : List Message) → Ascending lo hi t → i ≤ lo → rows_without i t ≡ t
unfolding rows_without
rows_without-above i lo hi [] a h = refl
rows_without-above i lo hi (x ∷ t) a h = ground (arith, rows_without-above i x.id hi t a.1)

pub Ascending-rows_without :
    (i lo hi : ℕ) (t : List Message) → Ascending lo hi t → Ascending lo hi (rows_without i t)
unfolding rows_without
Ascending-rows_without i lo hi [] a = a
Ascending-rows_without i lo hi (x ∷ t) a =
    ground (
      arith,
      Ascending-rows_without i x.id hi t a.1,
      Ascending-weaken x.id lo hi (rows_without i t),
    )

-- The first row that matches is the one that is popped.
pub pop_row-match :
    (ns name : String) (lo hi : ℕ) (x : Message) (t : List Message)
    → Ascending lo hi (x ∷ t)
    → on_queue ns name x ≡ true
    → pop_row ns name (x ∷ t) ≡ some (x, t)
unfolding pop_row
pop_row-match ns name lo hi x t a hit = elim (Option-cases (oldest_id ns name t)) [
  | inl e ↦ ground (arith, e, rows_without-above x.id x.id hi t a.1)
  | inr (j, e) ↦
      ground
        (arith, oldest_id-above ns name x.id hi j t a.1 e, rows_without-above x.id x.id hi t a.1)
]

-- A row of another queue is kept in its place.
pub pop_row-skip :
    (ns name : String) (lo hi : ℕ) (x : Message) (t : List Message)
    → Ascending lo hi (x ∷ t)
    → on_queue ns name x ≡ false
    → pop_row ns name (x ∷ t) ≡ Option.map (λ (m, rest). (m, x ∷ rest)) (pop_row ns name t)
unfolding pop_row
pop_row-skip ns name lo hi x t a miss = elim (Option-cases (oldest_id ns name t)) [
  | inl e ↦ ground arith
  | inr (j, e) ↦ ground (arith, oldest_id-above ns name x.id hi j t a.1 e)
]
