-- ===== src/Store/Queue/Fifo.antt =====
-- `QueuePush` and `QueuePop` against the list of the messages that a queue holds.
use mykeep_foundry.Prelude.{
  Bool-cases, Bytes, List, String, [], ap, arith, eq_iff, false, if◌then◌else◌, inl, inr, none,
  refl, some, subst, true, ℕ, ◌++◌, ◌+◌, ◌==◌, ◌∷◌, ◌≡◌, ◌≢◌, ◌≤◌, ◌⊎◌,
}
use mykeep_foundry.Store.Tables.{hit}
use mykeep_foundry.Store.State.{Message}
use mykeep_foundry.Store.Quota.{queue_bytes}
use mykeep_foundry.Store.Queue.{on_queue, pop_row}
use mykeep_foundry.Store.Queue.Order.{Ascending, Ascending-weaken, pop_row-match, pop_row-skip}

-- The messages of one queue, oldest first.
unfoldable pub contents : String → String → List Message → List Bytes
contents ns name [] = []
contents ns name (m ∷ t) =
    let rest = contents ns name t in if on_queue ns name m then m.msg ∷ rest else rest

-- `rest` is the table without the first row of the queue, which is `m`.
pub data Pops (ns name : String) : List Message → Message → List Message → Type 0 where
  here : {m : Message} {t : List Message} → on_queue ns name m ≡ true → Pops ns name (m ∷ t) m t
  there :
      {x m : Message} {t rest : List Message}
      → on_queue ns name x ≡ false
      → Pops ns name t m rest
      → Pops ns name (x ∷ t) m (x ∷ rest)

pub pop_row-Pops :
    (ns name : String) (lo hi : ℕ) (t : List Message)
    → Ascending lo hi t
    → ((pop_row ns name t ≡ none) × (contents ns name t ≡ []))
      ⊎ ((m : Message) × (rest : List Message) × (pop_row ns name t ≡ some (m, rest))
          × Pops ns name t m rest)
unfolding contents
pop_row-Pops ns name lo hi [] a = inl (unfold pop_row in refl, refl)
pop_row-Pops ns name lo hi (x ∷ t) a = elim (Bool-cases (on_queue ns name x)) [
  | inl hit ↦ inr (x, t, pop_row-match ns name lo hi x t a hit, here hit)
  | inr miss ↦ elim (pop_row-Pops ns name x.id hi t a.1) [
    | inl e ↦ inl (rw (pop_row-skip ns name lo hi x t a miss, e.0), rw miss e.1)
    | inr (m, rest, e, p) ↦
        inr (m, x ∷ rest, rw (pop_row-skip ns name lo hi x t a miss, e), there miss p)
  ]
]

pub Pops-pop_row :
    (ns name : String) (lo hi : ℕ) (t : List Message) {m : Message} {rest : List Message}
    → Ascending lo hi t
    → pop_row ns name t ≡ some (m, rest)
    → Pops ns name t m rest
Pops-pop_row ns name lo hi t {m} {rest} a e = elim (pop_row-Pops ns name lo hi t a) [
  | inl (none_left, _) ↦ cc
  | inr (x, r, found, p) ↦
      let same : ◌≡◌ {A = Message × List Message} (x, r) (m, rest) = cc in
      subst (λ (q : Message × List Message). Pops ns name t q.0 q.1) same p
]

pub Pops-contents :
    {ns name : String} {t rest : List Message} {m : Message}
    → Pops ns name t m rest
    → contents ns name t ≡ m.msg ∷ contents ns name rest
unfolding contents
Pops-contents (here hit) = rw hit
Pops-contents (there miss p) = rw (miss, Pops-contents p)

pub Pops-contents_ne :
    {ns name : String} {t rest : List Message} {m : Message} (ms other : String)
    → (ns ≢ ms) ⊎ (name ≢ other)
    → Pops ns name t m rest
    → contents ms other rest ≡ contents ms other t
unfolding contents on_queue
Pops-contents_ne {ns} {name} ms other h (here {m = x} hit) =
    ground (arith, eq_iff x.ns ns, eq_iff x.name name, eq_iff x.ns ms, eq_iff x.name other)
Pops-contents_ne ms other h (there miss p) = cc (Pops-contents_ne ms other h p)

pub Pops-bytes :
    {ns name : String} {t rest : List Message} {m : Message} (ms : String)
    → Pops ns name t m rest
    → queue_bytes ms rest ≤ queue_bytes ms t
unfolding queue_bytes
Pops-bytes ms (here hit) = omega arith
Pops-bytes ms (there miss p) = omega (arith, Pops-bytes ms p)

pub Pops-bytes_ne :
    {ns name : String} {t rest : List Message} {m : Message} (ms : String)
    → ns ≢ ms
    → Pops ns name t m rest
    → queue_bytes ms rest ≡ queue_bytes ms t
unfolding queue_bytes on_queue
Pops-bytes_ne {ns} {name} ms h (here {m = x} hit) = ground (arith, eq_iff x.ns ns, eq_iff x.ns ms)
Pops-bytes_ne ms h (there miss p) = omega (arith, Pops-bytes_ne ms h p)

pub Pops-Ascending :
    {ns name : String} {t rest : List Message} {m : Message} (lo hi : ℕ)
    → Pops ns name t m rest
    → Ascending lo hi t
    → Ascending lo hi rest
Pops-Ascending {rest = rest} lo hi (here {m = x} hit) a =
    Ascending-weaken x.id lo hi rest (omega arith) a.1
Pops-Ascending lo hi (there {x = x} miss p) a = (a.0, Pops-Ascending x.id hi p a.1)

pub contents-append :
    (ns name : String) (t : List Message) (m : Message)
    → contents ns name (t ++ m ∷ [])
      ≡ contents ns name t ++ (if on_queue ns name m then m.msg ∷ [] else [])
unfolding contents
contents-append ns name [] m = refl
contents-append ns name (x ∷ t) m = elim (Bool-cases (on_queue ns name x)) [
  | inl hit ↦ rw hit (ap (◌∷◌ x.msg) (contents-append ns name t m))
  | inr miss ↦ rw miss (contents-append ns name t m)
]

pub queue_bytes-append :
    (ns : String) (t : List Message) (m : Message)
    → queue_bytes ns (t ++ m ∷ []) ≡ queue_bytes ns t + (if m.ns == ns then m.bytes else 0)
unfolding queue_bytes
queue_bytes-append ns [] m = omega arith
queue_bytes-append ns (x ∷ t) m = omega (arith, queue_bytes-append ns t m)
