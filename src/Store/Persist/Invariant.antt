-- ===== src/Store/Persist/Invariant.antt =====
-- What holds between the critical sections of `reseal` while the key is in place.
use mykeep_foundry.Prelude.{
  Bool, Bool-cases, Bytes, In, List, Option, String, [], ap, arith, eqb, eqb_iff, false, inl, inr,
  none, ok, refl, some, subst, suc, true, ℕ, ◌<◌, ◌∙◌, ◌≡◌, ◌≤◌, ◌⊎◌,
}
use mykeep_foundry.Store.Tools.{delete_row, delete_tool}
use mykeep_foundry.Store.State.{Db, Env, Store, mark_dirty, tools_delete, grants_delete}
use mykeep_foundry.Store.Persist.{Phase, idle, taken, landed, World, set_phase, change, cut_delete}
use mykeep_foundry.Secret.{Aead, open_blob}
use mykeep_foundry.Prelude.Int.{u64_mod, u64-eq}

-- `d` is `b` without the rows of some tools of `names`.
pub data Lost (names : List String) (b : Db) : Db → Type 0 where
  all_kept : Lost names b b
  row_lost :
      {d : Db} (name : String)
      → In name names
      → Lost names b d
      → Lost names b (record d { tools = delete_row name d.tools })

-- Where no `DeleteTool` is cut short, nothing is lost.
pub Lost-none : {b d : Db} → Lost [] b d → b ≡ d
Lost-none all_kept = refl
Lost-none (row_lost name named l) = absurd named

module _ (aead : Aead) (serialize : Db → Bytes) (key : Bytes) where
  -- The goroutine still owes the newest generation: it will write it, or mark the store dirty again.
  abbrev pub Owes : ℕ → Phase → Type 0
  Owes g idle = ⊥
  Owes g (taken gen raw) = gen ≡ g
  Owes g (landed gen none) = ⊥
  Owes g (landed gen (some e)) = gen ≡ g

  -- The file holds the database, sealed under the key.
  abbrev pub Holds : Option Bytes → Db → Type 0
  Holds none db = ⊥
  Holds (some blob) db = open_blob aead key blob ≡ ok (serialize db)

  gen-mark_dirty :
      (env : Env) (s : Store)
      → suc s.write_gen < u64_mod
      → (mark_dirty env s).write_gen ≡ suc s.write_gen
  unfolding mark_dirty
  gen-mark_dirty env s room = ground (arith, u64-eq (suc s.write_gen))

  dirty-mark_dirty : (env : Env) (s : Store) → (mark_dirty env s).dirty ≡ true
  unfolding mark_dirty
  dirty-mark_dirty env s = ground arith

  pub set_phase_self : (f : ℕ → Phase) (t : ℕ) (p : Phase) → set_phase f t p t ≡ p
  unfolding set_phase
  set_phase_self f t p = ground arith

  set_phase_ne : (f : ℕ → Phase) (t u : ℕ) (p : Phase) → eqb u t ≡ false → set_phase f t p u ≡ f u
  unfolding set_phase
  set_phase_ne f t u p h = rw h

  abbrev pub Owed : ℕ → (ℕ → Phase) → Type 0
  Owed g f = (t : ℕ) × Owes g (f t)

  -- When goroutine `t` moves from phase `q` to `p`, a debt is its own or stays with its owner.
  pub owed_split :
      (C : Type 0) (g t : ℕ) (f : ℕ → Phase) (p q : Phase)
      → f t ≡ q
      → (Owes g q → C)
      → (Owed g (set_phase f t p) → C)
      → Owed g f
      → C
  owed_split C g t f p q e own kept (u, debt) = elim (Bool-cases (eqb u t)) [
    | inl same ↦
        let here : u ≡ t = (eqb_iff u t).0 same in own (subst (Owes g) (ap f here ∙ e) debt)
    | inr other ↦ kept (u, rw (set_phase_ne f t u p other) debt)
  ]

module _ (aead : Aead) (serialize : Db → Bytes) (key : Bytes) (names : List String) where
  -- What was serialized, and what the file holds: the database, up to the rows that were lost since.
  abbrev pub Snapshot : Bytes → Db → Type 0
  Snapshot raw db = (b : Db) × Lost names b db × (raw ≡ serialize b)

  abbrev pub HoldsAt : Option Bytes → Db → Type 0
  HoldsAt disk db = (b : Db) × Lost names b db × Holds aead serialize key disk b

  -- A goroutine's snapshot is not newer than the database, and one of the newest generation is the
  -- database, up to rows lost since.
  abbrev pub PhaseOk : Store → Phase → Type 0
  PhaseOk s idle = Unit {0}
  PhaseOk s (taken gen raw) = (gen ≤ s.write_gen) × (gen ≡ s.write_gen → Snapshot raw s.db)
  PhaseOk s (landed gen e) = gen ≤ s.write_gen

  pub record Inv (w : World) : Type 0 where
    pub key_in_place : w.dek ≡ key
    pub phases : (t : ℕ) → PhaseOk w.store (w.phase t)
    pub persisted : w.persisted_gen ≤ w.store.write_gen
    pub on_disk :
        0 < w.persisted_gen → w.persisted_gen ≡ w.store.write_gen → HoldsAt w.disk w.store.db
    pub owed :
        w.store.dirty ≡ false
        → (w.persisted_gen ≡ w.store.write_gen)
          ⊎ ((t : ℕ) × Owes aead serialize key w.store.write_gen (w.phase t))

  pub set_phase-Ok :
      (s : Store) (f : ℕ → Phase) (t : ℕ) (p : Phase)
      → ((u : ℕ) → PhaseOk s (f u))
      → PhaseOk s p
      → (u : ℕ) → PhaseOk s (set_phase f t p u)
  unfolding set_phase
  set_phase-Ok s f t p old new u = elim (Bool-cases (eqb u t)) [
    | inl e ↦ rw e new
    | inr e ↦ rw e (old u)
  ]

  PhaseOk-change :
      (s : Store) (p : Phase) (s' : Store)
      → s'.write_gen ≡ suc s.write_gen
      → PhaseOk s p
      → PhaseOk s' p
  PhaseOk-change s idle s' e h = tt
  PhaseOk-change s (taken gen raw) s' e h = (omega arith, λ same. absurd (omega arith))
  PhaseOk-change s (landed gen r) s' e h = omega arith

  pub PhaseOk-clean :
      (s : Store) (d : Bool) (p : Phase) → PhaseOk s p → PhaseOk (record s { dirty = d }) p
  PhaseOk-clean s d idle h = tt
  PhaseOk-clean s d (taken gen raw) h = h
  PhaseOk-clean s d (landed gen r) h = h

  pub change-Inv :
      (env : Env) (db : Db) (w : World)
      → suc w.store.write_gen < u64_mod
      → Inv w
      → Inv (change aead serialize env db w)
  unfolding change
  change-Inv env db w room v =
      let newer = gen-mark_dirty aead serialize key env (record w.store { db = db }) room in
      let is_dirty = dirty-mark_dirty aead serialize key env (record w.store { db = db }) in
      record {
        key_in_place = v.key_in_place;
        phases = λ t.
            PhaseOk-change w.store (w.phase t) (mark_dirty env (record w.store { db = db })) newer
              (v.phases t);
        persisted = omega (arith, v.persisted, newer);
        on_disk = λ some_gen same. absurd (omega (arith, v.persisted, newer));
        owed = λ clean. absurd (cc (is_dirty));
      }

  PhaseOk-cut :
      (s s' : Store) (p : Phase)
      → s'.write_gen ≡ s.write_gen
      → ((b : Db) → Lost names b s.db → Lost names b s'.db)
      → PhaseOk s p
      → PhaseOk s' p
  PhaseOk-cut s s' idle same more h = tt
  PhaseOk-cut s s' (taken gen raw) same more (old, taken_of) =
      (omega arith, λ newest. let (b, l, e) = taken_of (newest ∙ same) in (b, more b l, e))
  PhaseOk-cut s s' (landed gen r) same more h = omega arith

  -- A `DeleteTool` that is cut short loses a row and owes nothing for it.
  pub cut_delete-Inv :
      (env : Env) (name : String) (w : World)
      → In name names
      → env.fails tools_delete ≡ false
      → env.fails grants_delete ≡ true
      → Inv w
      → Inv (cut_delete aead serialize env name w)
  unfolding cut_delete delete_tool
  cut_delete-Inv env name w named runs cut v =
      let more : (b : Db)
          → Lost names b w.store.db
          → Lost names b (record w.store.db { tools = delete_row name w.store.db.tools }) =
        λ b l. row_lost name named l in
      rw (runs, cut)
        (record {
          key_in_place = v.key_in_place;
          phases = λ t.
              PhaseOk-cut w.store
                (record w.store {
                  db = record w.store.db { tools = delete_row name w.store.db.tools };
                })
                (w.phase t) refl more (v.phases t);
          persisted = v.persisted;
          on_disk =
              λ some_gen same. let (b, l, held) = v.on_disk some_gen same in (b, more b l, held);
          owed = v.owed;
        })
