-- ===== src/Store/Files/Whole.antt =====
-- `atomicWrite` against a crash.
use mykeep_foundry.Store.Files.{failing, removed}
use mykeep_foundry.Prelude.{
  All, All-append, Bool-cases, Bytes, Option, Result, String, [], ap, arith, drop, eq_iff, eq_refl,
  err, if◌then◌else◌, inl, inr, none, ok, refl, some, take, take-drop, ◌==◌, ◌∙◌, ◌∷◌, ◌≡◌, ◌≢◌,
  ◌⊎◌,
}
use mykeep_foundry.Store.Persist.{start}
use mykeep_foundry.Store.Files.{
  written_to, synced_as, renamed_from, act, acts, File, Directory, find_file, remove_file,
  edit_file, SysCall, System, Attempt, rename_file, attempt, create_call, write_call, sync_call,
  close_call, chmod_call, rename_call, remove_call, atomic_write,
}

find_file-remove :
    (name j : String) (d : Directory)
    → find_file j (remove_file name d) ≡ (if name == j then none else find_file j d)
unfolding find_file remove_file
find_file-remove name j [] = ground arith
find_file-remove name j ((n, f) ∷ d) =
    ground (arith, eq_iff n name, eq_iff n j, eq_iff name j, find_file-remove name j d)

abbrev edited : (File → File) → Option File → Option File
edited g none = none
edited g (some f) = some (g f)

find_file-edit :
    (name j : String) (g : File → File) (d : Directory)
    → find_file j (edit_file name g d)
      ≡ (if name == j then edited g (find_file j d) else find_file j d)
unfolding find_file edit_file
find_file-edit name j g [] = ground arith
find_file-edit name j g ((n, f) ∷ d) =
    ground (arith, eq_iff n name, eq_iff n j, eq_iff name j, find_file-edit name j g d)

module _ (sys : System) (path : String) (content : Bytes) (start : Directory) where
  abbrev new_file : File
  new_file = record { written = content; synced = content }

  -- Every file but the temporary one is as it was.
  abbrev Same : Directory → Type 0
  Same e = (j : String) → sys.temp ≢ j → find_file j e ≡ find_file j start

  -- The new file stands under the path, and every other file is as it was.
  abbrev Placed : Directory → Type 0
  Placed e =
      (find_file path e ≡ some new_file)
      × ((j : String) → sys.temp ≢ j → path ≢ j → find_file j e ≡ find_file j start)

  -- How an attempt ends.
  pub Ends : Result SysCall (Unit {0}) → Directory → Type 0
  Ends (ok _) e = Placed e
  Ends (err c) e = Same e

  pub record Good (a : Attempt) : Type 0 where
    pub seen : All (λ e. Same e ⊎ Placed e) a.seen
    pub ends : Ends a.result a.left

  act-Good :
      (c : Option SysCall) (d : Directory) (after : Attempt)
      → Same d
      → Good after
      → Good (act sys c d after)
  unfolding act Ends
  act-Good none d after same good = record { seen = (inl same, good.seen); ends = good.ends }
  act-Good (some c) d after same good = record { seen = (inl same, tt); ends = same }

  Same-edit : (g : File → File) (d : Directory) → Same d → Same (edit_file sys.temp g d)
  Same-edit g d same j other =
      ground (arith, find_file-edit sys.temp j g d, eq_iff sys.temp j, same j other)

  find-edit :
      (g : File → File) (d : Directory) {f : File}
      → find_file sys.temp d ≡ some f
      → find_file sys.temp (edit_file sys.temp g d) ≡ some (g f)
  find-edit g d {f} h = find_file-edit sys.temp sys.temp g d ∙ rw (eq_refl sys.temp, h) refl

  rename-Placed :
      (d : Directory)
      → sys.temp ≢ path
      → find_file sys.temp d ≡ some new_file
      → Same d
      → Placed (rename_file sys.temp path d)
  unfolding rename_file renamed_from find_file
  rename-Placed d apart h same = rw h (
    ground (arith, eq_refl path),
    λ j other there. ground (
      arith,
      find_file-remove path j (remove_file sys.temp d),
      find_file-remove sys.temp j d,
      eq_iff path j,
      eq_iff sys.temp j,
      same j other,
    ),
  )

  last-Good : (d : Directory) → Placed d → Good (attempt sys [] d)
  unfolding attempt Ends
  last-Good d placed = record { seen = (inr placed, tt); ends = placed }

  acts-Good :
      (d : Directory)
      → sys.temp ≢ path
      → find_file sys.temp d ≡ some (record { written = []; synced = [] })
      → Same d
      → Good (attempt sys (acts sys path content) d)
  unfolding attempt acts
  acts-Good d apart h same =
      let part = edit_file sys.temp (written_to (take sys.torn content)) d in
      let full = edit_file sys.temp (written_to (drop sys.torn content)) part in
      let safe = edit_file sys.temp synced_as full in
      let s1 = Same-edit (written_to (take sys.torn content)) d same in
      let s2 = Same-edit (written_to (drop sys.torn content)) part s1 in
      let s3 = Same-edit synced_as full s2 in
      let h1 = find-edit (written_to (take sys.torn content)) d h in
      let h2 = find-edit (written_to (drop sys.torn content)) part h1 in
      let h3 =
        find-edit synced_as full h2
        ∙ ap some (
            unfold synced_as written_to in
            ap (λ (b : Bytes). record { written = b; synced = b }) (take-drop sys.torn content)) in
      act-Good (failing sys none) d _ same (
        act-Good (failing sys (some write_call)) part _ s1 (
          act-Good (failing sys (some sync_call)) full _ s2 (
            act-Good (failing sys (some close_call)) safe _ s3 (
              act-Good (failing sys (some chmod_call)) safe _ s3 (
                act-Good (failing sys (some rename_call)) safe _ s3
                  (last-Good _ (rename-Placed safe apart h3 s3)))))))

  Same-remove : (d : Directory) → Same d → Same (remove_file sys.temp d)
  Same-remove d same j other =
      ground (arith, find_file-remove sys.temp j d, eq_iff sys.temp j, same j other)

  Placed-remove : (d : Directory) → sys.temp ≢ path → Placed d → Placed (remove_file sys.temp d)
  Placed-remove d apart (placed, same) = (
    ground (arith, find_file-remove sys.temp path d, eq_iff sys.temp path),
    λ j other away.
        ground (arith, find_file-remove sys.temp j d, eq_iff sys.temp j, same j other away),
  )

  Ends-remove :
      (r : Result SysCall (Unit {0})) (d : Directory)
      → sys.temp ≢ path
      → Ends r d
      → Ends r (remove_file sys.temp d)
  unfolding Ends
  Ends-remove (ok _) d apart e = Placed-remove d apart e
  Ends-remove (err c) d apart e = Same-remove d e

  Ends-seen : (r : Result SysCall (Unit {0})) (d : Directory) → Ends r d → Same d ⊎ Placed d
  unfolding Ends
  Ends-seen (ok _) d e = inr e
  Ends-seen (err c) d e = inl e

  removed-Good : (a : Attempt) → sys.temp ≢ path → Good a → Good (removed sys a)
  unfolding removed
  removed-Good a apart good = record {
    seen = All-append _ a.seen _ good.seen (Ends-seen a.result _ last, tt);
    ends = last;
  }
    where
      last : Ends a.result (if sys.fails remove_call then a.left else remove_file sys.temp a.left)
      last = elim (Bool-cases (sys.fails remove_call)) [
        | inl e ↦ rw e good.ends
        | inr e ↦ rw e (Ends-remove a.result a.left apart good.ends)
      ]

  Same-created : Same ((sys.temp, record { written = []; synced = [] }) ∷ start)
  unfolding find_file
  Same-created j other = ground (arith, eq_iff sys.temp j)

-- Whatever call fails and wherever it crashes, `atomicWrite` leaves under the path the file that was
-- there or the whole new one, which then is on the medium too, and no other file but the temporary one
-- is touched. Where it returns no error the new file is there; where it returns one the old file is.
-- (The temporary file has another name than the path.)
pub atomic_write-Good :
    (sys : System) (path : String) (content : Bytes) (start : Directory)
    → sys.temp ≢ path
    → Good sys path content start (atomic_write sys path content start)
unfolding atomic_write find_file
atomic_write-Good sys path content start apart = elim (Bool-cases (sys.fails create_call)) [
  | inl e ↦
      rw e (record { seen = (inl (λ j other. refl), tt); ends = unfold Ends in λ j other. refl })
  | inr e ↦
      let good = removed-Good sys path content start _ apart (
        acts-Good sys path content start ((sys.temp, record { written = []; synced = [] }) ∷ start)
          apart (rw (eq_refl sys.temp) refl) (Same-created sys path content start)) in
      rw e (record { seen = (inl (λ j other. refl), good.seen); ends = good.ends })
]
