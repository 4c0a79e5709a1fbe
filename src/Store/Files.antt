-- ===== src/Store/Files.antt =====
-- internal/store/util.go, `atomicWrite`: the system calls that put a file in place, as the directory
-- that each of them leaves.
pub mod Whole
use mykeep_foundry.Prelude.{
  Bool, Bytes, List, Option, Result, String, [], drop, err, if◌then◌else◌, none, ok, some, take, ℕ,
  ◌++◌, ◌==◌, ◌∷◌,
}
use mykeep_foundry.Store.Persist.{change}

-- A file's content: what a reader sees, and what is on the medium if the power goes.
pub record File : Type 0 where
  pub written : Bytes
  pub synced : Bytes

abbrev pub Directory : Type 0
Directory = List (String × File)

unfoldable pub find_file : String → Directory → Option File
find_file name [] = none
find_file name ((n, f) ∷ d) = if n == name then some f else find_file name d

unfoldable pub remove_file : String → Directory → Directory
remove_file name [] = []
remove_file name ((n, f) ∷ d) =
    let rest = remove_file name d in if n == name then rest else (n, f) ∷ rest

unfoldable pub edit_file : String → (File → File) → Directory → Directory
edit_file name g [] = []
edit_file name g ((n, f) ∷ d) = (n, if n == name then g f else f) ∷ edit_file name g d

-- The system calls that can fail.
pub data SysCall : Type 0 where
  create_call write_call sync_call close_call chmod_call rename_call remove_call : SysCall

-- What the system decides: the name of the temporary file, the calls that fail, and how many bytes a
-- write has moved at some moment.
pub record System : Type 0 where
  pub temp : String
  pub fails : SysCall → Bool
  pub torn : ℕ

-- What a row of calls leaves: the first error, the directory, and every directory on the way, in which
-- a crash can leave it.
pub record Attempt : Type 0 where
  pub result : Result SysCall (Unit {0})
  pub seen : List Directory
  pub left : Directory

-- A call with its effect; a part of a call, which cannot fail by itself, has none.
abbrev pub Act : Type 0
Act = Option SysCall × (Directory → Directory)

written_to : Bytes → File → File
written_to content f = record f { written = f.written ++ content }

synced_as : File → File
synced_as f = record f { synced = f.written }

-- `os.Rename`
renamed_from : String → Option File → Directory → Directory
renamed_from path none d = d
renamed_from path (some f) d = (path, f) ∷ remove_file path d

unfoldable pub rename_file : String → String → Directory → Directory
unfolding renamed_from remove_file
rename_file from path d = renamed_from path (find_file from d) (remove_file from d)

module _ (sys : System) where
  failing : Option SysCall → Option SysCall
  failing none = none
  failing (some c) = if sys.fails c then some c else none

  act : Option SysCall → Directory → Attempt → Attempt
  act (some c) d after = record { result = err c; seen = d ∷ []; left = d }
  act none d after = record after { seen = d ∷ after.seen }

  -- The calls in their order, up to the first that fails.
  unfoldable pub attempt : List Act → Directory → Attempt
  unfolding act failing
  attempt [] d = record { result = ok tt; seen = d ∷ []; left = d }
  attempt ((c, change) ∷ rest) d = act (failing c) d (attempt rest (change d))

  -- The deferred `os.Remove`.
  removed : Attempt → Attempt
  removed a =
      let last = if sys.fails remove_call then a.left else remove_file sys.temp a.left in
      record { result = a.result; seen = a.seen ++ last ∷ []; left = last }

  -- The calls after `os.CreateTemp`. The file's mode is not modelled, so `os.Chmod` can only fail.
  acts : String → Bytes → List Act
  unfolding written_to synced_as rename_file edit_file
  acts path content =
      (none, edit_file sys.temp (written_to (take sys.torn content)))
      ∷ (some write_call, edit_file sys.temp (written_to (drop sys.torn content)))
      ∷ (some sync_call, edit_file sys.temp synced_as)
      ∷ (some close_call, λ d. d)
      ∷ (some chmod_call, λ d. d)
      ∷ (some rename_call, rename_file sys.temp path)
      ∷ []

  -- `atomicWrite`, less the best-effort fsync of the directory at its end, whose errors are dropped and
  -- which changes no file.
  unfoldable pub atomic_write : String → Bytes → Directory → Attempt
  unfolding attempt removed acts
  atomic_write path content d =
      if sys.fails create_call
      then record { result = err create_call; seen = d ∷ []; left = d }
      else let a =
          attempt (acts path content) ((sys.temp, record { written = []; synced = [] }) ∷ d) in
        let after = removed a in record after { seen = d ∷ after.seen }
