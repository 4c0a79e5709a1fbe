-- ===== src/Tests.antt =====
-- Runs at concrete inputs: the data that they share.
mod Storage
mod Egress
mod Seal
mod Market
mod Catalog
mod Runs
mod Invocation
mod Pipes
mod Planes
mod Drives
mod Keys
mod Visits
use mykeep_foundry.Prelude.{
  Bool, Bytes, Option, String, [], arith, eq_iff, false, none, refl, some, true, zero, ℕ, ◌==◌, ◌∷◌,
  ◌≡◌, ◌≢◌,
}
use mykeep_foundry.Store.State.{Db, Stmt, quota_select, Env, Store, empty_db, opened}
use mykeep_foundry.Secret.{Aead}
use mykeep_foundry.Prelude.Int.{pos}
use Prim.Native.Nat.{suc}

-- A call in which every statement works.
abbrev quiet : Env
quiet = record { clock = 1700000000000000000; fails = λ stmt. false }

-- A second later.
abbrev afterwards : Env
afterwards = record { clock = 1700000001000000000; fails = λ stmt. false }

abbrev is_quota_select : Stmt → Bool
is_quota_select quota_select = true
is_quota_select _ = false

-- A call in which the driver cannot read the limit.
abbrev unread : Env
unread = record { clock = 1700000000000000000; fails = is_quota_select }

-- The namespace "notes" may hold ten bytes, and holds two; "other" holds a message.
abbrev notes_db : Db
notes_db = record empty_db {
  kv = record { ns = "notes"; key = "a"; val = 1 ∷ 2 ∷ []; bytes = 2; at = 0 } ∷ [];
  queue = record { ns = "other"; name = "q"; id = 1; msg = 7 ∷ []; bytes = 1; enq_at = 0 } ∷ [];
  sequence = 1;
  quota = ("notes", pos 10) ∷ [];
}

abbrev notes : Store
notes = opened notes_db

-- A cipher that puts a tag before the text.
abbrev untag : Bytes → Option Bytes
untag [] = none
untag (x ∷ t) = some t

abbrev tagging : Aead
tagging = record {
  nonce_size = 12;
  encrypt = λ key nonce text. 42 ∷ text;
  decrypt = λ key nonce text. untag text;
  decrypt-encrypt = λ key nonce text. refl;
}

abbrev nonce12 : Bytes
nonce12 = 1 ∷ 2 ∷ 3 ∷ 4 ∷ 5 ∷ 6 ∷ 7 ∷ 8 ∷ 9 ∷ 10 ∷ 11 ∷ 12 ∷ []

abbrev times : ℕ → Bytes
times zero = []
times (suc n) = 1 ∷ times n

abbrev key32 : Bytes
key32 = times 32

differ : (a b : String) → (a == b) ≡ false → a ≢ b
differ a b h = ground (arith, eq_iff a b)
