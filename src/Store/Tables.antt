-- ===== src/Store/Tables.antt =====
-- internal/store/store.go, the tables `kv`, `cache` and `blob`: rows under the primary key
-- (ns, key), with the effect of the SQL statements that the store sends.
use mykeep_foundry.Prelude.{
  Bool, Bytes, List, Option, String, [], arith, eq_iff, if◌then◌else◌, none, refl, some, ℕ, ◌&&◌,
  ◌+◌, ◌==◌, ◌∷◌, ◌≡◌, ◌≢◌, ◌≤◌,
}

-- A row of `kv`, `cache` or `blob`; `at` is the column updated_at, in `cache` expires_at.
pub record Row : Type 0 where
  pub ns : String
  pub key : String
  pub val : Bytes
  pub bytes : ℕ
  pub at : ℕ

-- WHERE ns=? AND k=?
unfoldable pub hit : String → String → Row → Bool
hit ns key r = r.ns == ns && r.key == key

-- SELECT … WHERE ns=? AND k=?
unfoldable pub select : String → String → List Row → Option Row
unfolding hit
select ns key [] = none
select ns key (r ∷ t) = if hit ns key r then some r else select ns key t

-- INSERT … ON CONFLICT(ns,k) DO UPDATE SET …
unfoldable pub upsert : Row → List Row → List Row
unfolding hit
upsert r [] = r ∷ []
upsert r (x ∷ t) = if hit r.ns r.key x then r ∷ t else x ∷ upsert r t

-- DELETE … WHERE ns=? AND k=?
unfoldable pub delete : String → String → List Row → List Row
unfolding hit
delete ns key [] = []
delete ns key (r ∷ t) = let rest = delete ns key t in if hit ns key r then rest else r ∷ rest

-- SELECT COALESCE(SUM(bytes),0) … WHERE ns=?
unfoldable pub sum_bytes : String → List Row → ℕ
sum_bytes ns [] = 0
sum_bytes ns (r ∷ t) = (if r.ns == ns then r.bytes else 0) + sum_bytes ns t

-- The column `bytes` of a row, 0 where there is none.
abbrev pub row_bytes : Option Row → ℕ
row_bytes none = 0
row_bytes (some r) = r.bytes

pub select-upsert :
    (ns key : String) (r : Row) (t : List Row)
    → select ns key (upsert r t) ≡ (if hit ns key r then some r else select ns key t)
unfolding select upsert
select-upsert ns key r [] = refl
select-upsert ns key r (x ∷ t) = ground (
  arith,
  eq_iff x.ns r.ns,
  eq_iff x.key r.key,
  eq_iff x.ns ns,
  eq_iff x.key key,
  eq_iff r.ns ns,
  eq_iff r.key key,
  select-upsert ns key r t,
)

pub select-delete :
    (ns key ms j : String) (t : List Row)
    → select ms j (delete ns key t) ≡ (if ns == ms && key == j then none else select ms j t)
unfolding select delete
select-delete ns key ms j [] = ground arith
select-delete ns key ms j (x ∷ t) = ground (
  arith,
  eq_iff x.ns ns,
  eq_iff x.key key,
  eq_iff x.ns ms,
  eq_iff x.key j,
  eq_iff ns ms,
  eq_iff key j,
  select-delete ns key ms j t,
)

-- An upsert adds the bytes of the new row to its namespace, and takes those of the old one away.
pub sum_bytes-upsert_self :
    (r : Row) (t : List Row)
    → sum_bytes r.ns (upsert r t) + row_bytes (select r.ns r.key t) ≡ sum_bytes r.ns t + r.bytes
unfolding sum_bytes upsert select
sum_bytes-upsert_self r [] = ground (arith, eq_iff r.ns r.ns)
sum_bytes-upsert_self r (x ∷ t) =
    ground (arith, eq_iff r.ns r.ns, eq_iff x.ns r.ns, sum_bytes-upsert_self r t)

pub sum_bytes-upsert_ne :
    (ns : String) (r : Row) (t : List Row) → r.ns ≢ ns → sum_bytes ns (upsert r t) ≡ sum_bytes ns t
unfolding sum_bytes upsert
sum_bytes-upsert_ne ns r [] h = ground (arith, eq_iff r.ns ns)
sum_bytes-upsert_ne ns r (x ∷ t) h =
    ground (arith, eq_iff r.ns ns, eq_iff x.ns ns, eq_iff x.ns r.ns, sum_bytes-upsert_ne ns r t h)

pub sum_bytes-delete-le :
    (ms ns key : String) (t : List Row) → sum_bytes ms (delete ns key t) ≤ sum_bytes ms t
unfolding sum_bytes delete
sum_bytes-delete-le ms ns key [] = omega arith
sum_bytes-delete-le ms ns key (x ∷ t) = ground (arith, sum_bytes-delete-le ms ns key t)

pub sum_bytes-delete_ne :
    (ms ns key : String) (t : List Row) → ns ≢ ms → sum_bytes ms (delete ns key t) ≡ sum_bytes ms t
unfolding sum_bytes delete
sum_bytes-delete_ne ms ns key [] h = refl
sum_bytes-delete_ne ms ns key (x ∷ t) h =
    ground (arith, eq_iff x.ns ns, eq_iff x.ns ms, sum_bytes-delete_ne ms ns key t h)

-- The bytes of one row are among those of its namespace.
pub row_bytes-le : (ns key : String) (t : List Row) → row_bytes (select ns key t) ≤ sum_bytes ns t
unfolding select sum_bytes
row_bytes-le ns key [] = omega arith
row_bytes-le ns key (x ∷ t) = ground (arith, row_bytes-le ns key t)
