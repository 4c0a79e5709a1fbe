-- ===== src/Prelude/Lists.antt =====
-- Lists over the native numbers, and membership by recursion.
use Prim.Native.Nat.{ℕ, suc, ◌+◌, ◌≤◌, ◌<◌, min}
use Prim.Native.Nat
use mathlib.Core.Path.{◌≡◌, refl, ap, subst}
use mathlib.Core.Logic.{◌⊎◌, ◌↔◌, inl, inr}
use mathlib.Core.Bool.{Bool, true, false, ◌||◌, ◌&&◌}
use mathlib.Core.List.{List, [], ◌∷◌, ◌++◌}
use native.Mathlib.Omega.{arith}
use mykeep_foundry.Prelude.Tests.{Bool-cases}

-- A byte string: a Go `[]byte`, each element below 256.
abbrev pub Bytes : Type 0
Bytes = List ℕ

module _ {ℓ} {A : Type ℓ} where
  abbrev pub length : List A → ℕ
  length [] = 0
  length (x ∷ xs) = suc (length xs)

  abbrev pub take : ℕ → List A → List A
  take n [] = []
  take Nat.zero (x ∷ xs) = []
  take (suc n) (x ∷ xs) = x ∷ take n xs

  abbrev pub drop : ℕ → List A → List A
  drop n [] = []
  drop Nat.zero (x ∷ xs) = x ∷ xs
  drop (suc n) (x ∷ xs) = drop n xs

  abbrev pub any : (A → Bool) → List A → Bool
  any p [] = false
  any p (x ∷ xs) = p x || any p xs

  abbrev pub all : (A → Bool) → List A → Bool
  all p [] = true
  all p (x ∷ xs) = p x && all p xs

  pub take-drop : (n : ℕ) (xs : List A) → take n xs ++ drop n xs ≡ xs
  take-drop n [] = refl
  take-drop Nat.zero (x ∷ xs) = refl
  take-drop (suc n) (x ∷ xs) = ap (◌∷◌ x) (take-drop n xs)

  pub length-append : (xs ys : List A) → length (xs ++ ys) ≡ length xs + length ys
  length-append [] ys = omega arith
  length-append (x ∷ xs) ys = omega (arith, length-append xs ys)

  pub length-take-le : (n : ℕ) (xs : List A) → length (take n xs) ≤ n
  length-take-le n [] = omega arith
  length-take-le Nat.zero (x ∷ xs) = omega arith
  length-take-le (suc n) (x ∷ xs) = omega (arith, length-take-le n xs)

  pub take-all : (n : ℕ) (xs : List A) → length xs ≤ n → take n xs ≡ xs
  take-all n [] h = refl
  take-all Nat.zero (x ∷ xs) h = absurd (omega arith)
  take-all (suc n) (x ∷ xs) h = ap (◌∷◌ x) (take-all n xs (omega arith))

  pub take-append : (xs ys : List A) → take (length xs) (xs ++ ys) ≡ xs
  take-append [] [] = refl
  take-append [] (y ∷ ys) = refl
  take-append (x ∷ xs) ys = ap (◌∷◌ x) (take-append xs ys)

  pub drop-append : (xs ys : List A) → drop (length xs) (xs ++ ys) ≡ ys
  drop-append [] [] = refl
  drop-append [] (y ∷ ys) = refl
  drop-append (x ∷ xs) ys = drop-append xs ys

  -- A predicate at every element, by recursion: the tactics read and build it.
  abbrev pub All {κ} : (A → Type κ) → List A → Type κ
  All P [] = Unit
  All P (x ∷ xs) = P x × All P xs

  pub All-All {κ} : {Q : A → Type κ} (h : (a : A) → Q a) (xs : List A) → All Q xs
  All-All h [] = tt
  All-All h (x ∷ xs) = (h x, All-All h xs)

  pub All-map {κ μ} :
      {Q : A → Type κ} {R : A → Type μ} (h : (a : A) → Q a → R a) (xs : List A)
      → All Q xs
      → All R xs
  All-map h [] q = tt
  All-map h (x ∷ xs) q = (h x q.0, All-map h xs q.1)

  pub All-append {κ} : (Q : A → Type κ) (xs ys : List A) → All Q xs → All Q ys → All Q (xs ++ ys)
  All-append Q [] ys p q = q
  All-append Q (x ∷ xs) ys p q = (p.0, All-append Q xs ys p.1 q)

-- The element stands in the list.
abbrev pub In : {A : Type 0} → A → List A → Type 0
In a [] = ⊥
In a (x ∷ xs) = (a ≡ x) ⊎ In a xs

-- `any` finds an element for which the test stands for a predicate.
module _ {A : Type 0} (p : A → Bool) (Q : A → Type 0) (stands : (a : A) → (p a ≡ true) ↔ Q a) where
  pub any-finds : (xs : List A) → any p xs ≡ true → (a : A) × In a xs × Q a
  any-finds [] h = cc
  any-finds (x ∷ xs) h = elim (Bool-cases (p x)) [
    | inl e ↦ (x, inl refl, (stands x).0 e)
    | inr e ↦ let (a, i, q) = any-finds xs (ground arith) in (a, inr i, q)
  ]

  pub any-found : (a : A) (xs : List A) → In a xs → Q a → any p xs ≡ true
  any-found a [] i q = absurd i
  any-found a (x ∷ xs) (inl e) q = let h = (stands x).1 (subst Q e q) in ground arith
  any-found a (x ∷ xs) (inr i) q = let h = any-found a xs i q in ground arith
