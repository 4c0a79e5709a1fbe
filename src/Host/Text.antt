-- ===== src/Host/Text.antt =====
-- What internal/host/broker.go uses of the package `strings`, on texts as lists of code points.
-- The case mapping of code points beyond ASCII is a parameter.
use Prim.Native.Char.{code}
use mykeep_foundry.Prelude.{
  Bool, List, String, [], ap, arith, drop, drop-append, eqb, false, if◌then◌else◌, leb, length,
  length-append, ltb, map, refl, subst, suc, sym, take, true, zero, ℕ, ◌&&◌, ◌++◌, ◌+◌, ◌-◌, ◌↔◌,
  ◌∙◌, ◌∷◌, ◌≡◌,
}

abbrev pub Text : Type 0
Text = List ℕ

-- The code points of a native text. `String` has its own `[]` and `∷`.
abbrev pub codes : String → Text
codes String.[] = []
codes (String.◌∷◌ c s) = code c ∷ codes s

unfoldable pub text_eq : Text → Text → Bool
text_eq [] [] = true
text_eq [] (y ∷ ys) = false
text_eq (x ∷ xs) [] = false
text_eq (x ∷ xs) (y ∷ ys) = eqb x y && text_eq xs ys

-- The case mappings of Unicode, for the code points from 128 on.
pub record Casing : Type 0 where
  pub lower : ℕ → ℕ
  pub upper : ℕ → ℕ

lower_code : Casing → ℕ → ℕ
lower_code u c = if ltb c 128 then (if leb b'A' c && leb c b'Z' then c + 32 else c) else u.lower c

upper_code : Casing → ℕ → ℕ
upper_code u c = if ltb c 128 then (if leb b'a' c && leb c b'z' then c - 32 else c) else u.upper c

-- `strings.ToLower`, `strings.ToUpper`
unfoldable pub to_lower : Casing → Text → Text
unfolding lower_code
to_lower u = map (lower_code u)

unfoldable pub to_upper : Casing → Text → Text
unfolding upper_code
to_upper u = map (upper_code u)

-- `strings.HasPrefix`
unfoldable pub has_prefix : Text → Text → Bool
has_prefix s [] = true
has_prefix [] (p ∷ ps) = false
has_prefix (c ∷ s) (p ∷ ps) = eqb c p && has_prefix s ps

-- `strings.HasSuffix`
unfoldable pub has_suffix : Text → Text → Bool
unfolding text_eq
has_suffix s t = leb (length t) (length s) && text_eq (drop (length s - length t) s) t

-- `strings.TrimSuffix(s, ".")`
unfoldable pub trim_dot : Text → Text
unfolding has_suffix
trim_dot s = if has_suffix s (b'.' ∷ []) then take (length s - 1) s else s

pub text_eq_iff : (s t : Text) → (text_eq s t ≡ true) ↔ (s ≡ t)
unfolding text_eq
text_eq_iff [] [] = (λ h. refl, λ h. refl)
text_eq_iff [] (y ∷ ys) = (λ h. cc, λ h. cc)
text_eq_iff (x ∷ xs) [] = (λ h. cc, λ h. cc)
text_eq_iff (x ∷ xs) (y ∷ ys) =
    (λ h. ground (arith, (text_eq_iff xs ys).0), λ h. ground (arith, (text_eq_iff xs ys).1))

take-drop : (n : ℕ) (s : Text) → take n s ++ drop n s ≡ s
take-drop n [] = refl
take-drop zero (c ∷ s) = refl
take-drop (suc n) (c ∷ s) = ap (◌∷◌ c) (take-drop n s)

drop-length-append : (s t : Text) → drop (length (s ++ t) - length t) (s ++ t) ≡ t
drop-length-append s t =
    subst (λ (n : ℕ). drop n (s ++ t) ≡ t) (omega (arith, length-append s t)) (drop-append s t)

-- `HasSuffix` holds exactly when the text is something followed by the suffix.
pub has_suffix_iff : (s t : Text) → (has_suffix s t ≡ true) ↔ ((u : Text) × (s ≡ u ++ t))
unfolding has_suffix
has_suffix_iff s t = (
  λ h. (
    take (length s - length t) s,
    sym (take-drop (length s - length t) s)
        ∙ ap (◌++◌ (take (length s - length t) s))
            ((text_eq_iff (drop (length s - length t) s) t).0 (ground arith)),
  ),
  λ (u, e). rw e (
      ground (
        arith,
        length-append u t,
        (text_eq_iff (drop (length (u ++ t) - length t) (u ++ t)) t).1 (drop-length-append u t),
      )),
)
