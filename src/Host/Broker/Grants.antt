-- ===== src/Host/Broker/Grants.antt =====
-- Which hosts a grant covers.
use mykeep_foundry.Prelude.{
  Bool-cases, In, List, [], any-finds, any-found, arith, inl, inr, refl, true, ◌++◌, ◌↔◌, ◌∷◌, ◌≡◌,
  ◌⊎◌,
}
use mykeep_foundry.Host.Text.{
  Text, Casing, to_lower, has_prefix, trim_dot, text_eq, text_eq_iff, has_suffix_iff,
}
use mykeep_foundry.Host.Broker.{grant_matches, host_allowed}

-- The host, without a final dot and in lower case, is the entry in lower case, or the entry begins
-- with a dot and the host ends with it.
abbrev pub Covers : Casing → Text → Text → Type 0
Covers u a host =
    (to_lower u a ≡ to_lower u (trim_dot host))
    ⊎ ((s : Text) × (to_lower u a ≡ b'.' ∷ s)
        × ((pre : Text) × (to_lower u (trim_dot host) ≡ pre ++ to_lower u a)))

prefix_dot : (a : Text) → has_prefix a (b'.' ∷ []) ≡ true → (s : Text) × (a ≡ b'.' ∷ s)
unfolding has_prefix
prefix_dot [] h = cc
prefix_dot (c ∷ s) h = (s, ground arith)

empty_prefix : (s : Text) → has_prefix s [] ≡ true
unfolding has_prefix
empty_prefix [] = refl
empty_prefix (c ∷ s) = refl

dot_prefix : (a s : Text) → a ≡ b'.' ∷ s → has_prefix a (b'.' ∷ []) ≡ true
dot_prefix a s e = rw e (unfold has_prefix in empty_prefix s)

module _ (u : Casing) (host : Text) where
  matches-Covers :
      (a : Text)
      → grant_matches (to_lower u (trim_dot host)) (to_lower u a) ≡ true
      → Covers u a host
  unfolding grant_matches
  matches-Covers a h = elim (Bool-cases (text_eq (to_lower u a) (to_lower u (trim_dot host)))) [
    | inl same ↦ inl ((text_eq_iff _ _).0 same)
    | inr other ↦
        let (s, e) = prefix_dot (to_lower u a) (ground arith) in
        inr (s, e, (has_suffix_iff (to_lower u (trim_dot host)) (to_lower u a)).0 (ground arith))
  ]

  Covers-matches :
      (a : Text)
      → Covers u a host
      → grant_matches (to_lower u (trim_dot host)) (to_lower u a) ≡ true
  unfolding grant_matches
  Covers-matches a (inl same) =
      let h = (text_eq_iff (to_lower u a) (to_lower u (trim_dot host))).1 same in rw h
  Covers-matches a (inr (s, e, suffix)) =
      let dot = dot_prefix (to_lower u a) s e in
      let h = (has_suffix_iff (to_lower u (trim_dot host)) (to_lower u a)).1 suffix in ground arith

  -- A host is allowed exactly when an entry of the grant covers it.
  pub host_allowed_iff :
      (allow : List Text)
      → (host_allowed u host allow ≡ true) ↔ ((a : Text) × In a allow × Covers u a host)
  unfolding host_allowed
  host_allowed_iff allow = (
    any-finds _ (λ a. Covers u a host) (λ a. (matches-Covers a, Covers-matches a)) allow,
    λ (a, i, q).
        any-found _ (λ a. Covers u a host) (λ a. (matches-Covers a, Covers-matches a)) a allow i q,
  )
