-- ===== src/Server/Accepts.antt =====
-- internal/server/server.go: what the test of `controlAuth` lets pass.
use mykeep_foundry.Server.{has_token, Options, Request, token_ok, cookie, control_auth}
use mykeep_foundry.Prelude.{
  Bool-cases, Bytes, Option, String, [], ap, arith, eqb_iff, inl, inr, length, none, refl, some,
  true, ◌↔◌, ◌≡◌, ◌≢◌, ◌⊎◌,
}
use mykeep_foundry.Host.Text.{text_eq, text_eq_iff}

-- The control token of the server, the session in the cookie of that name, and nothing else.
abbrev pub Accepts : Options → String → Bytes → Type 0
Accepts opt name session =
    (r : Request)
    → (control_auth opt r ≡ true) ↔ (
        ((opt.control_token ≢ []) × (r.token ≡ opt.control_token))
        ⊎ ((session ≢ []) × (cookie name r.cookies ≡ some session)))

token_ok_iff : (got want : Bytes) → (token_ok got want ≡ true) ↔ ((want ≢ []) × (got ≡ want))
unfolding token_ok
token_ok_iff got want = (
  λ h. (λ e. ground (arith, (text_eq_iff want []).1 e), (text_eq_iff got want).0 (ground arith)),
  λ (set, e). elim (Bool-cases (text_eq want [])) [
    | inl unset ↦ absurd (set ((text_eq_iff want []).0 unset))
    | inr filled ↦
        rw e (ground (arith, (text_eq_iff want want).1 refl, eqb_iff (length want) (length want)))
  ],
)

has_token_iff :
    (got : Option Bytes) (want : Bytes)
    → (has_token got want ≡ true) ↔ ((want ≢ []) × (got ≡ some want))
unfolding has_token
has_token_iff none want = (λ h. cc, λ h. cc)
has_token_iff (some got) want = (
  λ h. let (set, e) = (token_ok_iff got want).0 h in (set, ap some e),
  λ (set, e). (token_ok_iff got want).1 (set, ground (arith, e)),
)

pub control_auth-Accepts :
    (opt : Options) (name : String) (session : Bytes)
    → opt.control_session ≡ session
    → opt.session_cookie ≡ name
    → Accepts opt name session
unfolding control_auth
control_auth-Accepts opt name session under named r =
    rw (under, named)
      (
        λ h. elim (Bool-cases (token_ok r.token opt.control_token)) [
          | inl e ↦ inl ((token_ok_iff r.token opt.control_token).0 e)
          | inr e ↦ inr ((has_token_iff (cookie name r.cookies) session).0 (ground arith))
        ],
        λ h. elim h [
          | inl e ↦ let t = (token_ok_iff r.token opt.control_token).1 e in ground arith
          | inr (set, e) ↦
              let t = (has_token_iff (cookie name r.cookies) session).1 (set, e) in
              elim (Bool-cases (text_eq session [])) [
                | inl unset ↦ absurd (set ((text_eq_iff session []).0 unset))
                | inr f ↦ ground arith
              ]
        ],
      )
