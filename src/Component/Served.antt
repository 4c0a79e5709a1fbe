-- ===== src/Component/Served.antt =====
-- Requests to the planes against the component.
use mykeep_foundry.Component.{serve_parts, after_request, with_parts, Parts, Component, mounted}
use mykeep_foundry.Prelude.{Option, arith, none, refl, some, sym, ℕ, ◌≡◌}
use mykeep_foundry.Store.State.{Env}
use mykeep_foundry.Server.{Request, Handled}

-- The component serves before and after, under the same options.
pub record SameServer {M : Type 0} (before after : Component M) : Type 0 where
  pub old_parts : Parts M
  pub new_parts : Parts M
  pub served : before.parts ≡ some old_parts
  pub serves_on : after.parts ≡ some new_parts
  pub same : new_parts.srv ≡ old_parts.srv

module _ {M : Type 0} (moments : ℕ → Env) (r : Request) where
  after_request-srv :
      (p : Parts M) (o : Option Handled) {h : Handled} {p' : Parts M}
      → after_request p o ≡ some (h, p')
      → p'.srv ≡ p.srv
  unfolding after_request
  after_request-srv p none e = cc
  after_request-srv p (some g) e = ground (arith, e)

  serve_parts-srv :
      (ps : Option (Parts M)) {h : Handled} {p' : Parts M}
      → serve_parts moments r ps ≡ some (h, p')
      → (p : Parts M) × (ps ≡ some p) × (p'.srv ≡ p.srv)
  unfolding serve_parts
  serve_parts-srv none e = cc
  serve_parts-srv (some p) e = (p, refl, after_request-srv p _ e)

  with_parts-SameServer :
      (c : Component M) (o : Option (Handled × Parts M)) {h : Handled} {c' : Component M}
      → o ≡ serve_parts moments r c.parts
      → with_parts c o ≡ some (h, c')
      → SameServer c c'
  unfolding with_parts
  with_parts-SameServer c none made e = cc
  with_parts-SameServer c (some (g, p')) {h} {c'} made e =
      let (p, was, same) = serve_parts-srv c.parts (sym made) in
      record {
        old_parts = p;
        new_parts = p';
        served = was;
        serves_on = ground (arith, e);
        same = same;
      }

  pub mounted-SameServer :
      (c : Component M) {h : Handled} {c' : Component M}
      → mounted moments r c ≡ some (h, c')
      → SameServer c c'
  unfolding mounted
  mounted-SameServer c e = with_parts-SameServer c (serve_parts moments r c.parts) refl e
