-- ===== src/Server/Routes/Guards.antt =====
-- The guards in front of the two planes.
use mykeep_foundry.Prelude.{
  Bool-cases, List, Option, String, [], arith, eq_iff, inl, inr, refl, some, subst, true, ℕ, ◌&&◌,
  ◌==◌, ◌∷◌, ◌≡◌, ◌⊎◌,
}
use mykeep_foundry.Store.State.{Env, Store}
use mykeep_foundry.Server.{
  Request, Body, error_body, Handled, Server, token_ok, control_auth, from_loopback, replied,
  write_err,
}
use mykeep_foundry.Registry.Client.{Client}
use mykeep_foundry.Server.Routes.{
  require_token, require_control, loopback_only, use_handler, control_handler, plane_at, use_route,
  control_route, use_plane, control_plane, serve_http, serve_path,
}

-- A refusal: the status, and all as the request found it.
pub record Refused (s : Store) (market : Option Client) (h : Handled) : Type 0 where
  pub status : ℕ
  pub body : Body
  pub refuses : (status ≡ 401) ⊎ (status ≡ 403)
  pub as_before : h ≡ replied status body s market

module _ {M : Type 0} (srv : Server M) (r : Request) where
  -- What the USE plane asks for: the agent's token, from this machine unless the LAN is let in.
  pub record Agent : Type 0 where
    pub token : token_ok r.token srv.opt.use_token ≡ true
    pub near : (srv.opt.enable_lan ≡ true) ⊎ (from_loopback srv.wire r ≡ true)

  -- What the CONTROL plane asks for: the control token or the session's cookie, from this machine.
  pub record Human : Type 0 where
    pub auth : control_auth srv.opt r ≡ true
    pub near : from_loopback srv.wire r ≡ true

  refuse_401 :
      (s : Store) (market : Option Client)
      → Refused s market (write_err 401 "unauthorized" s market)
  refuse_401 s market = record {
    status = 401;
    body = error_body "unauthorized";
    refuses = inl refl;
    as_before = refl;
  }

  refuse_403 :
      (s : Store) (market : Option Client)
      → Refused s market (write_err 403 "loopback_only" s market)
  refuse_403 s market = record {
    status = 403;
    body = error_body "loopback_only";
    refuses = inr refl;
    as_before = refl;
  }

  module _ (moments : ℕ → Env) (rest : List String) (s : Store) (market : Option Client) where
    -- A request to the USE plane gets through only as the agent's.
    pub use_plane-guarded :
        Refused s market (use_plane srv moments rest r s market)
        ⊎ (Agent
            × (use_plane srv moments rest r s market
                ≡ use_handler srv moments (use_route r.method rest) r s market))
    unfolding use_plane require_token loopback_only
    use_plane-guarded = elim (Bool-cases (token_ok r.token srv.opt.use_token)) [
      | inr t ↦ elim (Bool-cases srv.opt.enable_lan) [
        | inl lan ↦ rw (lan, t) (inl (refuse_401 s market))
        | inr lan ↦ elim (Bool-cases (from_loopback srv.wire r)) [
          | inl l ↦ rw (lan, l, t) (inl (refuse_401 s market))
          | inr l ↦ rw (lan, l) (inl (refuse_403 s market))
        ]
      ]
      | inl t ↦ elim (Bool-cases srv.opt.enable_lan) [
        | inl lan ↦ inr (record { token = t; near = inl lan }, rw (lan, t) refl)
        | inr lan ↦ elim (Bool-cases (from_loopback srv.wire r)) [
          | inl l ↦ inr (record { token = t; near = inr l }, rw (lan, l, t) refl)
          | inr l ↦ rw (lan, l) (inl (refuse_403 s market))
        ]
      ]
    ]

    pub control_plane-guarded :
        Refused s market (control_plane srv moments rest r s market)
        ⊎ (Human
            × (control_plane srv moments rest r s market
                ≡ control_handler srv moments (control_route r.method rest) r s market))
    unfolding control_plane require_control loopback_only
    control_plane-guarded = elim (Bool-cases (from_loopback srv.wire r)) [
      | inr l ↦ rw l (inl (refuse_403 s market))
      | inl l ↦ elim (Bool-cases (control_auth srv.opt r)) [
        | inl a ↦ inr (record { auth = a; near = l }, rw (l, a) refl)
        | inr a ↦ rw (l, a) (inl (refuse_401 s market))
      ]
    ]

    abbrev AdmittedAt : String → String → Type 0
    AdmittedAt a b =
        ((a ≡ "v1") × (b ≡ "foundry") × Agent) ⊎ ((a ≡ "api") × (b ≡ "foundry") × Human)

    use-admits :
        {h : Handled} → use_plane srv moments rest r s market ≡ h → Refused s market h ⊎ Agent
    use-admits {h} same = elim use_plane-guarded [
      | inl refusal ↦ inl (subst (Refused s market) same refusal)
      | inr (admits, _) ↦ inr admits
    ]

    control-admits :
        {h : Handled} → control_plane srv moments rest r s market ≡ h → Refused s market h ⊎ Human
    control-admits {h} same = elim control_plane-guarded [
      | inl refusal ↦ inl (subst (Refused s market) same refusal)
      | inr (admits, _) ↦ inr admits
    ]

    plane-admits :
        (a b : String) {h : Handled}
        → plane_at srv moments a b rest r s market ≡ some h
        → Refused s market h ⊎ AdmittedAt a b
    unfolding plane_at
    plane-admits a b {h} served = elim (Bool-cases (a == "v1" && b == "foundry")) [
      | inl e ↦ elim (use-admits {h = h} (ground arith)) [
        | inl refusal ↦ inl refusal
        | inr admits ↦
            inr (inl (ground (arith, eq_iff a "v1"), ground (arith, eq_iff b "foundry"), admits))
      ]
      | inr e ↦ elim (Bool-cases (a == "api" && b == "foundry")) [
        | inl f ↦ elim (control-admits {h = h} (ground arith)) [
          | inl refusal ↦ inl refusal
          | inr admits ↦
              inr (inr (ground (arith, eq_iff a "api"), ground (arith, eq_iff b "foundry"), admits))
        ]
        | inr f ↦ absurd (ground arith)
      ]
    ]

module _ {M : Type 0} (srv : Server M) (moments : ℕ → Env) (r : Request) where
  -- The path is below `/p/foundry/`.
  pub IsBelow : String → Type 0
  IsBelow p = (rest : List String) × (r.path ≡ p ∷ "foundry" ∷ rest)

  segments-admit :
      (path : List String) (s : Store) (market : Option Client) {h : Handled}
      → r.path ≡ path
      → serve_path srv moments path r s market ≡ some h
      → Refused s market h ⊎ ((IsBelow "v1" × Agent srv r) ⊎ (IsBelow "api" × Human srv r))
  unfolding serve_path IsBelow
  segments-admit [] s market at_path served = cc
  segments-admit (a ∷ []) s market at_path served = cc
  segments-admit (a ∷ b ∷ []) s market at_path served = cc
  segments-admit (a ∷ b ∷ c ∷ rest) s market {h} at_path served =
      elim (plane-admits srv r moments (c ∷ rest) s market a b {h = h} served) [
        | inl refusal ↦ inl refusal
        | inr (inl (v1, foundry, agent)) ↦
            inr (inl ((c ∷ rest, rw (at_path, v1, foundry) refl), agent))
        | inr (inr (api, foundry, human)) ↦
            inr (inr ((c ∷ rest, rw (at_path, api, foundry) refl), human))
      ]

  -- A request that the server answers is refused with 401 or 403, with nothing changed and nothing
  -- done, or it is for the USE plane, with the agent's token and from this machine unless the LAN is
  -- let in, or it is for the CONTROL plane, with the control token or the session's cookie and from
  -- this machine.
  pub serve_http-guarded :
      (s : Store) (market : Option Client) {h : Handled}
      → serve_http srv moments r s market ≡ some h
      → Refused s market h ⊎ ((IsBelow "v1" × Agent srv r) ⊎ (IsBelow "api" × Human srv r))
  unfolding serve_http
  serve_http-guarded s market served = segments-admit r.path s market refl served
