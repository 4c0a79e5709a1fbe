-- ===== src/Host/Broker/Guard.antt =====
-- What a request that leaves the broker is bound to.
use mykeep_foundry.Host.Broker.{
  checked_url, granted, resolved, pinned_to, exchange, send, prepared, sent, answer_of, Url,
  FetchReq, FetchResp, Exchange, Reply, Net, Broker, hop_or_dangerous, safe_headers, or_first, vet,
  limited, fetch, host_allowed, FetchErr, bad_url,
}
use mykeep_foundry.Prelude.{
  >>=-eq-ok, All, Bool, Bool-cases, Bytes, In, List, Option, Option-cases, Result, Result-cases, [],
  any-found, arith, err, false, if◌then◌else◌, inl, inr, length, ltb, none, ok, refl, some, subst,
  suc, take, true, zero, ℕ, ◌+◌, ◌∷◌, ◌≡◌, ◌>>=◌,
}
use mykeep_foundry.Host.Text.{Text, Casing, codes, text_eq, to_lower, text_eq_iff}
use mykeep_foundry.Host.Broker.Grants.{Covers, host_allowed_iff}
use mykeep_foundry.Host.Address.{Ip, blocked}

-- Every address passes the denylist.
vet-All :
    (p : Bool) (ips : List Ip) (pinned : Option Ip) {r : Option Ip}
    → vet p ips pinned ≡ ok r
    → All (λ ip. blocked p ip ≡ false) ips
unfolding vet
vet-All p [] pinned h = tt
vet-All p (ip ∷ ips) pinned {r} h = elim (Bool-cases (blocked p ip)) [
  | inl e ↦ cc
  | inr e ↦ (e, vet-All p ips (or_first pinned ip) {r = r} (ground arith))
]

-- What was pinned stays pinned.
vet-pinned :
    (p : Bool) (ips : List Ip) (q : Ip) {r : Option Ip} → vet p ips (some q) ≡ ok r → r ≡ some q
unfolding vet
vet-pinned p [] q h = ground arith
vet-pinned p (ip ∷ ips) q {r} h = elim (Bool-cases (blocked p ip)) [
  | inl e ↦ cc
  | inr e ↦ vet-pinned p ips q {r = r} (ground arith)
]

vet-first :
    (p : Bool) (ip : Ip) (ips : List Ip) {r : Option Ip}
    → vet p (ip ∷ ips) none ≡ ok r
    → r ≡ some ip
vet-first p ip ips {r} h = elim (Bool-cases (blocked p ip)) [
  | inl e ↦ unfold vet in cc
  | inr e ↦ vet-pinned p ips ip {r = r} (unfold vet in ground arith)
]

-- The headers that a tool may not set.
abbrev pub forbidden : List Text
forbidden =
    codes "host"
    ∷ codes "content-length"
    ∷ codes "connection"
    ∷ codes "transfer-encoding"
    ∷ codes "upgrade"
    ∷ []

not-forbidden :
    (u : Casing) (k : Text) → hop_or_dangerous u k ≡ false → ¬ In (to_lower u k) forbidden
unfolding hop_or_dangerous
not-forbidden u k h i =
    let found =
      any-found (λ n. text_eq (to_lower u k) n) (λ n. to_lower u k ≡ n) (text_eq_iff (to_lower u k))
        (to_lower u k) forbidden i refl in
    cc

safe_headers_lem :
    (u : Casing) (hs : List (Text × Text))
    → All (λ h. ¬ In (to_lower u h.0) forbidden) (safe_headers u hs)
unfolding safe_headers
safe_headers_lem u [] = tt
safe_headers_lem u ((k, v) ∷ hs) = elim (Bool-cases (hop_or_dangerous u k)) [
  | inl e ↦ rw e (safe_headers_lem u hs)
  | inr e ↦ rw e (not-forbidden u k e, safe_headers_lem u hs)
]

-- One byte more than the limit is read: it tells whether there was more, and is cut off again.
cut-more : (n : ℕ) (xs : Bytes) → ltb n (length (take (n + 1) xs)) ≡ ltb n (length xs)
cut-more n [] = refl
cut-more zero (x ∷ xs) = ground arith
cut-more (suc n) (x ∷ xs) = let ih = cut-more n xs in ground arith

cut-take :
    (n : ℕ) (xs : Bytes)
    → (if ltb n (length (take (n + 1) xs)) then take n (take (n + 1) xs) else take (n + 1) xs)
      ≡ take n xs
cut-take n [] = ground arith
cut-take zero (x ∷ xs) = ground arith
cut-take (suc n) (x ∷ xs) = let ih = cut-take n xs in ground arith

-- A request that was handed to the transport.
pub record Guarded (net : Net) (b : Broker) (allow : List Text) (req : FetchReq) (x : Exchange)
    : Type 0 where
  pub url : Url
  pub parsed : net.parse req.url ≡ some url
  pub target : x.url ≡ req.url
  pub covered : (a : Text) × In a allow × Covers net.casing a url.hostname
  pub others : List Ip
  pub resolves : net.resolve url.hostname ≡ some (x.address ∷ others)
  pub vetted : All (λ ip. blocked b.allow_private ip ≡ false) (x.address ∷ others)
  pub safe : All (λ h. ¬ In (to_lower net.casing h.0) forbidden) x.headers

-- What the transport's answer becomes.
unfoldable pub Replied : Net → Broker → Exchange → Result FetchErr FetchResp → Type 0
Replied net b x (err e) = (net.transport x ≡ none) × (e ≡ bad_url)
Replied net b x (ok resp) =
    (r : Reply) × (net.transport x ≡ some r)
    × (resp.status ≡ r.status)
    × (resp.headers ≡ r.headers)
    × (resp.body ≡ take b.max_bytes r.body)
    × (resp.truncated ≡ ltb b.max_bytes (length r.body))

-- How a `fetch` ends: refused before the transport, with an error; or with a guarded request, and what
-- its answer becomes.
unfoldable pub Fetched :
    Net → Broker → List Text → FetchReq → Option Exchange × Result FetchErr FetchResp → Type 0
unfolding Replied
Fetched net b allow req (none, err e) = Unit {0}
Fetched net b allow req (none, ok resp) = ⊥
Fetched net b allow req (some x, r) = Guarded net b allow req x × Replied net b x r

module _ (net : Net) (b : Broker) (allow : List Text) (req : FetchReq) where
  answer_of-Replied :
      (x : Exchange) (o : Option Reply) → net.transport x ≡ o → Replied net b x (answer_of net b o)
  unfolding answer_of limited Replied
  answer_of-Replied x none e = (e, refl)
  answer_of-Replied x (some r) e =
      (r, e, refl, refl, cut-take b.max_bytes r.body, cut-more b.max_bytes r.body)

  checked_url-ok : {u : Url} → checked_url net b req.url ≡ ok u → net.parse req.url ≡ some u
  unfolding checked_url
  checked_url-ok h = ground arith

  granted-ok :
      (host : Text) {r : Unit {0}}
      → granted net b host allow ≡ ok r
      → host_allowed net.casing host allow ≡ true
  unfolding granted
  granted-ok host h = ground arith

  resolved-ok :
      (host : Text) {ips : List Ip}
      → resolved net b host ≡ ok ips
      → (ip : Ip) × (rest : List Ip) × (ips ≡ ip ∷ rest) × (net.resolve host ≡ some (ip ∷ rest))
  unfolding resolved
  resolved-ok host {ips} h = elim (Option-cases (net.resolve host)) [
    | inl e ↦ ground arith
    | inr ([], e) ↦ ground arith
    | inr (ip ∷ rest, e) ↦ (ip, rest, ground arith, e)
  ]

  -- What follows the resolver: the addresses are vetted, and the request is for the first.
  pinned-ok :
      (u : Url) (ip : Ip) (rest : List Ip) {x : Exchange}
      → (do
        pinned ← vet b.allow_private (ip ∷ rest) none
        ip ← pinned_to net b pinned
        ok (exchange net b u ip req))
        ≡ ok x
      → All (λ q. blocked b.allow_private q ≡ false) (ip ∷ rest) × (exchange net b u ip req ≡ x)
  unfolding pinned_to
  pinned-ok u ip rest {x} h =
      let (pinned, passed, h1) = >>=-eq-ok (vet b.allow_private (ip ∷ rest) none) _ h in
      let first = vet-first b.allow_private ip rest {r = pinned} passed in
      let same = rw first at h1 in
      (vet-All b.allow_private (ip ∷ rest) none {r = pinned} passed, ground (arith, same))

  assemble :
      (u : Url) (ip : Ip) (rest : List Ip) {x : Exchange}
      → net.parse req.url ≡ some u
      → host_allowed net.casing u.hostname allow ≡ true
      → net.resolve u.hostname ≡ some (ip ∷ rest)
      → All (λ q. blocked b.allow_private q ≡ false) (ip ∷ rest)
      → exchange net b u ip req ≡ x
      → Guarded net b allow req x
  assemble u ip rest parsed allowed found vetted same = subst (Guarded net b allow req) same (
      unfold exchange in
      record {
        url = u;
        parsed = parsed;
        target = refl;
        covered = (host_allowed_iff net.casing u.hostname allow).0 allowed;
        others = rest;
        resolves = found;
        vetted = vetted;
        safe = safe_headers_lem net.casing req.headers;
      })

  prepared-Guarded : {x : Exchange} → prepared net b allow req ≡ ok x → Guarded net b allow req x
  unfolding prepared
  prepared-Guarded {x} h =
      let (u, hu, h1) = >>=-eq-ok (checked_url net b req.url) _ h in
      let (_, hg, h2) = >>=-eq-ok (granted net b u.hostname allow) _ h1 in
      let (ips, hr, h3) = >>=-eq-ok (resolved net b u.hostname) _ h2 in
      let (ip, rest, e, found) = resolved-ok u.hostname hr in
      let (vetted, same) = pinned-ok u ip rest (rw e at h3) in
      assemble u ip rest (checked_url-ok hu) (granted-ok u.hostname hg) found vetted same

  send-Fetched : (x : Exchange) → Guarded net b allow req x → Fetched net b allow req (send net b x)
  unfolding send Fetched
  send-Fetched x g = elim (Bool-cases (net.request_ok x.method x.url)) [
    | inl e ↦ rw e (g, answer_of-Replied x (net.transport x) refl)
    | inr e ↦ rw e tt
  ]

  -- A `fetch` that hands a request to the transport, answered or not, has made it for the URL that was
  -- asked for and the first of the addresses that the resolver gave for its host, which an entry of the
  -- grant covers; none of those addresses is blocked, and no header is one of Host, Content-Length,
  -- Connection, Transfer-Encoding and Upgrade. An answer is returned with its status, its headers and
  -- its body up to the limit, and says whether there was more; no answer is an error. Any other `fetch`
  -- is an error.
  pub fetch-Guarded : Fetched net b allow req (fetch net b allow req)
  unfolding fetch sent
  fetch-Guarded = elim (Result-cases (prepared net b allow req)) [
    | inl (x, e) ↦ rw e (send-Fetched x (prepared-Guarded e))
    | inr (r, e) ↦ rw e (unfold Fetched in tt)
  ]
