-- ===== src/Host/Address.antt =====
-- internal/host/broker.go, `blocked` and `isUniqueLocal`, over what they use of `net.IP`: an address
-- is 4 or 16 bytes.
use mykeep_foundry.Prelude.{
  Bool, List, Option, [], all, arith, drop, eqb, false, if◌then◌else◌, length, none, refl, some,
  suc, take, true, zero, ℕ, ◌%◌, ◌&&◌, ◌/◌, ◌<◌, ◌||◌, ◌↔◌, ◌∷◌, ◌≡◌, ◌≤◌, ◌⊎◌,
}

abbrev pub Ip : Type 0
Ip = List ℕ

-- ::ffff:a.b.c.d
abbrev pub mapped : ℕ → ℕ → ℕ → ℕ → Ip
mapped a b c d = 0 ∷ 0 ∷ 0 ∷ 0 ∷ 0 ∷ 0 ∷ 0 ∷ 0 ∷ 0 ∷ 0 ∷ 255 ∷ 255 ∷ a ∷ b ∷ c ∷ d ∷ []

is_zero : List ℕ → Bool
is_zero = all (λ x. eqb x 0)

byte : ℕ → Ip → ℕ
byte n [] = 0
byte zero (x ∷ ip) = x
byte (suc n) (x ∷ ip) = byte n ip

-- `To4`: the four bytes of an IPv4 address, or of one mapped into IPv6.
to4 : Ip → Option Ip
unfolding is_zero byte
to4 ip =
    if eqb (length ip) 4
    then some ip
    else if eqb (length ip) 16
        && is_zero (take 10 ip)
        && eqb (byte 10 ip) 255
        && eqb (byte 11 ip) 255
    then some (drop 12 ip)
    else none

-- A test by the IPv4 form, where there is one, and else by the bytes.
by_family : (Ip → Bool) → (Ip → Bool) → Ip → Bool
unfolding to4
by_family v4 v6 ip = elim (to4 ip) [ some q ↦ v4 q | none ↦ v6 ip ]

-- `IsUnspecified`
is_unspecified : Ip → Bool
unfolding by_family
is_unspecified = by_family is_zero (λ ip. eqb (length ip) 16 && is_zero ip)

-- `IsLoopback`
unfoldable pub is_loopback : Ip → Bool
unfolding by_family
is_loopback =
    by_family (λ q. eqb (byte 0 q) 127)
      (λ ip. eqb (length ip) 16 && is_zero (take 15 ip) && eqb (byte 15 ip) 1)

-- `IsPrivate`; `x & 0xf0 == 16` is `x / 16 == 1`, and so on.
is_private : Ip → Bool
unfolding by_family
is_private =
    by_family
      (λ q.
        eqb (byte 0 q) 10
        || eqb (byte 0 q) 172 && eqb (byte 1 q / 16) 1
        || eqb (byte 0 q) 192 && eqb (byte 1 q) 168)
      (λ ip. eqb (length ip) 16 && eqb (byte 0 ip / 2) 126)

-- `IsMulticast`
is_multicast : Ip → Bool
unfolding by_family
is_multicast =
    by_family (λ q. eqb (byte 0 q / 16) 14) (λ ip. eqb (length ip) 16 && eqb (byte 0 ip) 255)

-- `IsLinkLocalMulticast`
is_link_local_multicast : Ip → Bool
unfolding by_family
is_link_local_multicast =
    by_family (λ q. eqb (byte 0 q) 224 && eqb (byte 1 q) 0 && eqb (byte 2 q) 0)
      (λ ip. eqb (length ip) 16 && eqb (byte 0 ip) 255 && eqb (byte 1 ip % 16) 2)

-- `IsLinkLocalUnicast`
is_link_local_unicast : Ip → Bool
unfolding by_family
is_link_local_unicast =
    by_family (λ q. eqb (byte 0 q) 169 && eqb (byte 1 q) 254)
      (λ ip. eqb (length ip) 16 && eqb (byte 0 ip) 254 && eqb (byte 1 ip / 64) 2)

-- `isUniqueLocal`: `To16` is nil for no address of 4 or 16 bytes.
is_unique_local : Ip → Bool
unfolding by_family
is_unique_local = by_family (λ q. false) (λ ip. eqb (length ip) 16 && eqb (byte 0 ip / 2) 126)

-- `Broker.blocked`
unfoldable pub blocked : Bool → Ip → Bool
unfolding is_loopback is_private is_link_local_unicast is_link_local_multicast is_unspecified
    is_multicast is_unique_local is_zero byte
blocked allow_private ip =
    if allow_private
    then false
    else is_loopback ip
      || is_private ip
      || is_link_local_unicast ip
      || is_link_local_multicast ip
      || is_unspecified ip
      || is_multicast ip
      || is_unique_local ip

-- The IPv4 addresses that the broker refuses, by their numbers.
abbrev pub InternalV4 : ℕ → ℕ → ℕ → ℕ → Type 0
InternalV4 a b c d =
    (a ≡ 127)
    ⊎ (a ≡ 10)
    ⊎ ((a ≡ 172) × (16 ≤ b) × (b < 32))
    ⊎ ((a ≡ 192) × (b ≡ 168))
    ⊎ ((a ≡ 169) × (b ≡ 254))
    ⊎ ((224 ≤ a) × (a < 240))
    ⊎ ((a ≡ 0) × (b ≡ 0) × (c ≡ 0) × (d ≡ 0))

-- An IPv4 address is refused exactly when it is a loopback, private, link-local, multicast or the
-- unspecified address.
pub blocked-v4 : (a b c d : ℕ) → (blocked false (a ∷ b ∷ c ∷ d ∷ []) ≡ true) ↔ InternalV4 a b c d
unfolding blocked
blocked-v4 a b c d = (λ h. ground arith, λ h. ground arith)

-- Writing it as an IPv6 address does not get an IPv4 address past the check.
pub blocked-mapped :
    (p : Bool) (a b c d : ℕ) → blocked p (mapped a b c d) ≡ blocked p (a ∷ b ∷ c ∷ d ∷ [])
unfolding blocked
blocked-mapped p a b c d = refl
