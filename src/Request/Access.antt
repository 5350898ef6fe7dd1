-- ===== src/Request/Access.antt =====
-- `ngx_http_cache_purge_access`: whether the address of a client is in the lists of a location.
use Prim.Native.Nat.{bit_and}
use ngx_cache_purge.Prelude.{
  ℕ, zero, suc, ◌+◌, ◌*◌, ◌^◌, ◌≡◌, ◌↔◌, ◌⊎◌, inl, inr, Bool, true, false, ◌&&◌, List, [], ◌∷◌,
  Option, none, some, ◌==◌, if◌then◌else◌, take, drop, Bool-cases, arith,
}
use ngx_cache_purge.Ngx.{Rc, ok, declined}
use ngx_cache_purge.FilePath.{char_at}

-- `ngx_in_cidr_t`, in network order, and `ngx_in6_cidr_t`.
pub record Cidr : Type 0 where
  pub addr : ℕ
  pub mask : ℕ

pub record Cidr6 : Type 0 where
  pub addr : List ℕ
  pub mask : List ℕ

-- `struct sockaddr`: an IPv4 address in network order, the 16 bytes of an IPv6 address, or
-- another family.
pub data Sockaddr : Type 0 where
  inet : ℕ → Sockaddr
  inet6 : List ℕ → Sockaddr
  other_family : Sockaddr

unfoldable pub in_cidr : ℕ → Cidr → Bool
in_cidr inaddr a = bit_and inaddr a.mask == a.addr

-- The loop over the 16 bytes, with the number of those that are left.
unfoldable pub in_cidr6 : ℕ → List ℕ → List ℕ → List ℕ → Bool
in_cidr6 zero p mask addr = true
in_cidr6 (suc n) p mask addr =
    let rest = in_cidr6 n (drop 1 p) (drop 1 mask) (drop 1 addr) in
    if bit_and (char_at p 0) (char_at mask 0) == char_at addr 0 then rest else false

unfoldable pub scan : ℕ → List Cidr → Rc
scan inaddr [] = declined
scan inaddr (a ∷ cidrs) = let rest = scan inaddr cidrs in if in_cidr inaddr a then ok else rest

unfoldable pub scan6 : List ℕ → List Cidr6 → Rc
scan6 p [] = declined
scan6 p (a ∷ cidrs) = let rest = scan6 p cidrs in if in_cidr6 16 p a.mask a.addr then ok else rest

abbrev pub all_zero : List ℕ → Bool
all_zero [] = true
all_zero (c ∷ s) = c == 0 && all_zero s

-- `IN6_IS_ADDR_V4MAPPED`: ten bytes of 0 and two of 255.
unfoldable pub is_v4_mapped : List ℕ → Bool
is_v4_mapped p = all_zero (take 10 p) && char_at p 10 == 255 && char_at p 11 == 255

-- The last four bytes, the first of them the highest.
unfoldable pub v4_value : List ℕ → ℕ
v4_value p = char_at p 12 * 2 ^ 24 + char_at p 13 * 2 ^ 16 + char_at p 14 * 2 ^ 8 + char_at p 15

-- `htonl` is the machine's.
module _ (htonl : ℕ → ℕ) where
  unfoldable pub access : Option (List Cidr) → Option (List Cidr6) → Sockaddr → Rc
  access access4 access6 (inet inaddr) = elim access4 [
    | none ↦ declined
    | some cidrs ↦ scan inaddr cidrs
  ]
  access access4 access6 (inet6 p) = elim access4 [
    | some cidrs ↦
        if is_v4_mapped p
        then scan (htonl (v4_value p)) cidrs
        else elim access6 [ none ↦ declined | some cidrs6 ↦ scan6 p cidrs6 ]
    | none ↦ elim access6 [ none ↦ declined | some cidrs6 ↦ scan6 p cidrs6 ]
  ]
  access access4 access6 other_family = declined

-- Some entry of a list is met.
abbrev pub Met : {A : Type 0} → (A → Bool) → List A → Type 0
Met f [] = ⊥
Met f (x ∷ xs) = (f x ≡ true) ⊎ Met f xs

-- Who is let in: a client with an IPv4 address, also one that is mapped into IPv6, by the list for
-- IPv4; any other client with an IPv6 address by the list for IPv6, as is a mapped one if the
-- location has no list for IPv4.
abbrev pub IsAllowed : (ℕ → ℕ) → Option (List Cidr) → Option (List Cidr6) → Sockaddr → Type 0
IsAllowed htonl (some cidrs) access6 (inet a) = Met (in_cidr a) cidrs
IsAllowed htonl (some cidrs) none (inet6 p) =
    (is_v4_mapped p ≡ true) × Met (in_cidr (htonl (v4_value p))) cidrs
IsAllowed htonl (some cidrs) (some cidrs6) (inet6 p) =
    (is_v4_mapped p ≡ true) × Met (in_cidr (htonl (v4_value p))) cidrs
    ⊎ (is_v4_mapped p ≡ false) × Met (λ a. in_cidr6 16 p a.mask a.addr) cidrs6
IsAllowed htonl none (some cidrs6) (inet6 p) = Met (λ a. in_cidr6 16 p a.mask a.addr) cidrs6
IsAllowed htonl _ _ _ = ⊥

scan-Met : (a : ℕ) (cidrs : List Cidr) → scan a cidrs ≡ ok → Met (in_cidr a) cidrs
unfolding scan
scan-Met a [] h = ground (arith, h)
scan-Met a (c ∷ cidrs) h = elim (Bool-cases (in_cidr a c)) [
  | inl e ↦ inl e
  | inr e ↦ inr (scan-Met a cidrs (ground (arith, e, h)))
]

scan_lem : (a : ℕ) (cidrs : List Cidr) → Met (in_cidr a) cidrs → scan a cidrs ≡ ok
unfolding scan
scan_lem a [] m = elim m [ ]
scan_lem a (c ∷ cidrs) (inl e) = ground (arith, e)
scan_lem a (c ∷ cidrs) (inr m) = ground (arith, scan_lem a cidrs m)

scan6-Met :
    (p : List ℕ) (cidrs : List Cidr6)
    → scan6 p cidrs ≡ ok
    → Met (λ a. in_cidr6 16 p a.mask a.addr) cidrs
unfolding scan6
scan6-Met p [] h = ground (arith, h)
scan6-Met p (c ∷ cidrs) h = elim (Bool-cases (in_cidr6 16 p c.mask c.addr)) [
  | inl e ↦ inl e
  | inr e ↦ inr (scan6-Met p cidrs (ground (arith, e, h)))
]

scan6_lem :
    (p : List ℕ) (cidrs : List Cidr6)
    → Met (λ a. in_cidr6 16 p a.mask a.addr) cidrs
    → scan6 p cidrs ≡ ok
unfolding scan6
scan6_lem p [] m = elim m [ ]
scan6_lem p (c ∷ cidrs) (inl e) = ground (arith, e)
scan6_lem p (c ∷ cidrs) (inr m) = ground (arith, scan6_lem p cidrs m)

module _ (htonl : ℕ → ℕ) where
  access-IsAllowed :
      (access4 : Option (List Cidr)) (access6 : Option (List Cidr6)) (s : Sockaddr)
      → access htonl access4 access6 s ≡ ok
      → IsAllowed htonl access4 access6 s
  unfolding access
  access-IsAllowed none none (inet a) h = ground (arith, h)
  access-IsAllowed none (some cidrs6) (inet a) h = ground (arith, h)
  access-IsAllowed (some cidrs) none (inet a) h = scan-Met a cidrs h
  access-IsAllowed (some cidrs) (some cidrs6) (inet a) h = scan-Met a cidrs h
  access-IsAllowed none none (inet6 p) h = ground (arith, h)
  access-IsAllowed none (some cidrs6) (inet6 p) h = scan6-Met p cidrs6 h
  access-IsAllowed (some cidrs) none (inet6 p) h = elim (Bool-cases (is_v4_mapped p)) [
    | inl m ↦ (m, scan-Met _ cidrs (ground (arith, m, h)))
    | inr m ↦ absurd (ground (arith, m, h))
  ]
  access-IsAllowed (some cidrs) (some cidrs6) (inet6 p) h = elim (Bool-cases (is_v4_mapped p)) [
    | inl m ↦ inl (m, scan-Met _ cidrs (ground (arith, m, h)))
    | inr m ↦ inr (m, scan6-Met p cidrs6 (ground (arith, m, h)))
  ]
  access-IsAllowed none none other_family h = ground (arith, h)
  access-IsAllowed none (some cidrs6) other_family h = ground (arith, h)
  access-IsAllowed (some cidrs) none other_family h = ground (arith, h)
  access-IsAllowed (some cidrs) (some cidrs6) other_family h = ground (arith, h)

  access_allowed :
      (access4 : Option (List Cidr)) (access6 : Option (List Cidr6)) (s : Sockaddr)
      → IsAllowed htonl access4 access6 s
      → access htonl access4 access6 s ≡ ok
  unfolding access
  access_allowed none none s h = elim h [ ]
  access_allowed none (some cidrs6) (inet a) h = elim h [ ]
  access_allowed none (some cidrs6) other_family h = elim h [ ]
  access_allowed (some cidrs) none other_family h = elim h [ ]
  access_allowed (some cidrs) (some cidrs6) other_family h = elim h [ ]
  access_allowed (some cidrs) none (inet a) h = scan_lem a cidrs h
  access_allowed (some cidrs) (some cidrs6) (inet a) h = scan_lem a cidrs h
  access_allowed none (some cidrs6) (inet6 p) h = scan6_lem p cidrs6 h
  access_allowed (some cidrs) none (inet6 p) (m, h) = ground (arith, m, scan_lem _ cidrs h)
  access_allowed (some cidrs) (some cidrs6) (inet6 p) (inl (m, h)) =
      ground (arith, m, scan_lem _ cidrs h)
  access_allowed (some cidrs) (some cidrs6) (inet6 p) (inr (m, h)) =
      ground (arith, m, scan6_lem p cidrs6 h)

  -- The address test succeeds exactly for the clients that are to be let in.
  pub access_iff :
      (access4 : Option (List Cidr)) (access6 : Option (List Cidr6)) (s : Sockaddr)
      → (access htonl access4 access6 s ≡ ok) ↔ IsAllowed htonl access4 access6 s
  access_iff access4 access6 s =
      (access-IsAllowed access4 access6 s, access_allowed access4 access6 s)
