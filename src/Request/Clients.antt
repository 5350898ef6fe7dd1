-- ===== src/Request/Clients.antt =====
-- The clients that the lists of a location let in, by the bytes of their addresses.
use Prim.Native.Nat.{bit_and}
use ngx_cache_purge.Prelude.{
  ℕ, zero, suc, ◌+◌, ◌*◌, ◌^◌, ◌<◌, ◌≡◌, ◌↔◌, ◌⊎◌, inl, inr, refl, sym, Bool, true, false, List, [],
  ◌∷◌, Option, none, some, ◌==◌, take, drop, Bool-cases, arith,
}
use ngx_cache_purge.Ngx.{ok}
use ngx_cache_purge.FilePath.{char_at}
use ngx_cache_purge.Request.Access.{
  Cidr, Cidr6, Sockaddr, inet, inet6, other_family, in_cidr, in_cidr6, all_zero, is_v4_mapped,
  v4_value, access, Met, IsAllowed, access_iff,
}

-- An address masked is the one of the network, in all 16 bytes for IPv6.
abbrev pub InCidr : ℕ → Cidr → Type 0
InCidr a c = bit_and a c.mask ≡ c.addr

abbrev pub InCidr6 : List ℕ → Cidr6 → Type 0
InCidr6 p c = (i : ℕ) → i < 16 → bit_and (char_at p i) (char_at c.mask i) ≡ char_at c.addr i

-- An IPv4 address mapped into IPv6: ten bytes of 0 and two of 255, and then its four bytes.
abbrev pub IsMapped : List ℕ → Type 0
IsMapped p = ((i : ℕ) → i < 10 → char_at p i ≡ 0) × (char_at p 10 ≡ 255) × (char_at p 11 ≡ 255)

abbrev pub v4_of : List ℕ → ℕ
v4_of p = char_at p 12 * 2 ^ 24 + char_at p 13 * 2 ^ 16 + char_at p 14 * 2 ^ 8 + char_at p 15

abbrev pub Any : {A : Type 0} → (A → Type 0) → List A → Type 0
Any P [] = ⊥
Any P (x ∷ xs) = P x ⊎ Any P xs

-- A client with an IPv4 address, also a mapped one, is let in by the list for IPv4; any client with
-- an IPv6 address that is not mapped, or where there is no list for IPv4, by the list for IPv6.
abbrev pub LetIn : (ℕ → ℕ) → Option (List Cidr) → Option (List Cidr6) → Sockaddr → Type 0
LetIn htonl access4 access6 (inet a) =
    (cidrs : List Cidr) × (access4 ≡ some cidrs) × Any (InCidr a) cidrs
LetIn htonl access4 access6 (inet6 p) =
    ((cidrs : List Cidr) × (access4 ≡ some cidrs)
      × IsMapped p
      × Any (InCidr (htonl (v4_of p))) cidrs)
    ⊎ (((access4 ≡ none) ⊎ (¬ IsMapped p))
        × ((cidrs6 : List Cidr6) × (access6 ≡ some cidrs6) × Any (InCidr6 p) cidrs6))
LetIn htonl access4 access6 other_family = ⊥

Met-Any :
    {A : Type 0} (f : A → Bool) (P : A → Type 0)
    → ((x : A) → (f x ≡ true) ↔ P x)
    → (xs : List A) → Met f xs ↔ Any P xs
Met-Any f P h [] = (λ m. m, λ m. m)
Met-Any f P h (x ∷ xs) = (
  λ m. elim m [ inl e ↦ inl ((h x).0 e) | inr r ↦ inr ((Met-Any f P h xs).0 r) ],
  λ m. elim m [ inl e ↦ inl ((h x).1 e) | inr r ↦ inr ((Met-Any f P h xs).1 r) ],
)

in_cidr-InCidr : (a : ℕ) (c : Cidr) → (in_cidr a c ≡ true) ↔ InCidr a c
unfolding in_cidr
in_cidr-InCidr a c = (λ h. ground (arith, h), λ h. ground (arith, h))

char_at-drop : (p : List ℕ) (i : ℕ) → char_at (drop 1 p) i ≡ char_at p (suc i)
unfolding char_at
char_at-drop [] zero = refl
char_at-drop [] (suc i) = refl
char_at-drop (c ∷ p) i = refl

-- The loop over `n` bytes.
in_cidr6_bytes :
    (n : ℕ) (p mask addr : List ℕ)
    → in_cidr6 n p mask addr ≡ true
    → (i : ℕ) → i < n
    → bit_and (char_at p i) (char_at mask i) ≡ char_at addr i
unfolding in_cidr6
in_cidr6_bytes zero p mask addr h i lt = absurd (omega (arith, lt))
in_cidr6_bytes (suc n) p mask addr h i lt =
    elim (Bool-cases (bit_and (char_at p 0) (char_at mask 0) == char_at addr 0)) [
      | inr e ↦ absurd (grind (arith, rw e at h))
      | inl e ↦ byte_of i lt e (in_cidr6_bytes n (drop 1 p) (drop 1 mask) (drop 1 addr) (rw e at h))
    ]
  where
    byte_of :
        (i : ℕ)
        → i < suc n
        → (bit_and (char_at p 0) (char_at mask 0) == char_at addr 0) ≡ true
        → ((j : ℕ)
            → j < n
            → bit_and (char_at (drop 1 p) j) (char_at (drop 1 mask) j) ≡ char_at (drop 1 addr) j)
        → bit_and (char_at p i) (char_at mask i) ≡ char_at addr i
    byte_of zero lt e rest = ground (arith, e)
    byte_of (suc j) lt e rest =
        rw (← char_at-drop p j, ← char_at-drop mask j, ← char_at-drop addr j)
          (rest j (omega (arith, lt)))

in_cidr6_lem :
    (n : ℕ) (p mask addr : List ℕ)
    → ((i : ℕ) → i < n → bit_and (char_at p i) (char_at mask i) ≡ char_at addr i)
    → in_cidr6 n p mask addr ≡ true
unfolding in_cidr6
in_cidr6_lem zero p mask addr h = refl
in_cidr6_lem (suc n) p mask addr h =
    let first : (bit_and (char_at p 0) (char_at mask 0) == char_at addr 0) ≡ true =
      (let e = h 0 (omega arith) in ground (arith, e)) in
    rw first (
      in_cidr6_lem n (drop 1 p) (drop 1 mask) (drop 1 addr) (λ i lt.
        rw (char_at-drop p i, char_at-drop mask i, char_at-drop addr i)
          (h (suc i) (omega (arith, lt)))))

all_zero_bytes :
    (n : ℕ) (p : List ℕ) → all_zero (take n p) ≡ true → (i : ℕ) → i < n → char_at p i ≡ 0
unfolding char_at
all_zero_bytes zero p h i lt = absurd (omega (arith, lt))
all_zero_bytes (suc n) [] h zero lt = refl
all_zero_bytes (suc n) [] h (suc i) lt = refl
all_zero_bytes (suc n) (c ∷ p) h zero lt = ground (arith, h)
all_zero_bytes (suc n) (c ∷ p) h (suc i) lt =
    all_zero_bytes n p (ground (arith, h)) i (omega (arith, lt))

all_zero_lem :
    (n : ℕ) (p : List ℕ) → ((i : ℕ) → i < n → char_at p i ≡ 0) → all_zero (take n p) ≡ true
unfolding char_at
all_zero_lem zero p h = refl
all_zero_lem (suc n) [] h = refl
all_zero_lem (suc n) (c ∷ p) h =
    let first : c ≡ 0 = h 0 (omega arith) in
    let rest = all_zero_lem n p (λ i lt. h (suc i) (omega (arith, lt))) in
    ground (arith, first, rest)

is_v4_mapped-IsMapped : (p : List ℕ) → (is_v4_mapped p ≡ true) ↔ IsMapped p
unfolding is_v4_mapped
is_v4_mapped-IsMapped p = (
  λ h. (all_zero_bytes 10 p (ground (arith, h)), ground (arith, h), ground (arith, h)),
  λ (zeros, a, b). (let z = all_zero_lem 10 p zeros in ground (arith, z, a, b)),
)

not-IsMapped : (p : List ℕ) → is_v4_mapped p ≡ false → ¬ IsMapped p
not-IsMapped p h m = let e = (is_v4_mapped-IsMapped p).1 m in cc

mapped_not : (p : List ℕ) → ¬ IsMapped p → is_v4_mapped p ≡ false
mapped_not p h = elim (Bool-cases (is_v4_mapped p)) [
  | inl e ↦ absurd (h ((is_v4_mapped-IsMapped p).0 e))
  | inr e ↦ e
]

module _ (htonl : ℕ → ℕ) where
  any4 : (a : ℕ) (cidrs : List Cidr) → Met (in_cidr a) cidrs ↔ Any (InCidr a) cidrs
  any4 a cidrs = Met-Any (in_cidr a) (InCidr a) (in_cidr-InCidr a) cidrs

  any6 :
      (p : List ℕ) (cidrs : List Cidr6)
      → Met (λ a. in_cidr6 16 p a.mask a.addr) cidrs ↔ Any (InCidr6 p) cidrs
  any6 p cidrs =
      Met-Any (λ a. in_cidr6 16 p a.mask a.addr) (InCidr6 p)
        (λ c. (in_cidr6_bytes 16 p c.mask c.addr, in_cidr6_lem 16 p c.mask c.addr)) cidrs

  IsAllowed-LetIn :
      (access4 : Option (List Cidr)) (access6 : Option (List Cidr6)) (s : Sockaddr)
      → IsAllowed htonl access4 access6 s
      → LetIn htonl access4 access6 s
  unfolding v4_value
  IsAllowed-LetIn none none s h = elim h [ ]
  IsAllowed-LetIn none (some cidrs6) (inet a) h = elim h [ ]
  IsAllowed-LetIn none (some cidrs6) other_family h = elim h [ ]
  IsAllowed-LetIn (some cidrs) none other_family h = elim h [ ]
  IsAllowed-LetIn (some cidrs) (some cidrs6) other_family h = elim h [ ]
  IsAllowed-LetIn (some cidrs) none (inet a) h = (cidrs, refl, (any4 a cidrs).0 h)
  IsAllowed-LetIn (some cidrs) (some cidrs6) (inet a) h = (cidrs, refl, (any4 a cidrs).0 h)
  IsAllowed-LetIn none (some cidrs6) (inet6 p) h =
      inr (inl refl, (cidrs6, refl, (any6 p cidrs6).0 h))
  IsAllowed-LetIn (some cidrs) none (inet6 p) (m, h) =
      inl (cidrs, refl, (is_v4_mapped-IsMapped p).0 m, (any4 (htonl (v4_of p)) cidrs).0 h)
  IsAllowed-LetIn (some cidrs) (some cidrs6) (inet6 p) (inl (m, h)) =
      inl (cidrs, refl, (is_v4_mapped-IsMapped p).0 m, (any4 (htonl (v4_of p)) cidrs).0 h)
  IsAllowed-LetIn (some cidrs) (some cidrs6) (inet6 p) (inr (m, h)) =
      inr (inr (not-IsMapped p m), (cidrs6, refl, (any6 p cidrs6).0 h))

  cidrs_inj : {A : Type 0} {a b : A} → some a ≡ some b → a ≡ b
  cidrs_inj h = cc

  not_some : {A : Type 0} {a : A} → none ≡ some a → ⊥
  not_some h = cc

  LetIn-IsAllowed :
      (access4 : Option (List Cidr)) (access6 : Option (List Cidr6)) (s : Sockaddr)
      → LetIn htonl access4 access6 s
      → IsAllowed htonl access4 access6 s
  unfolding v4_value
  LetIn-IsAllowed access4 access6 other_family h = elim h [ ]
  LetIn-IsAllowed none access6 (inet a) (cidrs, e, h) = absurd (not_some e)
  LetIn-IsAllowed (some xs) none (inet a) (cidrs, e, h) = (any4 a xs).1 (rw (cidrs_inj e) h)
  LetIn-IsAllowed (some xs) (some ys) (inet a) (cidrs, e, h) = (any4 a xs).1 (rw (cidrs_inj e) h)
  LetIn-IsAllowed none access6 (inet6 p) (inl (cidrs, e, m, h)) = absurd (not_some e)
  LetIn-IsAllowed (some xs) none (inet6 p) (inl (cidrs, e, m, h)) =
      ((is_v4_mapped-IsMapped p).1 m, (any4 (htonl (v4_of p)) xs).1 (rw (cidrs_inj e) h))
  LetIn-IsAllowed (some xs) (some ys) (inet6 p) (inl (cidrs, e, m, h)) =
      inl ((is_v4_mapped-IsMapped p).1 m, (any4 (htonl (v4_of p)) xs).1 (rw (cidrs_inj e) h))
  LetIn-IsAllowed access4 none (inet6 p) (inr (c, (cidrs6, e, h))) = absurd (not_some e)
  LetIn-IsAllowed none (some ys) (inet6 p) (inr (c, (cidrs6, e, h))) =
      (any6 p ys).1 (rw (cidrs_inj e) h)
  LetIn-IsAllowed (some xs) (some ys) (inet6 p) (inr (inl e', (cidrs6, e, h))) =
      absurd (not_some (sym e'))
  LetIn-IsAllowed (some xs) (some ys) (inet6 p) (inr (inr apart, (cidrs6, e, h))) =
      inr (mapped_not p apart, (any6 p ys).1 (rw (cidrs_inj e) h))

  -- The address test succeeds exactly for a client with an IPv4 address, or one mapped into IPv6, in a
  -- network of the list for IPv4, and for a client with an IPv6 address, not mapped unless there is
  -- no list for IPv4, in a network of the list for IPv6.
  pub access-LetIn :
      (access4 : Option (List Cidr)) (access6 : Option (List Cidr6)) (s : Sockaddr)
      → (access htonl access4 access6 s ≡ ok) ↔ LetIn htonl access4 access6 s
  access-LetIn access4 access6 s =
      let listed = access_iff htonl access4 access6 s in
      (
        λ h. IsAllowed-LetIn access4 access6 s (listed.0 h),
        λ h. listed.1 (LetIn-IsAllowed access4 access6 s h),
      )
