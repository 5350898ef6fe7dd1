-- ===== src/Config/Lists.antt =====
-- The two lists of a location against the networks that were put into them.
use ngx_cache_purge.Prelude.{
  ℕ, ◌≡◌, ◌↔◌, ◌⊎◌, inl, inr, Bool, true, false, List, [], ◌∷◌, ◌++◌, Option, none, some,
}
use ngx_cache_purge.Request.Access.{
  Cidr, Cidr6, Sockaddr, inet, inet6, other_family, in_cidr, in_cidr6, is_v4_mapped, v4_value, Met,
  IsAllowed,
}
use ngx_cache_purge.Request.Entry.{Conf}
use ngx_cache_purge.Config.Purge.{Network, v4, v6, push, add_network}

abbrev pub MetIn : {A : Type 0} → (A → Bool) → Option (List A) → Type 0
MetIn f none = ⊥
MetIn f (some xs) = Met f xs

Met-append :
    {A : Type 0} (f : A → Bool) (x : A) (xs : List A)
    → Met f (xs ++ x ∷ []) ↔ (Met f xs ⊎ (f x ≡ true))
Met-append f x [] =
    (λ m. elim m [ inl e ↦ inr e | inr m ↦ inl m ], λ m. elim m [ inl m ↦ inr m | inr e ↦ inl e ])
Met-append f x (y ∷ xs) =
    let (to, from) = Met-append f x xs in
    (
      λ m. elim m [
        | inl e ↦ inl (inl e)
        | inr m ↦ elim (to m) [ inl m ↦ inl (inr m) | inr e ↦ inr e ]
      ],
      λ m. elim m [
        | inl m ↦ elim m [ inl e ↦ inl e | inr m ↦ inr (from (inl m)) ]
        | inr e ↦ inr (from (inr e))
      ],
    )

MetIn-push :
    {A : Type 0} (f : A → Bool) (x : A) (o : Option (List A))
    → MetIn f (push x o) ↔ (MetIn f o ⊎ (f x ≡ true))
MetIn-push f x none = Met-append f x []
MetIn-push f x (some xs) = Met-append f x xs

-- A client whose address is in one form only.
abbrev pub IsPlain : Sockaddr → Type 0
IsPlain (inet a) = Unit
IsPlain (inet6 p) = is_v4_mapped p ≡ false
IsPlain other_family = Unit

module _ (htonl : ℕ → ℕ) where
  -- A client is in a network: an IPv4 client, also one mapped into IPv6, in an IPv4 network, and an
  -- IPv6 client in an IPv6 network.
  abbrev pub InNetwork : Network → Sockaddr → Type 0
  InNetwork (v4 cidr) (inet a) = in_cidr a cidr ≡ true
  InNetwork (v4 cidr) (inet6 p) =
      (is_v4_mapped p ≡ true) × (in_cidr (htonl (v4_value p)) cidr ≡ true)
  InNetwork (v6 cidr) (inet6 p) = in_cidr6 16 p cidr.mask cidr.addr ≡ true
  InNetwork _ _ = ⊥

  -- The same for the two lists of a location.
  abbrev pub ListedIn : Option (List Cidr) → Option (List Cidr6) → Sockaddr → Type 0
  ListedIn access4 access6 (inet a) = MetIn (in_cidr a) access4
  ListedIn access4 access6 (inet6 p) =
      (is_v4_mapped p ≡ true) × MetIn (in_cidr (htonl (v4_value p))) access4
      ⊎ MetIn (λ a. in_cidr6 16 p a.mask a.addr) access6
  ListedIn access4 access6 other_family = ⊥

  abbrev pub Listed : Conf → Sockaddr → Type 0
  Listed c = ListedIn c.access c.access6

  pub Listed-add_network :
      (n : Network) (c : Conf) (s : Sockaddr)
      → Listed (add_network n c) s ↔ (Listed c s ⊎ InNetwork n s)
  unfolding add_network
  Listed-add_network (v4 cidr) c (inet a) = MetIn-push (in_cidr a) cidr c.access
  Listed-add_network (v4 cidr) c (inet6 p) =
      let (to, from) = MetIn-push (in_cidr (htonl (v4_value p))) cidr c.access in
      (
        λ l. elim l [
          | inl (m, e) ↦ elim (to e) [ inl e ↦ inl (inl (m, e)) | inr e ↦ inr (m, e) ]
          | inr e ↦ inl (inr e)
        ],
        λ l. elim l [
          | inl l ↦ elim l [ inl (m, e) ↦ inl (m, from (inl e)) | inr e ↦ inr e ]
          | inr (m, e) ↦ inl (m, from (inr e))
        ],
      )
  Listed-add_network (v4 cidr) c other_family =
      (λ l. absurd l, λ l. elim l [ inl b ↦ b | inr b ↦ b ])
  Listed-add_network (v6 cidr) c (inet a) =
      (λ l. inl l, λ l. elim l [ inl l ↦ l | inr b ↦ absurd b ])
  Listed-add_network (v6 cidr) c (inet6 p) =
      let (to, from) = MetIn-push (λ a. in_cidr6 16 p a.mask a.addr) cidr c.access6 in
      (
        λ l. elim l [
          | inl m ↦ inl (inl m)
          | inr e ↦ elim (to e) [ inl e ↦ inl (inr e) | inr e ↦ inr e ]
        ],
        λ l. elim l [
          | inl l ↦ elim l [ inl m ↦ inl m | inr e ↦ inr (from (inl e)) ]
          | inr e ↦ inr (from (inr e))
        ],
      )
  Listed-add_network (v6 cidr) c other_family =
      (λ l. absurd l, λ l. elim l [ inl b ↦ b | inr b ↦ b ])

  pub ListedIn-IsAllowed :
      (access4 : Option (List Cidr)) (access6 : Option (List Cidr6)) (s : Sockaddr)
      → IsAllowed htonl access4 access6 s
      → ListedIn access4 access6 s
  ListedIn-IsAllowed none none (inet a) h = h
  ListedIn-IsAllowed none none (inet6 p) h = absurd h
  ListedIn-IsAllowed none none other_family h = h
  ListedIn-IsAllowed none (some cidrs6) (inet a) h = h
  ListedIn-IsAllowed none (some cidrs6) (inet6 p) h = inr h
  ListedIn-IsAllowed none (some cidrs6) other_family h = h
  ListedIn-IsAllowed (some cidrs) none (inet a) h = h
  ListedIn-IsAllowed (some cidrs) none (inet6 p) h = inl h
  ListedIn-IsAllowed (some cidrs) none other_family h = h
  ListedIn-IsAllowed (some cidrs) (some cidrs6) (inet a) h = h
  ListedIn-IsAllowed (some cidrs) (some cidrs6) (inet6 p) h = elim h [
    | inl m ↦ inl m
    | inr m ↦ inr m.1
  ]
  ListedIn-IsAllowed (some cidrs) (some cidrs6) other_family h = h

  pub IsAllowed-ListedIn :
      (access4 : Option (List Cidr)) (access6 : Option (List Cidr6)) (s : Sockaddr)
      → IsPlain s
      → ListedIn access4 access6 s
      → IsAllowed htonl access4 access6 s
  IsAllowed-ListedIn none none (inet a) h l = l
  IsAllowed-ListedIn none none (inet6 p) h l = elim l [ inl m ↦ m.1 | inr m ↦ m ]
  IsAllowed-ListedIn none none other_family h l = l
  IsAllowed-ListedIn none (some cidrs6) (inet a) h l = l
  IsAllowed-ListedIn none (some cidrs6) (inet6 p) h l = elim l [ inl m ↦ absurd m.1 | inr m ↦ m ]
  IsAllowed-ListedIn none (some cidrs6) other_family h l = l
  IsAllowed-ListedIn (some cidrs) none (inet a) h l = l
  IsAllowed-ListedIn (some cidrs) none (inet6 p) h l = elim l [ inl m ↦ m | inr m ↦ absurd m ]
  IsAllowed-ListedIn (some cidrs) none other_family h l = l
  IsAllowed-ListedIn (some cidrs) (some cidrs6) (inet a) h l = l
  IsAllowed-ListedIn (some cidrs) (some cidrs6) (inet6 p) h l = elim l [
    | inl m ↦ inl m
    | inr m ↦ inr (h, m)
  ]
  IsAllowed-ListedIn (some cidrs) (some cidrs6) other_family h l = l

  pub ListedIn-none : (s : Sockaddr) → ListedIn none none s → ⊥
  ListedIn-none (inet a) l = l
  ListedIn-none (inet6 p) l = elim l [ inl m ↦ m.1 | inr m ↦ m ]
  ListedIn-none other_family l = l
