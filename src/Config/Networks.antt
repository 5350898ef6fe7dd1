-- ===== src/Config/Networks.antt =====
-- Whom the directive of a protocol lets purge.
use mathlib.Core.Path.{subst}
use ngx_cache_purge.Prelude.{
  ℕ, zero, suc, ◌+◌, ◌≤◌, ◌<◌, ◌≡◌, ◌↔◌, ◌⊎◌, inl, inr, refl, sym, ap, ◌∙◌, Bool, true, false, ◌||◌,
  List, [], ◌∷◌, Option, none, some, ◌==◌, if◌then◌else◌, length, drop, codes, bytes_eq, Bool-cases,
  Option-cases, arith,
}
use ngx_cache_purge.Generation.State.{is_some}
use ngx_cache_purge.Request.Access.{Sockaddr, IsAllowed}
use ngx_cache_purge.Request.Entry.{is_denied, is_denied_iff, Conf, MayPurge}
use ngx_cache_purge.Config.Purge.{
  PurgeConf, Network, v4, v6, arg, add_network, add_networks, read_from, purge_conf,
}
use ngx_cache_purge.Config.Lists.{
  InNetwork, Listed, ListedIn, Listed-add_network, ListedIn-IsAllowed, IsAllowed-ListedIn,
  ListedIn-none, IsPlain,
}

drop_cons :
    {A : Type 0} (n : ℕ) (xs : List A)
    → n < length xs
    → (y : A) × (ys : List A) × (drop n xs ≡ y ∷ ys)
drop_cons n [] h = absurd (omega (arith, h))
drop_cons zero (x ∷ xs) h = (x, xs, refl)
drop_cons (suc n) (x ∷ xs) h = drop_cons n xs (omega (arith, h))

-- Where the addresses of a directive begin.
abbrev pub addresses : List (List ℕ) → List (List ℕ)
addresses args = if bytes_eq (arg 2 args) (codes "purge_all") then drop 4 args else drop 3 args

-- The directive names addresses: it is not `off`, has at least four words, and not `from all`.
abbrev pub HasAddresses : List (List ℕ) → Type 0
HasAddresses args =
    (bytes_eq (arg 1 args) (codes "off") ≡ false)
    × (4 ≤ length args)
    × (bytes_eq (arg (if bytes_eq (arg 2 args) (codes "purge_all") then 4 else 3) args)
          (codes "all")
        ≡ false)

module _ (htonl : ℕ → ℕ) (ptocidr : List ℕ → Option Network) (room : List ℕ → Bool) where
  -- A client is in a network that one of the values of a directive names.
  abbrev pub InSome : List (List ℕ) → Sockaddr → Type 0
  InSome [] s = ⊥
  InSome (value ∷ values) s =
      ((n : Network) × (ptocidr value ≡ some n) × InNetwork htonl n s) ⊎ InSome values s

  -- What the loop does with the first of its values.
  add_networks_step :
      (value : List ℕ) (values : List (List ℕ)) (conf c : Conf)
      → add_networks ptocidr room (value ∷ values) conf ≡ some c
      → (n : Network) × (ptocidr value ≡ some n)
        × (add_networks ptocidr room values (add_network n conf) ≡ some c)
  unfolding add_networks
  add_networks_step value values conf c h = elim (Option-cases (ptocidr value)) [
    | inl nil ↦ absurd (ground (arith, nil, h))
    | inr (n, found) ↦ (n, found, ground (arith, found, h))
  ]

  add_networks_end : (conf c : Conf) → add_networks ptocidr room [] conf ≡ some c → conf ≡ c
  unfolding add_networks
  add_networks_end conf c h = ground (arith, h)

  add_networks-Listed :
      (values : List (List ℕ)) (conf c : Conf) (s : Sockaddr)
      → add_networks ptocidr room values conf ≡ some c
      → Listed htonl c s ↔ (Listed htonl conf s ⊎ InSome values s)
  add_networks-Listed [] conf c s h =
      subst (λ x. Listed htonl x s ↔ (Listed htonl conf s ⊎ ⊥)) (add_networks_end conf c h)
        (λ l. inl l, λ l. elim l [ inl l ↦ l | inr b ↦ absurd b ])
  add_networks-Listed (value ∷ values) conf c s h =
      let (n, found, more) = add_networks_step value values conf c h in
      let (to, from) = add_networks-Listed values (add_network n conf) c s more in
      let (to', from') = Listed-add_network htonl n conf s in
      (
        λ l. elim (to l) [
          | inl l ↦ elim (to' l) [ inl l ↦ inl l | inr i ↦ inr (inl (n, found, i)) ]
          | inr i ↦ inr (inr i)
        ],
        λ l. elim l [
          | inl l ↦ from (inl (from' (inl l)))
          | inr i ↦ elim i [
            | inl (m, found', i) ↦
                let same : m ≡ n = ground (arith, found, found') in
                from (inl (from' (inr (subst (λ x. InNetwork htonl x s) same i))))
            | inr i ↦ from (inr i)
          ]
        ],
      )

  -- There is a list.
  abbrev HasList : Conf → Type 0
  HasList c = (is_some c.access || is_some c.access6) ≡ true

  add_network-HasList : (n : Network) (c : Conf) → HasList (add_network n c)
  unfolding add_network
  add_network-HasList (v4 cidr) c = elim (Option-cases c.access) [
    | inl e ↦ ground (arith, e)
    | inr (xs, e) ↦ ground (arith, e)
  ]
  add_network-HasList (v6 cidr) c = elim (Option-cases c.access6) [
    | inl e ↦ ground (arith, e)
    | inr (xs, e) ↦ ground (arith, e)
  ]

  add_networks-HasList :
      (values : List (List ℕ)) (conf c : Conf)
      → add_networks ptocidr room values conf ≡ some c
      → HasList conf
      → HasList c
  add_networks-HasList [] conf c h l = subst HasList (add_networks_end conf c h) l
  add_networks-HasList (value ∷ values) conf c h l =
      let (n, found, more) = add_networks_step value values conf c h in
      add_networks-HasList values (add_network n conf) c more (add_network-HasList n conf)

  IsAllowed-MayPurge :
      (c : Conf) (s : Sockaddr)
      → HasList c
      → MayPurge htonl c s
      → IsAllowed htonl c.access c.access6 s
  IsAllowed-MayPurge c s l (inl (e, e')) = absurd (grind (arith, l, e, e'))
  IsAllowed-MayPurge c s l (inr h) = h

  -- The loop over at least one address, on settings that have no lists.
  add_networks-MayPurge :
      (value : List ℕ) (values : List (List ℕ)) (conf c : Conf) (s : Sockaddr)
      → conf.access ≡ none
      → conf.access6 ≡ none
      → add_networks ptocidr room (value ∷ values) conf ≡ some c
      → (MayPurge htonl c s → InSome (value ∷ values) s)
        × (IsPlain s → InSome (value ∷ values) s → MayPurge htonl c s)
  add_networks-MayPurge value values conf c s e e' h =
      let (n, found, more) = add_networks_step value values conf c h in
      let list =
        add_networks-HasList values (add_network n conf) c more (add_network-HasList n conf) in
      let (to, from) = add_networks-Listed (value ∷ values) conf c s h in
      (
        λ may.
            elim (to
              (ListedIn-IsAllowed htonl c.access c.access6 s (IsAllowed-MayPurge c s list may))) [
                | inl l ↦ absurd (
                    ListedIn-none htonl s (
                      subst (λ a. ListedIn htonl none a s) e'
                        (subst (λ a. ListedIn htonl a conf.access6 s) e l)))
                | inr i ↦ i
              ],
        λ plain i. inr (IsAllowed-ListedIn htonl c.access c.access6 s plain (from (inr i))),
      )

  read_from-MayPurge :
      (position : ℕ) (args : List (List ℕ)) (conf : Conf) (p : PurgeConf) (s : Sockaddr)
      → conf.access ≡ none
      → conf.access6 ≡ none
      → suc position ≤ length args
      → bytes_eq (arg (position + 1) args) (codes "all") ≡ false
      → read_from ptocidr room position args conf ≡ some p
      → (MayPurge htonl p.conf s → InSome (drop (position + 1) args) s)
        × (IsPlain s → InSome (drop (position + 1) args) s → MayPurge htonl p.conf s)
  unfolding read_from
  read_from-MayPurge position args conf p s e e' le other h =
      let lt : position + 1 < length args = elim (Bool-cases (position + 1 == length args)) [
        | inl end ↦ absurd (ground (arith, end, h))
        | inr more ↦ ground (arith, more, le)
      ] in
      let (value, values, cons) = drop_cons (position + 1) args lt in
      elim (Option-cases (add_networks ptocidr room (drop (position + 1) args) conf)) [
        | inl nil ↦ absurd (ground (arith, nil, other, h))
        | inr (c, found) ↦
            let same : c ≡ p.conf = ground (arith, found, other, h) in
            subst
              (λ vs.
                (MayPurge htonl p.conf s → InSome vs s)
                × (IsPlain s → InSome vs s → MayPurge htonl p.conf s))
              (sym cons)
              (add_networks-MayPurge value values conf p.conf s e e' (
                subst (λ vs. add_networks ptocidr room vs conf ≡ some p.conf) cons
                  (found ∙ ap (λ x. some x) same)))
      ]

  purge_conf-MayPurge :
      (args : List (List ℕ)) (p c : PurgeConf) (s : Sockaddr)
      → p.conf.access ≡ none
      → p.conf.access6 ≡ none
      → HasAddresses args
      → purge_conf ptocidr room args p ≡ some c
      → (MayPurge htonl c.conf s → InSome (addresses args) s)
        × (IsPlain s → InSome (addresses args) s → MayPurge htonl c.conf s)
  unfolding purge_conf
  purge_conf-MayPurge args p c s e e' (named, size, other) accepted =
      let conf = p.conf in
      let method = if bytes_eq (arg 1 args) (codes "on") then codes "PURGE" else arg 1 args in
      let conf' : Conf = record conf { method = method } in
      elim (Bool-cases (bytes_eq (arg 2 args) (codes "purge_all"))) [
        | inl all ↦ rw all (
            read_from-MayPurge 3 args (record conf' { purge_all = true }) c s e e' size
              (rw all at other) (ground (arith, all, named, size, accepted)))
        | inr all ↦ rw all (
            read_from-MayPurge 2 args conf' c s e e' (omega (arith, size)) (rw all at other)
              (ground (arith, all, named, size, accepted)))
      ]

  -- With a directive that is accepted and names addresses, the test of the entry refuses every client
  -- that is in none of the networks that it names, and no client in one of them whose address is not
  -- an IPv4 address mapped into IPv6.
  pub purge_conf-is_denied :
      (same_bytes : List ℕ → List ℕ → ℕ → Bool) (args : List (List ℕ)) (p c : PurgeConf)
      (s : Sockaddr)
      → p.conf.access ≡ none
      → p.conf.access6 ≡ none
      → HasAddresses args
      → purge_conf ptocidr room args p ≡ some c
      → (is_denied same_bytes htonl c.conf s ≡ false → InSome (addresses args) s)
        × (IsPlain s × InSome (addresses args) s → is_denied same_bytes htonl c.conf s ≡ false)
  purge_conf-is_denied same_bytes args p c s e e' h accepted =
      let (only, every) = purge_conf-MayPurge args p c s e e' h accepted in
      let test = is_denied_iff same_bytes htonl c.conf s in
      (λ free. only (test.0 free), λ (plain, listed). test.1 (every plain listed))
