-- ===== src/Request/Entry.antt =====
-- The entry of a request: `ngx_http_cache_purge_access_handler`, and the choice of the cache in
-- `ngx_http_cache_purge_cache_get`.
use ngx_cache_purge.Prelude.{
  ℕ, ◌≡◌, ◌↔◌, ◌⊎◌, inl, inr, refl, Bool, true, false, ◌&&◌, ◌||◌, not, List, [], ◌∷◌, Option, none,
  some, ◌==◌, if◌then◌else◌, length, codes, Bool-cases, Option-cases, arith,
}
use ngx_cache_purge.Ngx.{Rc, is_ok, ok}
use ngx_cache_purge.Generation.State.{is_some}
use ngx_cache_purge.Reply.Catalog.{ResultCode, internal_error, access_denied}
use ngx_cache_purge.Request.Access.{Cidr, Cidr6, Sockaddr, access, access_iff, IsAllowed}

-- `ngx_http_cache_purge_conf_t`.
pub record Conf : Type 0 where
  pub method : List ℕ
  pub purge_all : Bool
  pub access : Option (List Cidr)
  pub access6 : Option (List Cidr6)

-- The settings of the location that the entry reads: the resolved settings of a protocol, and
-- whether there are an original handler and a handler of the module.
pub record Entrance : Type 0 where
  pub conf : Option Conf
  pub has_original : Bool
  pub has_handler : Bool

-- Whom the request is handed to, or the reply that ends it.
pub data Turn : Type 0 where
  original handler method_refused : Turn
  answer : ResultCode → Turn

ok_of_is_ok : (rc : Rc) → is_ok rc ≡ true → rc ≡ ok
ok_of_is_ok rc h = grind arith

not_is_some : {A : Type 0} (o : Option A) → is_some o ≡ false → o ≡ none
not_is_some none h = refl
not_is_some (some a) h = absurd (grind arith)

and_false : (b : Bool) → (b && false) ≡ false
and_false true = refl
and_false false = refl

-- A location that lets everybody purge has neither list.
abbrev pub MayPurge : (ℕ → ℕ) → Conf → Sockaddr → Type 0
MayPurge htonl conf client =
    (conf.access ≡ none) × (conf.access6 ≡ none) ⊎ IsAllowed htonl conf.access conf.access6 client

-- `strncmp` of the C library: whether two strings agree in so many bytes.
module _ (same_bytes : List ℕ → List ℕ → ℕ → Bool) (htonl : ℕ → ℕ) where
  unfoldable pub is_method : List ℕ → Conf → Bool
  is_method name conf =
      length name == length conf.method && same_bytes name conf.method (length name)

  unfoldable pub is_denied : Conf → Sockaddr → Bool
  is_denied conf client =
      (is_some conf.access || is_some conf.access6)
      && not (is_ok (access htonl conf.access conf.access6 client))

  unfoldable pub access_handler : Entrance → List ℕ → Sockaddr → Turn
  access_handler e name client = elim e.conf [
    | none ↦ answer internal_error
    | some conf ↦
        if not (is_method name conf)
        then if e.has_original then original else method_refused
        else if is_denied conf client
        then answer access_denied
        else if e.has_handler
        then handler
        else answer internal_error
  ]

  not_denied :
      (conf : Conf) (client : Sockaddr) → is_denied conf client ≡ false → MayPurge htonl conf client
  unfolding is_denied
  not_denied conf client h =
      elim (Bool-cases (is_ok (access htonl conf.access conf.access6 client))) [
        | inl e ↦ inr (
            (access_iff htonl conf.access conf.access6 client).0
              (ok_of_is_ok (access htonl conf.access conf.access6 client) e))
        | inr e ↦ inl (
          not_is_some conf.access (ground (arith, e, h)),
          not_is_some conf.access6 (ground (arith, e, h)),
        )
      ]

  may_purge :
      (conf : Conf) (client : Sockaddr) → MayPurge htonl conf client → is_denied conf client ≡ false
  unfolding is_denied
  may_purge conf client (inl (a, b)) = rw (a, b) refl
  may_purge conf client (inr allowed) =
      let passed = (access_iff htonl conf.access conf.access6 client).1 allowed in
      rw passed (and_false (is_some conf.access || is_some conf.access6))

  pub is_denied_iff :
      (conf : Conf) (client : Sockaddr)
      → (is_denied conf client ≡ false) ↔ MayPurge htonl conf client
  is_denied_iff conf client = (not_denied conf client, may_purge conf client)

  -- A request reaches the purge of the module only if the location is configured for a protocol,
  -- the method is the one of the location, and the location has no list of addresses or one that
  -- the client is in.
  pub access_handler_guards :
      (e : Entrance) (name : List ℕ) (client : Sockaddr)
      → access_handler e name client ≡ handler
      → (conf : Conf) × (e.conf ≡ some conf)
        × (length name ≡ length conf.method)
        × (same_bytes name conf.method (length name) ≡ true)
        × MayPurge htonl conf client
  unfolding access_handler is_method
  access_handler_guards e name client h = elim (Option-cases e.conf) [
    | inl none_lem ↦ absurd (ground (arith, none_lem, h))
    | inr (conf, some_lem) ↦ elim (Bool-cases (is_method name conf)) [
      | inr other ↦ absurd (ground (arith, some_lem, other, h))
      | inl same ↦ elim (Bool-cases (is_denied conf client)) [
        | inl denied ↦ absurd (ground (arith, some_lem, same, denied, h))
        | inr free ↦ (
          conf,
          some_lem,
          ground (arith, same),
          ground (arith, same),
          not_denied conf client free,
        )
      ]
    ]
  ]

-- A cache: the address of the structure, and the name of its zone.
pub record Cache : Type 0 where
  pub addr : ℕ
  pub zone : List ℕ

-- The part of `ngx_http_upstream_t`: the zone of the configuration, the value of a variable name
-- (`none` where there is no variable, `some none` where it has no value), and the caches.
pub record Upstream : Type 0 where
  pub cache_zone : Option Cache
  pub cache_value : Option (Option (List ℕ))
  pub caches : List Cache

-- `NGX_OK` with a cache, `NGX_HTTP_NOT_FOUND`, `NGX_DECLINED` or `NGX_ERROR`.
pub data Found : Type 0 where
  found : Cache → Found
  not_found off failed : Found

module _ (same_bytes : List ℕ → List ℕ → ℕ → Bool) where
  unfoldable pub find_cache : List ℕ → List Cache → Option Cache
  find_cache val [] = none
  find_cache val (c ∷ caches) =
      let rest = find_cache val caches in
      if length c.zone == length val && same_bytes c.zone val (length val) then some c else rest

  unfoldable pub cache_get : Upstream → Found
  cache_get u = elim u.cache_zone [
    | some cache ↦ found cache
    | none ↦ elim u.cache_value [
      | none ↦ not_found
      | some none ↦ failed
      | some (some val) ↦
          if length val == 0 || length val == 3 && same_bytes val (codes "off") 3
          then off
          else elim (find_cache val u.caches) [ none ↦ failed | some cache ↦ found cache ]
    ]
  ]
