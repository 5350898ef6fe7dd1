-- ===== src/Refresh/Profile.antt =====
-- The profile of a probe: `ngx_http_cache_refresh_guard`, on a subrequest of a refresh and with a
-- `proxy_method` that nginx evaluates (1.11.6 and later).
use mathlib.Core.Path.{subst}
use mathlib.Core.List.{Mem, mem-cons, not-mem-nil}
use mathlib.Core.Logic.Or
use ngx_cache_purge.Queue.Counts.{All}
use ngx_cache_purge.Prelude.{
  ℕ, zero, suc, ◌≡◌, ◌≢◌, ◌⊎◌, refl, Bool, true, false, ◌&&◌, ◌||◌, not, List, [], ◌∷◌, Option,
  none, some, ◌==◌, if◌then◌else◌, length, codes, bytes_eq, eq_of_bytes_eq, sym, is_empty,
  Bool-cases, Option-cases, inl, inr, arith, ap, ◌∙◌,
}
use ngx_cache_purge.Ngx.{Text}
use ngx_cache_purge.Refresh.Batch.{RefreshEntry, profile}
use ngx_cache_purge.Refresh.Job.{Job, entry_at, set_at, set_result, decides}
use ngx_cache_purge.Refresh.Job as Jobs

-- A header that `proxy_set_header` adds.
pub record SetHeader : Type 0 where
  pub key : List ℕ
  pub value : List ℕ

-- What the guard reads of the location that the subrequest reached; `http_method` is `none` when
-- the method cannot be evaluated, and `HEAD` when none is set.
pub record Profile : Type 0 where
  pub internal : Bool
  pub uri : List ℕ
  pub refresh_location : List ℕ
  pub pass_request_headers : Bool
  pub pass_request_body : Bool
  pub intercept_errors : Bool
  pub has_cache : Bool
  pub http_method : Option (List ℕ)
  pub headers : List SetHeader

-- The three flags of the loop.
pub record Flags : Type 0 where
  pub host : Bool
  pub etag : Bool
  pub modified : Bool

-- `ngx_strchr(value, '$') != NULL`.
unfoldable pub has_dollar : List ℕ → Bool
has_dollar [] = false
has_dollar (c ∷ s) = c == b'$' || has_dollar s

abbrev pub is_head : Option (List ℕ) → Bool
is_head none = false
is_head (some name) = bytes_eq name (codes "HEAD")

abbrev pub is_literal_host : SetHeader → Bool
is_literal_host h = not (is_empty h.value) && not (has_dollar h.value)

abbrev pub is_etag_getter : SetHeader → Bool
is_etag_getter h = bytes_eq h.value (codes "$cache_purge_refresh_etag")

abbrev pub is_modified_getter : SetHeader → Bool
is_modified_getter h = bytes_eq h.value (codes "$cache_purge_refresh_last_modified")

abbrev pub no_flags : Flags
no_flags = record { host = false; etag = false; modified = false }

abbrev pub all_flags : Option Flags → Bool
all_flags none = false
all_flags (some f) = f.host && f.etag && f.modified

module _ (same_letters : List ℕ → List ℕ → ℕ → Bool) where
  abbrev pub is_key : List ℕ → SetHeader → Bool
  is_key name h = length h.key == length name && same_letters h.key name (length h.key)

  abbrev pub is_host : SetHeader → Bool
  is_host = is_key (codes "Host")

  abbrev pub is_etag : SetHeader → Bool
  is_etag = is_key (codes "If-None-Match")

  abbrev pub is_modified : SetHeader → Bool
  is_modified = is_key (codes "If-Modified-Since")

  -- One round of the loop after the test for a value that is not literal.
  unfoldable pub note : SetHeader → Flags → Flags
  note h f = record {
    host = if is_host h then is_literal_host h else f.host;
    etag = if is_etag h then is_etag_getter h else f.etag;
    modified = if is_modified h then is_modified_getter h else f.modified;
  }

  -- A value with a variable, of a header that may not have one.
  abbrev pub is_leak : SetHeader → Bool
  is_leak h = has_dollar h.value && not (is_etag h || is_modified h)

  -- `none` is the return within the loop.
  unfoldable pub read_headers : List SetHeader → Flags → Option Flags
  read_headers [] f = some f
  read_headers (h ∷ headers) f =
      let rest = read_headers headers (note h f) in if is_leak h then none else rest

  -- Whether the guard lets the subrequest go on (`NGX_DECLINED`); otherwise the entry gets the result
  -- `NGX_REFRESH_PROFILE` and the subrequest ends.
  unfoldable pub guard : Profile → Bool
  guard p =
      if not p.internal
      then false
      else if not (bytes_eq p.uri p.refresh_location)
      then false
      else if p.pass_request_headers
      then false
      else if p.pass_request_body
      then false
      else if p.intercept_errors
      then false
      else if p.has_cache
      then false
      else if not (is_head p.http_method)
      then false
      else all_flags (read_headers p.headers no_flags)

three_true : (a b c : Bool) → (a && not b && c) ≡ true → (a ≡ true) × (b ≡ false) × (c ≡ true)
three_true a b c h = (ground (arith, h), ground (arith, h), ground (arith, h))

conjuncts : (a b c : Bool) → (a && b && c) ≡ true → (a ≡ true) × (b ≡ true) × (c ≡ true)
conjuncts a b c h = (ground (arith, h), ground (arith, h), ground (arith, h))

not_empty : (xs : List ℕ) → is_empty xs ≡ false → xs ≢ []
not_empty [] h e = cc
not_empty (x ∷ xs) h e = cc

header_inj : {g h : SetHeader} → some g ≡ some h → g ≡ h
header_inj h = cc

-- The last header that passes a test.
unfoldable pub last_of : (SetHeader → Bool) → List SetHeader → Option SetHeader
last_of test [] = none
last_of test (h ∷ headers) = elim (last_of test headers) [
  | none ↦ if test h then some h else none
  | some x ↦ some x
]

-- What the last header that passes a test is, and `default` if there is none.
abbrev pub last_is : (SetHeader → Bool) → (SetHeader → Bool) → List SetHeader → Bool → Bool
last_is test good headers default = elim (last_of test headers) [ none ↦ default | some h ↦ good h ]

unfoldable pub any_header : (SetHeader → Bool) → List SetHeader → Bool
any_header test [] = false
any_header test (h ∷ headers) = test h || any_header test headers

last_is_cons :
    (test good : SetHeader → Bool) (h : SetHeader) (headers : List SetHeader) (default : Bool)
    → last_is test good (h ∷ headers) default
      ≡ last_is test good headers (if test h then good h else default)
unfolding last_of
last_is_cons test good h headers default = elim (Option-cases (last_of test headers)) [
  | inl nil ↦ ground (arith, nil)
  | inr (x, found) ↦ ground (arith, found)
]

abbrev pub is_closed : Profile → Bool
is_closed p =
    p.internal
    && bytes_eq p.uri p.refresh_location
    && not p.pass_request_headers
    && not p.pass_request_body
    && not p.intercept_errors
    && not p.has_cache
    && is_head p.http_method

module _ (same_letters : List ℕ → List ℕ → ℕ → Bool) where
  abbrev last_flags : List SetHeader → Flags → Flags
  last_flags headers f = record {
    host = last_is (is_host same_letters) is_literal_host headers f.host;
    etag = last_is (is_etag same_letters) is_etag_getter headers f.etag;
    modified = last_is (is_modified same_letters) is_modified_getter headers f.modified;
  }

  last_flags-note :
      (h : SetHeader) (headers : List SetHeader) (f : Flags)
      → last_flags headers (note same_letters h f) ≡ last_flags (h ∷ headers) f
  unfolding note
  last_flags-note h headers f = simp (
    last_is_cons (is_host same_letters) is_literal_host h headers f.host,
    last_is_cons (is_etag same_letters) is_etag_getter h headers f.etag,
    last_is_cons (is_modified same_letters) is_modified_getter h headers f.modified,
  )

  read_headers-last_flags :
      (headers : List SetHeader) (f : Flags)
      → read_headers same_letters headers f
        ≡ (if any_header (is_leak same_letters) headers then none else some (last_flags headers f))
  unfolding read_headers any_header last_of
  read_headers-last_flags [] f = refl
  read_headers-last_flags (h ∷ headers) f = elim (Bool-cases (is_leak same_letters h)) [
    | inl leak ↦ rw (leak, read_headers) refl
    | inr free ↦
        rw (free, read_headers)
          (read_headers-last_flags headers (note same_letters h f)
            ∙ ap (λ x. if any_header (is_leak same_letters) headers then none else some x)
                (last_flags-note h headers f))
  ]

  -- The last header of its name holds.
  abbrev pub asks_conditionally : List SetHeader → Bool
  asks_conditionally headers =
      last_is (is_host same_letters) is_literal_host headers false
      && last_is (is_etag same_letters) is_etag_getter headers false
      && last_is (is_modified same_letters) is_modified_getter headers false

  guard_lem :
      (p : Profile)
      → guard same_letters p ≡ (
          is_closed p
          && not (any_header (is_leak same_letters) p.headers)
          && asks_conditionally p.headers)
  unfolding guard
  guard_lem p = ground (arith, read_headers-last_flags p.headers no_flags)

  -- A header of a name, by length and letters.
  abbrev pub Named : List ℕ → SetHeader → Type 0
  Named name h = (length h.key ≡ length name) × (same_letters h.key name (length h.key) ≡ true)

  abbrev pub IsLiteral : List ℕ → Type 0
  IsLiteral value = ¬ Mem b'$' value

  -- The value of the last header of a name.
  pub data LastValue (name : List ℕ) : List SetHeader → List ℕ → Type 0 where
    last :
        {h : SetHeader} {headers : List SetHeader}
        → Named name h
        → All (λ x. ¬ Named name x) headers
        → LastValue name (h ∷ headers) h.value
    earlier :
        {h : SetHeader} {headers : List SetHeader} {value : List ℕ}
        → LastValue name headers value
        → LastValue name (h ∷ headers) value

  -- What a profile of a probe has to be.
  pub record IsSafe (p : Profile) : Type 0 where
    pub internal_lem : p.internal ≡ true
    pub uri_lem : p.uri ≡ p.refresh_location
    pub no_request_headers : p.pass_request_headers ≡ false
    pub no_request_body : p.pass_request_body ≡ false
    pub no_intercept : p.intercept_errors ≡ false
    pub no_cache : p.has_cache ≡ false
    pub is_head_lem : p.http_method ≡ some (codes "HEAD")
    pub literal :
        All
          (λ h.
            IsLiteral h.value
            ⊎ (Named (codes "If-None-Match") h ⊎ Named (codes "If-Modified-Since") h))
          p.headers
    pub host_lem :
        (value : List ℕ) × LastValue (codes "Host") p.headers value × (value ≢ []) × IsLiteral value
    pub etag_lem : LastValue (codes "If-None-Match") p.headers (codes "$cache_purge_refresh_etag")
    pub modified_lem :
        LastValue (codes "If-Modified-Since") p.headers (codes "$cache_purge_refresh_last_modified")

  has_dollar-Mem : (s : List ℕ) → has_dollar s ≡ false → IsLiteral s
  unfolding has_dollar
  has_dollar-Mem [] h m = not-mem-nil m
  has_dollar-Mem (c ∷ s) h m = elim (Bool-cases (c == b'$')) [
    | inl e ↦ absurd (grind (arith, rw e at h))
    | inr e ↦
        Or.elim (hlevel) (mem-cons.0 m) (λ same. absurd (ground (arith, e, same)))
          (has_dollar-Mem s (rw e at h))
  ]

  is_key-Named : (name : List ℕ) (h : SetHeader) → is_key same_letters name h ≡ true → Named name h
  is_key-Named name h e = (ground (arith, e), ground (arith, e))

  Named-is_key : (name : List ℕ) (h : SetHeader) → Named name h → is_key same_letters name h ≡ true
  Named-is_key name h (a, b) = ground (arith, a, b)

  not_key : (name : List ℕ) (h : SetHeader) → is_key same_letters name h ≡ false → ¬ Named name h
  not_key name h e n = let named = Named-is_key name h n in cc

  last_of-none :
      (name : List ℕ) (headers : List SetHeader)
      → last_of (is_key same_letters name) headers ≡ none
      → All (λ x. ¬ Named name x) headers
  unfolding last_of
  last_of-none name [] h = tt
  last_of-none name (x ∷ headers) h =
      elim (Option-cases (last_of (is_key same_letters name) headers)) [
        | inr (y, found) ↦ absurd (grind (arith, rw found at h))
        | inl nil ↦ elim (Bool-cases (is_key same_letters name x)) [
          | inl e ↦ absurd (grind (arith, rw (nil, e) at h))
          | inr e ↦ (not_key name x e, last_of-none name headers nil)
        ]
      ]

  last_of-LastValue :
      (name : List ℕ) (headers : List SetHeader) (h : SetHeader)
      → last_of (is_key same_letters name) headers ≡ some h
      → LastValue name headers h.value
  unfolding last_of
  last_of-LastValue name [] h e = absurd (grind (arith, e))
  last_of-LastValue name (x ∷ headers) h e =
      elim (Option-cases (last_of (is_key same_letters name) headers)) [
        | inr (y, found) ↦
            let same : y ≡ h = header_inj (rw found at e) in
            earlier (last_of-LastValue name headers h (rw same at found))
        | inl nil ↦ elim (Bool-cases (is_key same_letters name x)) [
          | inl k ↦
              let same : x ≡ h = header_inj (rw (nil, k) at e) in
              subst (λ y. LastValue name (x ∷ headers) y.value) same
                (last (is_key-Named name x k) (last_of-none name headers nil))
          | inr k ↦ absurd (grind (arith, rw (nil, k) at e))
        ]
      ]

  modified_of :
      (x : SetHeader) (dollar etag modified : Bool)
      → dollar ≡ true
      → etag ≡ false
      → (dollar && not (etag || modified)) ≡ false
      → modified ≡ true
  modified_of x dollar etag modified d e h = ground (arith, d, e, h)

  no_leak :
      (headers : List SetHeader)
      → any_header (is_leak same_letters) headers ≡ false
      → All
          (λ h.
            IsLiteral h.value
            ⊎ (Named (codes "If-None-Match") h ⊎ Named (codes "If-Modified-Since") h))
          headers
  unfolding any_header
  no_leak [] h = tt
  no_leak (x ∷ headers) h = (
    elim (Bool-cases (has_dollar x.value)) [
      | inr e ↦ inl (has_dollar-Mem x.value e)
      | inl e ↦ elim (Bool-cases (is_etag same_letters x)) [
        | inl k ↦ inr (inl (is_key-Named (codes "If-None-Match") x k))
        | inr k ↦ inr (
            inr (
              is_key-Named (codes "If-Modified-Since") x (
                modified_of x (has_dollar x.value) (is_etag same_letters x)
                  (is_modified same_letters x) e k (ground (arith, h)))))
      ]
    ],
    no_leak headers (ground (arith, h)),
  )

  last_good :
      (name : List ℕ) (good : SetHeader → Bool) (headers : List SetHeader)
      → last_is (is_key same_letters name) good headers false ≡ true
      → (h : SetHeader) × LastValue name headers h.value × (good h ≡ true)
  last_good name good headers e = elim (Option-cases (last_of (is_key same_letters name) headers)) [
    | inl nil ↦ absurd (grind (arith, rw (nil, last_is) at e))
    | inr (h, found) ↦ (h, last_of-LastValue name headers h found, rw (found, last_is) at e)
  ]

  method_head : (m : Option (List ℕ)) → is_head m ≡ true → m ≡ some (codes "HEAD")
  method_head none h = absurd (grind (arith, h))
  method_head (some name) h = ap (λ x. some x) (eq_of_bytes_eq name (codes "HEAD") h)

  -- A probe that the guard lets go on has a location that is internal and the one of the profile,
  -- passes neither headers nor body of the client, has no cache and no interception of errors, and
  -- sends HEAD; every header with a variable is If-None-Match or If-Modified-Since; and the last
  -- Host, the last If-None-Match and the last If-Modified-Since are a literal name that is not empty
  -- and the two values of the probe.
  pub guard-IsSafe : (p : Profile) → guard same_letters p ≡ true → IsSafe p
  guard-IsSafe p h =
      let all : (is_closed p
            && not (any_header (is_leak same_letters) p.headers)
            && asks_conditionally p.headers)
          ≡ true =
        sym (guard_lem p) ∙ h in
      let (closed, free, asks) =
        three_true (is_closed p) (any_header (is_leak same_letters) p.headers)
          (asks_conditionally p.headers) all in
      let (hosts, etags, modifieds) = conjuncts _ _ _ asks in
      let (x, x_last, x_good) = last_good (codes "Host") is_literal_host p.headers hosts in
      let (y, y_last, y_good) = last_good (codes "If-None-Match") is_etag_getter p.headers etags in
      let (z, z_last, z_good) =
        last_good (codes "If-Modified-Since") is_modified_getter p.headers modifieds in
      record {
        internal_lem = ground (arith, closed);
        uri_lem = eq_of_bytes_eq p.uri p.refresh_location (ground (arith, closed));
        no_request_headers = ground (arith, closed);
        no_request_body = ground (arith, closed);
        no_intercept = ground (arith, closed);
        no_cache = ground (arith, closed);
        is_head_lem = method_head p.http_method (ground (arith, closed));
        literal = no_leak p.headers free;
        host_lem = (
          x.value,
          x_last,
          λ empty. not_empty x.value (ground (arith, x_good)) empty,
          has_dollar-Mem x.value (ground (arith, x_good)),
        );
        etag_lem =
            subst (LastValue (codes "If-None-Match") p.headers)
              (eq_of_bytes_eq y.value (codes "$cache_purge_refresh_etag") y_good) y_last;
        modified_lem =
            subst (LastValue (codes "If-Modified-Since") p.headers)
              (eq_of_bytes_eq z.value (codes "$cache_purge_refresh_last_modified") z_good) z_last;
      }

  -- The guard of the subrequest of a job: the entry of a probe that is stopped is marked.
  unfoldable pub guarded : Profile → Job → Job
  guarded p j = if guard same_letters p then j else set_result profile j

-- An entry that is marked is decided by no status.
decides-set_at :
    (status n : ℕ) (entries : List RefreshEntry)
    → decides status (entry_at n (set_at n (λ e. record e { result = profile }) entries)) ≡ false
unfolding entry_at set_at
decides-set_at status n [] = refl
decides-set_at status zero (e ∷ entries) = refl
decides-set_at status (suc n) (e ∷ entries) = decides-set_at status n entries

module _ (same_letters : List ℕ → List ℕ → ℕ → Bool) (text : Text) (max_processes : ℕ)
    (process_alive : ℕ → Bool) (owners : ℕ → ℕ) (slot : ℕ) where
  done_kept :
      (status : ℕ) (j : Job) (probes : ℕ → ℕ)
      → decides status (entry_at j.position j.entries) ≡ false
      → (Jobs.done text max_processes process_alive owners slot status j probes).job.decision
        ≡ j.decision
  unfolding Jobs.done
  done_kept status j probes undecided = ground (arith, undecided)

  -- A probe that the guard stops decides nothing, whatever status its subrequest ends with.
  pub done-guarded :
      (p : Profile) (status : ℕ) (j : Job) (probes : ℕ → ℕ)
      → guard same_letters p ≡ false
      → (Jobs.done text max_processes process_alive owners slot status
          (guarded same_letters p j)
          probes).job.decision
        ≡ j.decision
  unfolding guarded
  done-guarded p status j probes stops =
      let marked : set_result profile j ≡ guarded same_letters p j = simp stops in
      subst
        (λ x.
          (Jobs.done text max_processes process_alive owners slot status x probes).job.decision
          ≡ j.decision)
        marked
        (done_kept status (set_result profile j) probes
          (decides-set_at status j.position j.entries))
