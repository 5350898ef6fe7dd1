-- ===== src/Reply/Headers.antt =====
-- The headers of a reply: `ngx_http_cache_purge_header` and its callers. The parts of the list of
-- nginx are one list here.
use ngx_cache_purge.Prelude.{
  ℕ, ◌≡◌, refl, ◌≢◌, Bool, true, false, ◌&&◌, List, [], ◌∷◌, Option, none, some, ◌==◌,
  if◌then◌else◌, length, codes, Option-cases, ◌>>=◌, ◌∙◌, inl, inr, arith,
}
use ngx_cache_purge.Reply.Catalog.{response}

-- `ngx_table_elt_t`, without the lower case key that is not used here.
pub record Header : Type 0 where
  pub hash : ℕ
  pub key : List ℕ
  pub value : List ℕ

abbrev pub code_header : List ℕ
code_header = codes "Cache-Purge-Code"

abbrev pub control_header : List ℕ
control_header = codes "Cache-Control"

abbrev pub no_store : List ℕ
no_store = codes "no-store"

-- `ngx_strncasecmp`: whether two byte strings agree in so many bytes but for the case of letters.
module _ (same_letters : List ℕ → List ℕ → ℕ → Bool) where
  unfoldable pub is_named : List ℕ → Header → Bool
  is_named name h = length h.key == length name && same_letters h.key name (length name)

  -- The header of the name is replaced, or one is pushed at the end if there is `room`.
  unfoldable pub set_header : Bool → List ℕ → List ℕ → List Header → Option (List Header)
  set_header room name value [] =
      if room then some (record { hash = 1; key = name; value = value } ∷ []) else none
  set_header room name value (h ∷ hs) =
      let later = set_header room name value hs in
      if is_named name h
      then some (record h { hash = 1; value = value } ∷ hs)
      else elim later [ none ↦ none | some hs' ↦ some (h ∷ hs') ]

  -- `NGX_ERROR` is `none`; otherwise the status and the headers. `room` tells which of the two
  -- pushes would find memory.
  unfoldable pub response_headers : Bool × Bool → ℕ → List Header → Option (ℕ × List Header)
  response_headers (room_code, room_control) code hs =
      let result = response code in
      do
        hs' ← set_header room_code code_header result.code hs
        hs'' ← set_header room_control control_header no_store hs'
        some (result.status, hs'')

  -- What a client finds under a name.
  unfoldable pub find_header : List ℕ → List Header → Option (List ℕ)
  find_header name [] = none
  find_header name (h ∷ hs) =
      let rest = find_header name hs in if is_named name h then some h.value else rest

-- What is documented of `ngx_strncasecmp`: it compares by the letters without their case.
pub record SameLetters (same_letters : List ℕ → List ℕ → ℕ → Bool) : Type 0 where
  pub letters_refl : (a : List ℕ) (n : ℕ) → same_letters a a n ≡ true
  pub letters_sym : (a b : List ℕ) (n : ℕ) → same_letters a b n ≡ true → same_letters b a n ≡ true
  pub letters_trans :
      (a b c : List ℕ) (n : ℕ)
      → same_letters a b n ≡ true
      → same_letters b c n ≡ true
      → same_letters a c n ≡ true

module _ (same_letters : List ℕ → List ℕ → ℕ → Bool) (laws : SameLetters same_letters) where
  named_self :
      (name value : List ℕ)
      → is_named same_letters name (record { hash = 1; key = name; value = value }) ≡ true
  unfolding is_named
  named_self name value = grind (arith, laws.letters_refl)

  named_replaced :
      (name value : List ℕ) (h : Header)
      → is_named same_letters name (record h { hash = 1; value = value })
        ≡ is_named same_letters name h
  unfolding is_named
  named_replaced name value h = refl

  named_key :
      (name other value : List ℕ)
      → length other ≢ length name
      → is_named same_letters other (record { hash = 1; key = name; value = value }) ≡ false
  unfolding is_named
  named_key name other value ne = ground arith

  named_one :
      (name other : List ℕ) (h : Header)
      → length other ≢ length name
      → is_named same_letters name h ≡ true
      → is_named same_letters other h ≡ false
  unfolding is_named
  named_one name other h ne e = ground arith

  pub find-set_header :
      (room : Bool) (name value : List ℕ) (hs hs' : List Header)
      → set_header same_letters room name value hs ≡ some hs'
      → find_header same_letters name hs' ≡ some value
  unfolding set_header find_header
  find-set_header true name value [] hs' h = grind (arith, named_self name value)
  find-set_header false name value [] hs' h = grind arith
  find-set_header room name value (x ∷ hs) hs' h =
      elim (Option-cases (set_header same_letters room name value hs)) [
        | inl e ↦ ground (arith, e, named_replaced name value x)
        | inr (later, e) ↦
            ground
              (arith, e, named_replaced name value x, find-set_header room name value hs later e)
      ]

  pub find-set_header_other :
      (room : Bool) (name other value : List ℕ) (hs hs' : List Header)
      → length other ≢ length name
      → set_header same_letters room name value hs ≡ some hs'
      → find_header same_letters other hs' ≡ find_header same_letters other hs
  unfolding set_header find_header
  find-set_header_other true name other value [] hs' ne h =
      grind (arith, named_key name other value ne)
  find-set_header_other false name other value [] hs' ne h = grind arith
  find-set_header_other room name other value (x ∷ hs) hs' ne h =
      elim (Option-cases (set_header same_letters room name value hs)) [
        | inl e ↦ ground (arith, e, named_replaced other value x, named_one name other x ne)
        | inr (later, e) ↦ ground (
          arith,
          e,
          named_replaced other value x,
          named_one name other x ne,
          find-set_header_other room name other value hs later ne e,
        )
      ]

  response_headers_parts :
      (room : Bool × Bool) (code status : ℕ) (hs hs' : List Header)
      → response_headers same_letters room code hs ≡ some (status, hs')
      → (mid : List Header) × (set_header same_letters (room.0) code_header (response code).code hs
          ≡ some mid)
        × (set_header same_letters (room.1) control_header no_store mid ≡ some hs')
        × (status ≡ (response code).status)
  unfolding response_headers
  response_headers_parts (room, room') code status hs hs' h =
      elim (Option-cases (set_header same_letters room code_header (response code).code hs)) [
        | inl e ↦ grind (arith, e, h)
        | inr (mid, e) ↦
            elim (Option-cases (set_header same_letters room' control_header no_store mid)) [
              | inl e' ↦ grind (arith, e, e', h)
              | inr (last, e') ↦ (mid, e, grind (arith, e, e', h), grind (arith, e, e', h))
            ]
      ]

  -- When the headers of a result are set, the status is the one of the result, a client finds the
  -- word of the result as the first Cache-Purge-Code and no-store as the first Cache-Control, whatever
  -- headers were there before.
  pub response_headers-find :
      (room : Bool × Bool) (code status : ℕ) (hs hs' : List Header)
      → response_headers same_letters room code hs ≡ some (status, hs')
      → (status ≡ (response code).status)
        × (find_header same_letters code_header hs' ≡ some (response code).code)
        × (find_header same_letters control_header hs' ≡ some no_store)
  unfolding response_headers
  response_headers-find (room, room') code status hs hs' h =
      let (mid, e, e', s) = response_headers_parts (room, room') code status hs hs' h in
      (
        s,
        find-set_header_other room' control_header code_header no_store mid hs' (ground arith) e'
            ∙ find-set_header room code_header (response code).code hs mid e,
        find-set_header room' control_header no_store mid hs' e',
      )
