-- ===== src/Refresh/Cursor.antt =====
-- The cursor of a client: the loop over the headers in `ngx_http_cache_refresh_start`.
use mathlib.Core.Path.{subst}
use ngx_cache_purge.Queue.Counts.{All}
use ngx_cache_purge.Prelude.{
  Option-cases, ◌↔◌, ℕ, ◌≡◌, refl, Bool, true, false, ◌&&◌, not, List, [], ◌∷◌, map, Option, none,
  some, ◌==◌, if◌then◌else◌, length, codes, Bool-cases, inl, inr, arith,
}
use ngx_cache_purge.Ngx.{Text}
use ngx_cache_purge.Generation.State.{is_some}
use ngx_cache_purge.Reply.Headers.{Header}

abbrev pub cursor_name : List ℕ
cursor_name = codes "X-Cache-Purge-Cursor"

-- `ngx_memset(job->after, '0', 32)`.
abbrev pub first_cursor : List ℕ
first_cursor = codes "00000000000000000000000000000000"

some_inj : {a b : List ℕ} → some a ≡ some b → a ≡ b
some_inj h = cc

module _ (text : Text) (same_letters : List ℕ → List ℕ → ℕ → Bool) where
  abbrev pub is_cursor : Header → Bool
  is_cursor h = length h.key == length cursor_name && same_letters h.key cursor_name (length h.key)

  unfoldable pub all_digits : List ℕ → Bool
  all_digits [] = true
  all_digits (c ∷ s) = is_some (text.hextoi c) && all_digits s

  abbrev pub is_valid : List ℕ → Bool
  is_valid value = length value == 32 && all_digits value

  -- `seen` is `found`; `none` is the jump to `invalid`.
  unfoldable pub read_cursor : List Header → Bool → List ℕ → Option (List ℕ)
  read_cursor [] seen after = some after
  read_cursor (h ∷ headers) seen after =
      let skipped = read_cursor headers seen after in
      let read = read_cursor headers true (map text.tolower h.value) in
      if not (is_cursor h)
      then skipped
      else if seen
      then none
      else if not (is_valid h.value)
      then none
      else read

  -- A header of the name, and a value of 32 hexadecimal digits.
  abbrev pub IsCursor : Header → Type 0
  IsCursor h =
      (length h.key ≡ length cursor_name) × (same_letters h.key cursor_name (length h.key) ≡ true)

  abbrev pub IsHexDigit : ℕ → Type 0
  IsHexDigit c = (d : ℕ) × (text.hextoi c ≡ some d)

  abbrev pub IsHash : List ℕ → Type 0
  IsHash value = (length value ≡ 32) × All IsHexDigit value

  -- What a request asks for: where it begins, or the one cursor that it gives.
  pub data Asked (after : List ℕ) : List Header → List ℕ → Type 0 where
    beginning : Asked after [] after
    skipped :
        {h : Header} {headers : List Header} {c : List ℕ}
        → ¬ IsCursor h
        → Asked after headers c
        → Asked after (h ∷ headers) c
    taken :
        {h : Header} {headers : List Header}
        → IsCursor h
        → IsHash h.value
        → All (λ x. ¬ IsCursor x) headers
        → Asked after (h ∷ headers) (map text.tolower h.value)

  is_cursor-IsCursor : (h : Header) → is_cursor h ≡ true → IsCursor h
  is_cursor-IsCursor h e = (ground (arith, e), ground (arith, e))

  is_cursor_lem : (h : Header) → IsCursor h → is_cursor h ≡ true
  is_cursor_lem h (a, b) = ground (arith, a, b)

  is_cursor_not : (h : Header) → is_cursor h ≡ false → ¬ IsCursor h
  is_cursor_not h e i = let yes' = is_cursor_lem h i in cc

  not_cursor : (h : Header) → ¬ IsCursor h → is_cursor h ≡ false
  not_cursor h other = elim (Bool-cases (is_cursor h)) [
    | inl e ↦ absurd (other (is_cursor-IsCursor h e))
    | inr e ↦ e
  ]

  all_digits-All : (s : List ℕ) → all_digits s ≡ true → All IsHexDigit s
  unfolding all_digits
  all_digits-All [] h = tt
  all_digits-All (c ∷ s) h = elim (Option-cases (text.hextoi c)) [
    | inl nil ↦ absurd (ground (arith, nil, h))
    | inr (d, found) ↦ ((d, found), all_digits-All s (ground (arith, found, h)))
  ]

  all_digits_lem : (s : List ℕ) → All IsHexDigit s → all_digits s ≡ true
  unfolding all_digits
  all_digits_lem [] h = refl
  all_digits_lem (c ∷ s) ((d, found), h) = rw found (all_digits_lem s h)

  read_cursor_seen :
      (headers : List Header) (after c : List ℕ)
      → read_cursor headers true after ≡ some c
      → (after ≡ c) × All (λ x. ¬ IsCursor x) headers
  unfolding read_cursor
  read_cursor_seen [] after c h = (some_inj h, tt)
  read_cursor_seen (x ∷ headers) after c h = elim (Bool-cases (is_cursor x)) [
    | inl e ↦ absurd (grind (arith, rw e at h))
    | inr e ↦
        let (same, none') = read_cursor_seen headers after c (rw e at h) in
        (same, (is_cursor_not x e, none'))
  ]

  read_cursor_alone :
      (headers : List Header) (seen : Bool) (after : List ℕ)
      → All (λ x. ¬ IsCursor x) headers
      → read_cursor headers seen after ≡ some after
  unfolding read_cursor
  read_cursor_alone [] seen after h = refl
  read_cursor_alone (x ∷ headers) seen after (other, h) =
      rw (not_cursor x other, read_cursor) (read_cursor_alone headers seen after h)

  read_cursor-Asked :
      (headers : List Header) (after c : List ℕ)
      → read_cursor headers false after ≡ some c
      → Asked after headers c
  unfolding read_cursor
  read_cursor-Asked [] after c h = subst (Asked after []) (some_inj h) beginning
  read_cursor-Asked (x ∷ headers) after c h = elim (Bool-cases (is_cursor x)) [
    | inr e ↦ skipped (is_cursor_not x e) (read_cursor-Asked headers after c (rw e at h))
    | inl e ↦ elim (Bool-cases (is_valid x.value)) [
      | inr v ↦ absurd (grind (arith, rw (e, v) at h))
      | inl v ↦
          let (same, alone) =
            read_cursor_seen headers (map text.tolower x.value) c (rw (e, v) at h) in
          let hash : IsHash x.value =
            (ground (arith, v), all_digits-All x.value (ground (arith, v))) in
          subst (Asked after (x ∷ headers)) same (taken (is_cursor-IsCursor x e) hash alone)
    ]
  ]

  Asked-read_cursor :
      (after : List ℕ) (headers : List Header) (c : List ℕ)
      → Asked after headers c
      → read_cursor headers false after ≡ some c
  unfolding read_cursor
  Asked-read_cursor after _ _ beginning = refl
  Asked-read_cursor after _ c (skipped {h} {headers} other rest) =
      rw (not_cursor h other, read_cursor) (Asked-read_cursor after headers c rest)
  Asked-read_cursor after _ _ (taken {h} {headers} is (size, hex) alone) =
      let valid : is_valid h.value ≡ true =
        (let digits = all_digits_lem h.value hex in ground (arith, size, digits)) in
      rw (is_cursor_lem h is, valid, read_cursor)
        (read_cursor_alone headers true (map text.tolower h.value) alone)

  -- The loop over the headers accepts a request with a cursor exactly when the request has no header
  -- of the name and the cursor is the one that the job begins with, or the request has one such
  -- header, its value is 32 hexadecimal digits, and the cursor is that value in lower case.
  pub read_cursor_iff :
      (headers : List Header) (after c : List ℕ)
      → (read_cursor headers false after ≡ some c) ↔ Asked after headers c
  read_cursor_iff headers after c =
      (read_cursor-Asked headers after c, Asked-read_cursor after headers c)
