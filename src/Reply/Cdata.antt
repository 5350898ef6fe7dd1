-- ===== src/Reply/Cdata.antt =====
-- The key in a CDATA section: it is read back, and its length is known.
use mathlib.Core.List.{append_assoc}
use ngx_cache_purge.Prelude.{
  ℕ, ◌≢◌, Bool, ◌==◌, not, if◌then◌else◌, zero, suc, ◌+◌, ◌-◌, ◌*◌, ◌≤◌, ◌<◌, ◌≡◌, refl, true,
  false, List, [], ◌∷◌, ◌++◌, Option, none, some, length, length-append, drop, codes, sym, ap, ◌∙◌,
  strip_prefix, Bool-cases, inl, inr, arith,
}
use ngx_cache_purge.Queue.Counts.{All}
use ngx_cache_purge.Reply.Escape.{escape_cdata, extra_cdata, is_terminator}

abbrev pub opening : List ℕ
opening = codes "<![CDATA["

abbrev pub closing : List ℕ
closing = codes "]]>"

abbrev pub cons_key : ℕ → Option (List ℕ × List ℕ) → Option (List ℕ × List ℕ)
cons_key c none = none
cons_key c (some (key, rest)) = some (c ∷ key, rest)

-- An XML reader inside a CDATA section: the text of this section and of those that follow it
-- directly, and the rest. It gives up after so many steps, or at the end of the input.
unfoldable pub read_cdata : ℕ → List ℕ → Option (List ℕ × List ℕ)
read_cdata zero s = none
read_cdata (suc n) [] = none
read_cdata (suc n) (c ∷ s) = elim (strip_prefix closing (c ∷ s)) [
  | none ↦ cons_key c (read_cdata n s)
  | some rest ↦ elim (strip_prefix opening rest) [
    | none ↦ some ([], rest)
    | some more ↦ read_cdata n more
  ]
]

-- What the text after the key must not be: one more section.
abbrev pub IsOutside : List ℕ → Type 0
IsOutside rest = strip_prefix opening rest ≡ none

module _ (a b c : ℕ) (s : List ℕ) where
  escape_cdata_end :
      is_terminator a b c ≡ true
      → escape_cdata (a ∷ b ∷ c ∷ s) ≡ codes "]]]]><![CDATA[>" ++ escape_cdata s
  unfolding escape_cdata
  escape_cdata_end h = rw (h, escape_cdata) refl

  escape_cdata_go :
      is_terminator a b c ≡ false → escape_cdata (a ∷ b ∷ c ∷ s) ≡ a ∷ escape_cdata (b ∷ c ∷ s)
  unfolding escape_cdata
  escape_cdata_go h = rw (h, escape_cdata) refl

  extra_cdata_end : is_terminator a b c ≡ true → extra_cdata (a ∷ b ∷ c ∷ s) ≡ 12 + extra_cdata s
  unfolding extra_cdata
  extra_cdata_end h = rw (h, extra_cdata) refl

  extra_cdata_go :
      is_terminator a b c ≡ false → extra_cdata (a ∷ b ∷ c ∷ s) ≡ extra_cdata (b ∷ c ∷ s)
  unfolding extra_cdata
  extra_cdata_go h = rw (h, extra_cdata) refl

pub length-escape_cdata : (key : List ℕ) → length (escape_cdata key) ≡ length key + extra_cdata key
unfolding escape_cdata extra_cdata
length-escape_cdata [] = refl
length-escape_cdata (a ∷ []) = refl
length-escape_cdata (a ∷ b ∷ []) = refl
length-escape_cdata (a ∷ b ∷ c ∷ s) = elim (Bool-cases (is_terminator a b c)) [
  | inl h ↦
      rw (escape_cdata_end a b c s h, extra_cdata_end a b c s h)
        (omega (arith, length-escape_cdata s))
  | inr h ↦
      rw (escape_cdata_go a b c s h, extra_cdata_go a b c s h)
        (omega (arith, length-escape_cdata (b ∷ c ∷ s)))
]

pub extra_cdata-le : (key : List ℕ) → extra_cdata key ≤ 4 * length key
unfolding extra_cdata
extra_cdata-le [] = omega arith
extra_cdata-le (a ∷ []) = omega arith
extra_cdata-le (a ∷ b ∷ []) = omega arith
extra_cdata-le (a ∷ b ∷ c ∷ s) = elim (Bool-cases (is_terminator a b c)) [
  | inl h ↦ rw (extra_cdata_end a b c s h) (omega (arith, extra_cdata-le s))
  | inr h ↦ rw (extra_cdata_go a b c s h) (omega (arith, extra_cdata-le (b ∷ c ∷ s)))
]

-- The reader at a byte that does not begin the end of a section.
read_go :
    (n c : ℕ) (s : List ℕ)
    → strip_prefix closing (c ∷ s) ≡ none
    → read_cdata (suc n) (c ∷ s) ≡ cons_key c (read_cdata n s)
unfolding read_cdata
read_go n c s h = rw (h, read_cdata) refl

-- The reader at a terminator that is written as two sections.
read_split :
    (n : ℕ) (s : List ℕ)
    → read_cdata (suc (suc (suc (suc n)))) (codes "]]]]><![CDATA[>" ++ s)
      ≡ cons_key b']' (cons_key b']' (read_cdata (suc n) (b'>' ∷ s)))
unfolding read_cdata strip_prefix
read_split n s = refl

read_gt : (n : ℕ) (s : List ℕ) → read_cdata (suc n) (b'>' ∷ s) ≡ cons_key b'>' (read_cdata n s)
unfolding read_cdata strip_prefix
read_gt n s = refl

-- Three bytes that are no terminator.
not_closing :
    (a b c : ℕ) (s : List ℕ)
    → is_terminator a b c ≡ false
    → strip_prefix closing (a ∷ b ∷ c ∷ s) ≡ none
unfolding strip_prefix is_terminator
not_closing a b c s h = ground arith

-- The reader at the end of a section that no other follows.
read_close :
    (n : ℕ) (rest : List ℕ)
    → IsOutside rest
    → read_cdata (suc n) (closing ++ rest) ≡ some ([], rest)
unfolding read_cdata strip_prefix
read_close n rest h = rw (h, read_cdata) refl

not_terminator : (a b : ℕ) → is_terminator a b b']' ≡ false
unfolding is_terminator
not_terminator a b = ground arith

terminator_bytes : (a b c : ℕ) → is_terminator a b c ≡ true → (a ≡ b']') × (b ≡ b']') × (c ≡ b'>')
unfolding is_terminator
terminator_bytes a b c h = ground arith

escape_cdata_one : (c : ℕ) (s : List ℕ) → (tail : List ℕ) × (escape_cdata (c ∷ s) ≡ c ∷ tail)
unfolding escape_cdata
escape_cdata_one c [] = ([], refl)
escape_cdata_one c (d ∷ []) = (d ∷ [], refl)
escape_cdata_one c (d ∷ e ∷ s) = elim (Bool-cases (is_terminator c d e)) [
  | inl h ↦
      let (e1, e2, e3) = terminator_bytes c d e h in
      (
        _,
        escape_cdata_end c d e s h
            ∙ ap (λ x. x ∷ drop 1 (codes "]]]]><![CDATA[>") ++ escape_cdata s) (sym e1),
      )
  | inr h ↦ (_, escape_cdata_go c d e s h)
]

escape_cdata_two :
    (b c : ℕ) (s : List ℕ) → (tail : List ℕ) × (escape_cdata (b ∷ c ∷ s) ≡ b ∷ c ∷ tail)
unfolding escape_cdata
escape_cdata_two b c [] = ([], refl)
escape_cdata_two b c (d ∷ s) = elim (Bool-cases (is_terminator b c d)) [
  | inl h ↦
      let (e1, e2, e3) = terminator_bytes b c d h in
      (
        _,
        escape_cdata_end b c d s h
            ∙ ap (λ x. x ∷ b']' ∷ drop 2 (codes "]]]]><![CDATA[>") ++ escape_cdata s) (sym e1)
            ∙ ap (λ x. b ∷ x ∷ drop 2 (codes "]]]]><![CDATA[>") ++ escape_cdata s) (sym e2),
      )
  | inr h ↦
      let (tail, e) = escape_cdata_one c (d ∷ s) in (tail, escape_cdata_go b c d s h ∙ ap (◌∷◌ b) e)
]

module _ (rest : List ℕ) (outside : IsOutside rest) where
  going :
      (a b c : ℕ) (s : List ℕ)
      → is_terminator a b c ≡ false
      → strip_prefix closing (a ∷ (escape_cdata (b ∷ c ∷ s) ++ closing ++ rest)) ≡ none
  going a b c s h =
      let (tail, e) = escape_cdata_two b c s in rw e (not_closing a b c (tail ++ closing ++ rest) h)

  read_escaped :
      (n : ℕ) (key : List ℕ)
      → length (escape_cdata key) < n
      → read_cdata n (escape_cdata key ++ closing ++ rest) ≡ some (key, rest)
  unfolding escape_cdata
  read_escaped zero key h = absurd (omega arith)
  read_escaped (suc n) [] h = read_close n rest outside
  read_escaped (suc n) (a ∷ []) h =
      read_go n a (closing ++ rest) (not_closing a b']' b']' _ (not_terminator a b']'))
      ∙ ap (cons_key a) (read_escaped n [] (omega arith))
  read_escaped (suc n) (a ∷ b ∷ []) h =
      read_go n a (b ∷ closing ++ rest) (not_closing a b b']' _ (not_terminator a b))
      ∙ ap (cons_key a) (read_escaped n (b ∷ []) (omega arith))
  read_escaped (suc n) (a ∷ b ∷ c ∷ s) h = elim (Bool-cases (is_terminator a b c)) [
    | inl t ↦
        let (ea, eb, ec) = terminator_bytes a b c t in
        let size = ap (λ x. length x) (escape_cdata_end a b c s t) in
        let eq : suc n ≡ suc (suc (suc (suc (n - 3)))) = omega arith in
        rw (escape_cdata_end a b c s t, eq)
          (read_split (n - 3) (escape_cdata s ++ closing ++ rest)
            ∙ ap (λ x. cons_key b']' (cons_key b']' x))
                (read_gt (n - 3) (escape_cdata s ++ closing ++ rest)
                  ∙ ap (cons_key b'>') (read_escaped (n - 3) s (omega arith)))
            ∙ rw (ea, eb, ec) refl)
    | inr t ↦
        let size = ap (λ x. length x) (escape_cdata_go a b c s t) in
        rw (escape_cdata_go a b c s t) (
          read_go n a (escape_cdata (b ∷ c ∷ s) ++ closing ++ rest) (going a b c s t)
          ∙ ap (cons_key a) (read_escaped n (b ∷ c ∷ s) (omega arith)))
  ]

-- A reader with as many steps as the input has bytes.
abbrev read_normal : List ℕ → Option (List ℕ × List ℕ)
read_normal s = read_cdata (length s) s

read_normal-escape_cdata :
    (key rest : List ℕ)
    → IsOutside rest
    → read_normal (escape_cdata key ++ closing ++ rest) ≡ some (key, rest)
read_normal-escape_cdata key rest outside =
    let size = length-append (escape_cdata key ++ closing) rest in
    read_escaped rest outside _ key (omega (arith, size, length-append (escape_cdata key) closing))

abbrev is_feed : List ℕ → Bool
is_feed [] = false
is_feed (c ∷ s) = c == 10

-- The ends of lines, as an XML reader normalises them first: a carriage return and a line feed, or a
-- carriage return alone, become a line feed.
unfoldable pub line_ends : List ℕ → List ℕ
line_ends [] = []
line_ends (c ∷ s) =
    if not (c == 13) then c ∷ line_ends s else if is_feed s then line_ends s else 10 ∷ line_ends s

-- A reader of XML that stands in a CDATA section.
abbrev pub read_section : List ℕ → Option (List ℕ × List ℕ)
read_section s = read_normal (line_ends s)

-- No byte is a carriage return.
abbrev pub HasNoReturn : List ℕ → Type 0
HasNoReturn key = All (λ c. c ≢ 13) key

line_ends-plain : (c : ℕ) (s : List ℕ) → c ≢ 13 → line_ends (c ∷ s) ≡ c ∷ line_ends s
unfolding line_ends
line_ends-plain c s h = ground (arith, h)

line_ends-escape_cdata :
    (key s : List ℕ)
    → HasNoReturn key
    → line_ends (escape_cdata key ++ s) ≡ escape_cdata key ++ line_ends s
unfolding escape_cdata line_ends
line_ends-escape_cdata [] s h = refl
line_ends-escape_cdata (a ∷ []) s (na, _) = line_ends-plain a s na
line_ends-escape_cdata (a ∷ b ∷ []) s (na, (nb, _)) =
    line_ends-plain a (b ∷ s) na ∙ ap (◌∷◌ a) (line_ends-plain b s nb)
line_ends-escape_cdata (a ∷ b ∷ c ∷ k) s (na, (nb, (nc, h))) =
    elim (Bool-cases (is_terminator a b c)) [
      | inl t ↦
          rw (escape_cdata_end a b c k t)
            (ap (λ x. codes "]]]]><![CDATA[>" ++ x) (line_ends-escape_cdata k s h))
      | inr t ↦ rw (escape_cdata_go a b c k t) (
          line_ends-plain a (escape_cdata (b ∷ c ∷ k) ++ s) na
          ∙ ap (◌∷◌ a) (line_ends-escape_cdata (b ∷ c ∷ k) s (nb, (nc, h))))
    ]

line_ends-closing : (rest : List ℕ) → line_ends (closing ++ rest) ≡ closing ++ line_ends rest
line_ends-closing rest =
    line_ends-plain b']' (b']' ∷ b'>' ∷ rest) (omega arith)
    ∙ ap (◌∷◌ b']') (
        line_ends-plain b']' (b'>' ∷ rest) (omega arith)
        ∙ ap (◌∷◌ b']') (line_ends-plain b'>' rest (omega arith)))

pub read_section-escape_cdata :
    (key rest : List ℕ)
    → HasNoReturn key
    → IsOutside (line_ends rest)
    → read_section (escape_cdata key ++ closing ++ rest) ≡ some (key, line_ends rest)
unfolding line_ends
read_section-escape_cdata key rest plain h =
    let apart : (more : List ℕ)
        → escape_cdata key ++ closing ++ more ≡ escape_cdata key ++ (closing ++ more) =
      λ more. simp append_assoc in
    ap read_section (apart rest)
    ∙ ap read_normal (
        line_ends-escape_cdata key (closing ++ rest) plain
        ∙ ap (λ x. escape_cdata key ++ x) (line_ends-closing rest)
        ∙ sym (apart (line_ends rest)))
    ∙ read_normal-escape_cdata key (line_ends rest) h
