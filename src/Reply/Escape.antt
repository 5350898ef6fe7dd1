-- ===== src/Reply/Escape.antt =====
-- The key in a reply: `ngx_http_cache_purge_text_key` and `ngx_http_cache_purge_escape_key`. The
-- escaping of JSON and HTML and the decoding of UTF-8 are nginx's.
use ngx_cache_purge.Prelude.{
  ℕ, zero, suc, ◌+◌, ◌*◌, ◌/◌, ◌^◌, ◌≤◌, ◌<◌, ◌≡◌, Bool, true, false, ◌&&◌, ◌||◌, not, List, [],
  ◌∷◌, ◌++◌, Option, none, some, ltb, leb, ◌==◌, if◌then◌else◌, length, drop, codes,
}

-- `NGX_CACHE_PURGE_RESPONSE_TYPE_*`; `silent` is `NONE`.
pub data ResponseType : Type 0 where
  html xml json text silent : ResponseType

-- `ngx_utf8_decode` gives a character, or a number above the last one, and how many bytes it
-- took; `ngx_escape_json` and `ngx_escape_html` write a text; `ngx_encode_base64` and `%ui` too.
pub record Writer : Type 0 where
  pub utf8_decode : List ℕ → ℕ × ℕ
  pub escape_json : List ℕ → List ℕ
  pub escape_html : List ℕ → List ℕ
  pub encode_base64 : List ℕ → List ℕ
  pub decimal : ℕ → List ℕ

-- A character that neither JSON nor XML 1.0 can hold.
unfoldable pub is_bad_char : ℕ → Bool
is_bad_char c =
    ltb 1114111 c
    || leb 55296 c && leb c 57343
    || c == 65534
    || c == 65535
    || ltb c 32 && not (c == b'\t') && not (c == b'\n') && not (c == b'\r')

module _ (w : Writer) where
  -- The character at the beginning, and how many bytes it takes.
  unfoldable pub next_char : ℕ → List ℕ → ℕ × ℕ
  next_char b s = if ltb b 128 then (b, 1) else w.utf8_decode (b ∷ s)

  -- The loop of `text_key`; `none` when the fuel runs out.
  unfoldable pub text_loop : ℕ → List ℕ → Option Bool
  text_loop fuel [] = some true
  text_loop zero (b ∷ s) = none
  text_loop (suc fuel) (b ∷ s) =
      let (c, taken) = next_char b s in
      let rest = text_loop fuel (drop taken (b ∷ s)) in if is_bad_char c then some false else rest

  unfoldable pub text_key : List ℕ → Option Bool
  text_key key = text_loop (length key) key

-- `]]>`, which ends a CDATA section.
unfoldable pub is_terminator : ℕ → ℕ → ℕ → Bool
is_terminator a b c = a == b']' && b == b']' && c == b'>'

-- The loop of `escape_key` with memory to write to.
unfoldable pub escape_cdata : List ℕ → List ℕ
escape_cdata [] = []
escape_cdata (a ∷ []) = a ∷ []
escape_cdata (a ∷ b ∷ []) = a ∷ b ∷ []
escape_cdata (a ∷ b ∷ c ∷ s) = elim (is_terminator a b c) [
  | true ↦ codes "]]]]><![CDATA[>" ++ escape_cdata s
  | false ↦ a ∷ escape_cdata (b ∷ c ∷ s)
]

-- The same loop where only `extra` is counted.
unfoldable pub extra_cdata : List ℕ → ℕ
extra_cdata [] = 0
extra_cdata (a ∷ []) = 0
extra_cdata (a ∷ b ∷ []) = 0
extra_cdata (a ∷ b ∷ c ∷ s) = elim (is_terminator a b c) [
  | true ↦ 12 + extra_cdata s
  | false ↦ extra_cdata (b ∷ c ∷ s)
]

-- `escape_key` with a place to write to.
unfoldable pub escape_key : Writer → ResponseType → List ℕ → List ℕ
escape_key w t [] = []
escape_key w ResponseType.json (c ∷ key) = w.escape_json (c ∷ key)
escape_key w ResponseType.html (c ∷ key) = w.escape_html (c ∷ key)
escape_key w ResponseType.text (c ∷ key) = c ∷ key
escape_key w ResponseType.xml (c ∷ key) = escape_cdata (c ∷ key)
escape_key w ResponseType.silent (c ∷ key) = escape_cdata (c ∷ key)

-- What is documented of the writers: a character takes at least one byte; a byte takes at most
-- six as an escape of JSON or an entity of HTML; base64 makes four of each three begun; and a
-- number of 64 bits has at most 20 digits.
pub record WriterLaws (w : Writer) : Type 0 where
  pub decode_taken : (s : List ℕ) (c n : ℕ) → w.utf8_decode s ≡ (c, n) → 1 ≤ n
  pub json_length : (s : List ℕ) → length (w.escape_json s) ≤ 6 * length s
  pub html_length : (s : List ℕ) → length (w.escape_html s) ≤ 6 * length s
  pub base64_length : (s : List ℕ) → length (w.encode_base64 s) ≡ (length s + 2) / 3 * 4
  pub decimal_length : (n : ℕ) → n < 2 ^ 64 → length (w.decimal n) ≤ 20
