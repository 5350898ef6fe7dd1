-- ===== src/Generation/Key.antt =====
-- The encoded cache key `p4:<namespace>:<epoch>:<generation>:<logical key>`: how
-- `ngx_http_cache_purge_generation_key` prints it, and `ngx_http_cache_purge_generation_decode`.
pub mod RoundTrip
use ngx_cache_purge.Prelude.{
  ℕ, ◌+◌, ◌*◌, ◌%◌, Bool, true, false, ◌&&◌, ◌||◌, not, List, [], ◌∷◌, ◌++◌, Option, none, some,
  ltb, leb, ◌==◌, if◌then◌else◌, length, take, drop, bytes_eq, u64,
}
use ngx_cache_purge.Ngx.{Text}

-- What a successful decoding hands back.
pub record Decoded : Type 0 where
  pub epoch : List ℕ
  pub generation : ℕ
  pub logical : List ℕ

-- `"p4:"`.
abbrev pub marker : List ℕ
marker = b'p' ∷ b'4' ∷ b':' ∷ []

-- A byte of a string; the callers have checked its length.
unfoldable pub byte_at : ℕ → List ℕ → ℕ
byte_at i s = elim (drop i s) [ [] ↦ 0 | c ∷ _ ↦ c ]

unfoldable pub is_digit : ℕ → Bool
is_digit c = leb b'0' c && leb c b'9'

unfoldable pub all_digits : List ℕ → Bool
unfolding is_digit
all_digits [] = true
all_digits (c ∷ s) = is_digit c && all_digits s

module _ (text : Text) where
  -- `generation = (generation << 4) | digit` for each character; the shift drops the bits above
  -- 64, and its low four bits are free for the digit.
  unfoldable pub read_generation : List ℕ → ℕ → Option ℕ
  read_generation [] generation = some generation
  read_generation (c ∷ s) generation = elim (text.hextoi c) [
    | none ↦ none
    | some digit ↦ read_generation s (generation * 16 % u64 + digit)
  ]

  -- The part of the decoding behind the namespace, `key` being the rest from the epoch on.
  unfoldable pub decode_epoch : List ℕ → Option Decoded
  decode_epoch key =
      if not (byte_at 10 key == b':') || not (byte_at 27 key == b':')
      then none
      else if not (all_digits (take 10 key))
      then none
      else elim (read_generation (take 16 (drop 11 key)) 0) [
        | none ↦ none
        | some generation ↦
            some (record { epoch = take 10 key; generation = generation; logical = drop 28 key })
      ]

  unfoldable pub decode : List ℕ → List ℕ → Option Decoded
  decode name key =
      if ltb (length key) (3 + length name + 1 + 10 + 1 + 16 + 1)
        || not (bytes_eq (take 3 key) marker)
        || not (bytes_eq (take (length name) (drop 3 key)) name)
        || not (byte_at (3 + length name) key == b':')
      then none
      else decode_epoch (drop (3 + length name + 1) key)

  -- `ngx_sprintf("p4:%V:%*s:%016xL:", …)`, followed by the logical key.
  unfoldable pub encode : List ℕ → List ℕ → ℕ → List ℕ → List ℕ
  encode name epoch generation logical =
      marker
      ++ (name ++ (b':' ∷ (epoch ++ (b':' ∷ (text.print_hex generation ++ (b':' ∷ logical))))))
