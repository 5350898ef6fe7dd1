-- ===== src/Generation/Key/RoundTrip.antt =====
-- A printed key is read back as what it was made of.
use native.Mathlib.Nat.{pow-suc}
use mathlib.Core.List.{map-append}
use ngx_cache_purge.Prelude.{
  ℕ, zero, suc, ◌+◌, ◌*◌, ◌/◌, ◌%◌, ◌^◌, ◌<◌, ◌≡◌, refl, ap, ◌∙◌, true, false, List, [], ◌∷◌, ◌++◌,
  map, some, inl, inr, Option-cases, length, take, drop, take-append_eq, drop-append, take-append,
  drop-append_eq, drop-add, length-append, length-map, ltb, bytes_eq_refl, u64, arith,
}
use ngx_cache_purge.Ngx.{Text, TextLaws, digits16}
use ngx_cache_purge.Generation.Key.{
  Decoded, marker, byte_at, all_digits, read_generation, decode_epoch, decode, encode,
}

length-digits16 : (n g : ℕ) → length (digits16 n g) ≡ n
length-digits16 zero g = refl
length-digits16 (suc n) g =
    omega (arith, length-append (digits16 n (g / 16)) (g % 16 ∷ []), length-digits16 n (g / 16))

div_bound : (n g : ℕ) → g < 16 ^ suc n → g / 16 < 16 ^ n
div_bound n g h = let h' : g < 16 ^ n * 16 = rw pow-suc at h in omega arith

module _ (text : Text) (laws : TextLaws text) where
  open laws use {digit, print_hex_digits, hextoi-digit}

  read_generation-append :
      (xs ys : List ℕ) (acc m : ℕ)
      → read_generation text xs acc ≡ some m
      → read_generation text (xs ++ ys) acc ≡ read_generation text ys m
  unfolding read_generation
  read_generation-append [] ys acc m h = ground arith
  read_generation-append (x ∷ xs) ys acc m h = elim (Option-cases (text.hextoi x)) [
    | inl e ↦ ground arith
    | inr (d, e) ↦
        rw (e, read_generation) (read_generation-append xs ys (acc * 16 % u64 + d) m (ground arith))
  ]

  map-digits16 :
      (n g : ℕ)
      → map digit (digits16 (suc n) g) ≡ map digit (digits16 n (g / 16)) ++ digit (g % 16) ∷ []
  map-digits16 n g = map-append digit (digits16 n (g / 16)) (g % 16 ∷ [])

  read_generation-one :
      (acc d : ℕ) → d < 16 → read_generation text (digit d ∷ []) acc ≡ some (acc * 16 % u64 + d)
  unfolding read_generation
  read_generation-one acc d h = rw (hextoi-digit d h, read_generation)

  read_generation-digits :
      (n g : ℕ) → g < 16 ^ n → g < u64 → read_generation text (map digit (digits16 n g)) 0 ≡ some g
  unfolding read_generation
  read_generation-digits zero g h lt = ground arith
  read_generation-digits (suc n) g h lt = rw map-digits16 (
      read_generation-append (map digit (digits16 n (g / 16))) (digit (g % 16) ∷ []) 0 (g / 16)
        (read_generation-digits n (g / 16) (div_bound n g h) (omega arith))
      ∙ (read_generation-one (g / 16) (g % 16) (omega arith) ∙ ap some (omega arith)))

  print_hex-reads :
      (g : ℕ)
      → g < u64
      → (length (text.print_hex g) ≡ 16) × (read_generation text (text.print_hex g) 0 ≡ some g)
  print_hex-reads g lt =
      rw (print_hex_digits g lt)
        (length-map digit (digits16 16 g) ∙ length-digits16 16 g, read_generation-digits 16 g lt lt)

  decode_epoch_parts :
      (key epoch : List ℕ) (g : ℕ) (logical : List ℕ)
      → (byte_at 10 key ≡ b':') × (byte_at 27 key ≡ b':')
      → (take 10 key ≡ epoch) × (drop 28 key ≡ logical)
      → all_digits epoch ≡ true
      → read_generation text (take 16 (drop 11 key)) 0 ≡ some g
      → decode_epoch text key ≡ some (record { epoch = epoch; generation = g; logical = logical })
  unfolding decode_epoch
  decode_epoch_parts key epoch g logical colons parts digits reads = ground arith

  decode_epoch-append :
      (epoch : List ℕ) (g : ℕ) (logical : List ℕ)
      → length epoch ≡ 10
      → all_digits epoch ≡ true
      → g < u64
      → decode_epoch text (epoch ++ (b':' ∷ (text.print_hex g ++ (b':' ∷ logical))))
        ≡ some (record { epoch = epoch; generation = g; logical = logical })
  unfolding byte_at
  decode_epoch-append epoch g logical len digits lt =
      let hex = text.print_hex g in
      let rest = b':' ∷ (hex ++ (b':' ∷ logical)) in
      let reads = print_hex-reads g lt in
      let after =
        λ (n : ℕ). drop-add 10 n (epoch ++ rest) ∙ ap (drop n) (drop-append_eq 10 epoch rest len) in
      let last = drop-append_eq 16 hex (b':' ∷ logical) reads.0 in
      decode_epoch_parts (epoch ++ rest) epoch g logical
        (rw (after 0, byte_at) refl, rw (after 17, last, byte_at) refl)
        (
          take-append_eq 10 epoch rest len,
          drop-add 27 1 (epoch ++ rest) ∙ ap (drop 1) (after 17 ∙ last),
        )
        digits (rw (after 1, take-append_eq 16 hex (b':' ∷ logical) reads.0) reads.1)

  decode_parts :
      (name key rest : List ℕ) (d : Decoded)
      → ltb (length key) (3 + length name + 1 + 10 + 1 + 16 + 1) ≡ false
      → (take 3 key ≡ marker) × (take (length name) (drop 3 key) ≡ name)
      → byte_at (3 + length name) key ≡ b':'
      → drop (3 + length name + 1) key ≡ rest
      → decode_epoch text rest ≡ some d
      → decode text name key ≡ some d
  unfolding decode
  decode_parts name key rest d long parts colon behind decoded =
      rw (long, parts.0, bytes_eq_refl marker, parts.1, bytes_eq_refl name, colon, behind) decoded

  -- A key printed for a namespace is decoded as its epoch, its generation and its logical key.
  pub decode-encode :
      (name epoch : List ℕ) (g : ℕ) (logical : List ℕ)
      → length epoch ≡ 10
      → all_digits epoch ≡ true
      → g < u64
      → decode text name (encode text name epoch g logical)
        ≡ some (record { epoch = epoch; generation = g; logical = logical })
  unfolding encode byte_at
  decode-encode name epoch g logical len digits lt =
      let hex = text.print_hex g in
      let tail = hex ++ (b':' ∷ logical) in
      let rest = epoch ++ (b':' ∷ tail) in
      let key = marker ++ (name ++ (b':' ∷ rest)) in
      let colon = drop-add 3 (length name) key ∙ drop-append name (b':' ∷ rest) in
      decode_parts name key rest _
        (ground (
          arith,
          length-append name (b':' ∷ rest),
          length-append epoch (b':' ∷ tail),
          length-append hex (b':' ∷ logical),
          (print_hex-reads g lt).0,
          len,
        ))
        (refl, take-append name (b':' ∷ rest)) (rw (colon, byte_at) refl)
        (drop-add (3 + length name) 1 key ∙ ap (drop 1) colon)
        (decode_epoch-append epoch g logical len digits lt)
