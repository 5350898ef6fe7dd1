-- ===== src/Config/Apart.antt =====
-- Keys of one namespace are no keys of another.
use ngx_cache_purge.Prelude.{
  ℕ, ◌+◌, ◌≡◌, ◌≢◌, refl, sym, ap, inl, inr, Bool, true, false, ◌&&◌, ◌||◌, not, List, [], ◌∷◌,
  ◌++◌, Option, none, some, ◌==◌, ltb, ◌*◌, length, take, bytes_eq, drop-add, arith, Bool-cases,
  Option-cases,
}
use ngx_cache_purge.Ngx.{Text, declined}
use ngx_cache_purge.Generation.Key.{byte_at, marker, encode, decode}
use ngx_cache_purge.Generation.State.{Generation, stale, current}
use ngx_cache_purge.Config.Zone.{OldZone}
use ngx_cache_purge.Config.Namespaces.{
  Created, is_name_char, name_max, is_namespace_name, zone_name_of, resizes, create_zone,
  namespace_create,
}

some_inj : {n m : Created} → some n ≡ some m → n ≡ m
some_inj h = cc

-- The test on the namespace of a key, from the namespace on.
abbrev begins_with : List ℕ → List ℕ → Bool
begins_with name key = bytes_eq (take (length name) key) name && byte_at (length name) key == b':'

name_char_colon : (c : ℕ) → is_name_char c ≡ true → (c == b':') ≡ false
unfolding is_name_char
name_char_colon c h = ground (arith, h)

-- A name without a colon is the only one that a text with the name and a colon begins with.
begins_with_other :
    (name other rest : List ℕ)
    → is_namespace_name name ≡ true
    → is_namespace_name other ≡ true
    → begins_with other (name ++ b':' ∷ rest) ≡ true
    → name ≡ other
unfolding is_namespace_name bytes_eq byte_at
begins_with_other [] [] rest h k b = refl
begins_with_other [] (d ∷ other) rest h k b = absurd (ground (arith, h, k, b, name_char_colon d))
begins_with_other (c ∷ name) [] rest h k b = absurd (ground (arith, h, k, b, name_char_colon c))
begins_with_other (c ∷ name) (d ∷ other) rest h k b =
    let ih = begins_with_other name other rest in ground (arith, h, k, b, ih)

byte_at-marker : (n : ℕ) (key : List ℕ) → byte_at (3 + n) (marker ++ key) ≡ byte_at n key
unfolding byte_at
byte_at-marker n key =
    ap (λ (x : List ℕ). elim x [ [] ↦ 0 | c ∷ _ ↦ c ]) (drop-add 3 n (marker ++ key))

decode_other :
    (text : Text) (name other rest : List ℕ)
    → is_namespace_name name ≡ true
    → is_namespace_name other ≡ true
    → name ≢ other
    → decode text other (marker ++ (name ++ b':' ∷ rest)) ≡ none
unfolding decode
decode_other text name other rest h k apart =
    elim (Bool-cases (begins_with other (name ++ b':' ∷ rest))) [
      | inl b ↦ absurd (apart (begins_with_other name other rest h k b))
      | inr b ↦ ground (arith, b, byte_at-marker (length other) (name ++ b':' ∷ rest))
    ]

module _ (pagesize : ℕ) (full_name : List ℕ → Option (List ℕ)) (add_path : List ℕ → Bool)
    (add_zone : List ℕ → ℕ → Option Bool) where
  create_zone-name :
      (room : Bool) (name : List ℕ) (size : ℕ) (path : List ℕ) (zones : List OldZone) (n : Created)
      → create_zone pagesize full_name add_path add_zone room name size path zones ≡ some n
      → n.name ≡ name
  unfolding create_zone
  create_zone-name room name size path zones n h =
      let test = not (add_path path) || not room || resizes (zone_name_of name) size zones in
      elim (Bool-cases test) [
        | inl t ↦ absurd (grind (arith, rw t at h))
        | inr t ↦ elim (Option-cases (add_zone (zone_name_of name) size)) [
          | inl e ↦ absurd (grind (arith, rw (t, e) at h))
          | inr (true, e) ↦ absurd (grind (arith, rw (t, e) at h))
          | inr (false, e) ↦ ap (λ (o : Created). o.name) (sym (some_inj (rw (t, e) at h)))
        ]
      ]

  -- The name of a namespace that is created has no colon.
  namespace_create-name :
      (rooms : Bool × Bool) (name : List ℕ) (size : ℕ) (state_path : List ℕ) (zones : List OldZone)
      (n : Created)
      → namespace_create pagesize full_name add_path add_zone rooms name size state_path zones
        ≡ some n
      → (n.name ≡ name) × (is_namespace_name name ≡ true)
  unfolding namespace_create
  namespace_create-name rooms name size state_path zones n h =
      let bounds = length name == 0 || ltb name_max (length name) || ltb size (8 * pagesize) in
      elim (Bool-cases bounds) [
        | inl t ↦ absurd (grind (arith, rw t at h))
        | inr t ↦ elim (Bool-cases (is_namespace_name name)) [
          | inr no_name ↦ absurd (grind (arith, rw (t, no_name) at h))
          | inl named ↦ elim (Bool-cases rooms.0) [
            | inr full ↦ absurd (grind (arith, rw (t, named, full) at h))
            | inl fits ↦ elim (Option-cases (full_name state_path)) [
              | inl e ↦ absurd (grind (arith, rw (t, named, fits, e) at h))
              | inr (path, e) ↦ (
                create_zone-name rooms.1 name size path zones n (rw (t, named, fits, e) at h),
                named,
              )
            ]
          ]
        ]
      ]

foreign_key :
    (text : Text) (name : List ℕ) (state : Generation) (key : List ℕ)
    → decode text name key ≡ none
    → (stale text name state key ≡ declined) × (current text name state key ≡ declined)
unfolding stale current
foreign_key text name state key h = (ground (arith, h), ground (arith, h))

-- Two namespaces that are created with different names have different keys: a key that one of them
-- prints is no key of the other, which neither finds it current nor lets a walk remove it as stale.
pub namespace_create-apart :
    (text : Text) (pagesize : ℕ) (full_name : List ℕ → Option (List ℕ)) (add_path : List ℕ → Bool)
    (add_zone : List ℕ → ℕ → Option Bool) (zones : List OldZone) (r r' : Bool × Bool) (a b : List ℕ)
    (size size' : ℕ) (p p' : List ℕ) (n m : Created) (state : Generation) (epoch : List ℕ) (g : ℕ)
    (logical : List ℕ)
    → namespace_create pagesize full_name add_path add_zone r a size p zones ≡ some n
    → namespace_create pagesize full_name add_path add_zone r' b size' p' zones ≡ some m
    → n.name ≢ m.name
    → (stale text m.name state (encode text n.name epoch g logical) ≡ declined)
      × (current text m.name state (encode text n.name epoch g logical) ≡ declined)
unfolding encode
namespace_create-apart text pagesize full_name add_path add_zone zones r r' a b size size' p p' n m
      state epoch g logical made made' apart =
    let (same, named) =
      namespace_create-name pagesize full_name add_path add_zone r a size p zones n made in
    let (same', named') =
      namespace_create-name pagesize full_name add_path add_zone r' b size' p' zones m made' in
    let rest = epoch ++ (b':' ∷ (text.print_hex g ++ (b':' ∷ logical))) in
    let foreign = decode_other text n.name m.name rest (rw same named) (rw same' named') apart in
    foreign_key text m.name state _ foreign
