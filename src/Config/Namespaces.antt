-- ===== src/Config/Namespaces.antt =====
-- A namespace of the configuration: `ngx_http_cache_purge_namespace_create`
-- (ngx_cache_purge_invalidation.c).
use ngx_cache_purge.Prelude.{
  ℕ, ◌*◌, Bool, true, false, ◌&&◌, ◌||◌, not, List, [], ◌∷◌, ◌++◌, Option, none, some, ltb, leb,
  ◌==◌, if◌then◌else◌, length, bytes_eq, ◌>>=◌,
}
use ngx_cache_purge.Config.Known.{namespace_prefix}
use ngx_cache_purge.Config.Zone.{OldZone}

pub record Created : Type 0 where
  pub name : List ℕ
  pub state_path : List ℕ
  pub zone_name : List ℕ

-- An ASCII letter, a digit, `_` or `-`.
unfoldable pub is_name_char : ℕ → Bool
is_name_char c =
    leb b'a' c && leb c b'z'
    || leb b'A' c && leb c b'Z'
    || leb b'0' c && leb c b'9'
    || c == b'_'
    || c == b'-'

unfoldable pub is_namespace_name : List ℕ → Bool
is_namespace_name [] = true
is_namespace_name (c ∷ name) = is_name_char c && is_namespace_name name

abbrev pub name_max : ℕ
name_max = 32

abbrev pub zone_name_of : List ℕ → List ℕ
zone_name_of name = namespace_prefix ++ name

-- The loop over the zones of the cycle before.
unfoldable pub resizes : List ℕ → ℕ → List OldZone → Bool
resizes zone_name size [] = false
resizes zone_name size (z ∷ zones) =
    z.is_own && bytes_eq z.name zone_name && not (z.size == size) || resizes zone_name size zones

-- `full_name` makes a name absolute, `add_path` registers a path, and `add_zone` gives a zone of a
-- name and says whether it has a namespace already. The two `rooms` say whether there is memory
-- before and after the path is registered.
module _ (pagesize : ℕ) (full_name : List ℕ → Option (List ℕ)) (add_path : List ℕ → Bool)
    (add_zone : List ℕ → ℕ → Option Bool) where
  -- The part behind the checks of the arguments; `none` is an error.
  unfoldable pub create_zone : Bool → List ℕ → ℕ → List ℕ → List OldZone → Option Created
  create_zone room name size path zones =
      if not (add_path path) || not room || resizes (zone_name_of name) size zones
      then none
      else (add_zone (zone_name_of name) size >>= λ is_taken.
          if is_taken
          then none
          else some (record { name = name; state_path = path; zone_name = zone_name_of name }))

  unfoldable pub namespace_create :
      Bool × Bool → List ℕ → ℕ → List ℕ → List OldZone → Option Created
  namespace_create rooms name size state_path zones =
      if length name == 0 || ltb name_max (length name) || ltb size (8 * pagesize)
      then none
      else if not (is_namespace_name name)
      then none
      else if not rooms.0
      then none
      else (full_name state_path >>= λ path. create_zone rooms.1 name size path zones)
