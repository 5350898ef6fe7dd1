-- ===== src/Walk/Protect.antt =====
-- `ngx_http_cache_purge_is_protected_path` and `ngx_http_cache_purge_is_cache_file`.
use ngx_cache_purge.Prelude.{
  ℕ, ◌-◌, Bool, true, false, ◌&&◌, ◌||◌, not, List, [], ◌∷◌, Option, none, some, ltb, leb, ◌==◌,
  if◌then◌else◌, length, drop,
}
use ngx_cache_purge.Ngx.{Text}
use ngx_cache_purge.FilePath.{path_separator, char_at, path_length, path_contains}

-- `ngx_path_t`: a path with a manager or a loader is a cache, any other a temporary directory.
pub record Configured : Type 0 where
  pub name : List ℕ
  pub managed : Bool

-- The part of `ngx_http_cache_purge_walk_ctx_t` that the protection reads: `none` is a null
-- pointer. `protection` has the names that a task was accepted with.
pub record Scope : Type 0 where
  pub cache_root : Option (List ℕ)
  pub protection : Option (List (List ℕ))
  pub paths : Option (List Configured)

-- The names of the loop: those of the task, or else the paths that are no caches.
unfoldable pub unmanaged : List Configured → List (List ℕ)
unmanaged [] = []
unmanaged (p ∷ paths) = let rest = unmanaged paths in if p.managed then rest else p.name ∷ rest

unfoldable pub protected_names : Scope → List (List ℕ)
protected_names s = elim s.protection [
  | some names ↦ names
  | none ↦ elim s.paths [ none ↦ [] | some paths ↦ unmanaged paths ]
]

module _ (text : Text) (caseless : Bool) where
  -- A name longer than the root, inside it, and at or above the path.
  unfoldable pub blocks : List ℕ → List ℕ → List ℕ → Bool
  blocks root path name =
      ltb (path_length root) (length name)
      && path_contains text caseless name root
      && path_contains text caseless path name

  unfoldable pub any_blocks : List ℕ → List ℕ → List (List ℕ) → Bool
  any_blocks root path [] = false
  any_blocks root path (name ∷ names) = blocks root path name || any_blocks root path names

  unfoldable pub is_protected_path : Scope → Option (List ℕ) → Bool
  is_protected_path s none = true
  is_protected_path s (some path) = elim s.cache_root [
    | none ↦ true
    | some root ↦
        if not (path_contains text caseless path root)
        then true
        else any_blocks root path (protected_names s)
  ]

-- A hexadecimal digit, as the conditions of the loop have it.
unfoldable pub is_hex : ℕ → Bool
is_hex c = leb b'0' c && leb c b'9' || leb b'a' c && leb c b'f' || leb b'A' c && leb c b'F'

unfoldable pub all_hex : List ℕ → Bool
all_hex [] = true
all_hex (c ∷ s) = is_hex c && all_hex s

unfoldable pub is_cache_file : List ℕ → Bool
is_cache_file path =
    let start = length path - 32 in
    if ltb (length path) 32
    then false
    else if not (start == 0) && not (path_separator (char_at path (start - 1)))
    then false
    else all_hex (drop start path)
