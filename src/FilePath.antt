-- ===== src/FilePath.antt =====
-- Comparison of directory names: ngx_cache_purge_posix.h and the inline functions of
-- ngx_cache_purge.h. `caseless` is `NGX_HAVE_CASELESS_FILESYSTEM`.
use ngx_cache_purge.Prelude.{
  ℕ, zero, suc, ◌-◌, Bool, true, false, ◌&&◌, ◌||◌, not, List, [], ◌∷◌, ltb, ◌==◌, if◌then◌else◌,
  length, drop,
}
use ngx_cache_purge.Ngx.{Text}

abbrev pub path_separator : ℕ → Bool
path_separator c = c == b'/'

abbrev pub path_min_length : ℕ
path_min_length = 1

-- The byte of a name at an index below its length.
unfoldable pub char_at : List ℕ → ℕ → ℕ
char_at s i = elim (drop i s) [ [] ↦ 0 | c ∷ _ ↦ c ]

-- `while (len > min && separator(path->data[len - 1])) len--`.
unfoldable pub trim_length : List ℕ → ℕ → ℕ
trim_length path zero = zero
trim_length path (suc len) =
    let shorter = trim_length path len in
    if ltb path_min_length (suc len) && path_separator (char_at path len) then shorter else suc len

unfoldable pub path_length : List ℕ → ℕ
unfolding trim_length char_at
path_length path = trim_length path (length path)

module _ (text : Text) (caseless : Bool) where
  abbrev pub path_char : ℕ → ℕ
  path_char c = if caseless then text.tolower c else c

  -- The first `len` bytes of two names; the callers have checked that both are as long.
  unfoldable pub path_equal : List ℕ → List ℕ → ℕ → Bool
  path_equal a b zero = true
  path_equal [] b (suc len) = false
  path_equal (x ∷ a) [] (suc len) = false
  path_equal (x ∷ a) (y ∷ b) (suc len) = path_char x == path_char y && path_equal a b len

  -- `root` names `path` or a directory above it.
  unfoldable pub path_contains : List ℕ → List ℕ → Bool
  unfolding path_equal path_length char_at
  path_contains path root =
      let len = path_length root in
      if len == 0 || ltb (length path) len || not (path_equal path root len)
      then false
      else length path == len
        || path_separator (char_at root (len - 1))
        || path_separator (char_at path len)
