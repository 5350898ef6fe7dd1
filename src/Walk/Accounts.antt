-- ===== src/Walk/Accounts.antt =====
-- The size of the native cache and the files of its nodes.
use ngx_cache_purge.Prelude.{
  ℕ, ◌+◌, ◌≤◌, ◌<◌, ◌≡◌, refl, Bool, false, List, ltb, if◌then◌else◌, u64, arith,
}
use ngx_cache_purge.Walk.Tree.{
  Node, Tree, sentinel, branch, less, same, more, memcmp, clear, descend,
}

-- The sizes of the files that the nodes of a tree have.
abbrev pub total : Tree → ℕ
total sentinel = 0
total (branch n l r) = (if n.exists then n.fs_size else 0) + total l + total r

-- Whether the search for a hash ends at a node with a file.
unfoldable pub has_file : ℕ → List ℕ → Tree → Bool
has_file key rest sentinel = false
has_file key rest (branch n l r) =
    let left = has_file key rest l in
    let right = has_file key rest r in
    if ltb key n.key
    then left
    else if ltb n.key key
    then right
    else elim (memcmp rest n.rest) [ less ↦ left | more ↦ right | same ↦ n.exists ]

clear-total :
    (n : Node) (size : ℕ)
    → (if n.exists then n.fs_size else 0) ≤ size
    → size < u64
    → (clear n size).1 + (if n.exists then n.fs_size else 0)
      ≡ size + (if (clear n size).0.exists then (clear n size).0.fs_size else 0)
unfolding clear
clear-total n size h lt = ground arith

clear-exists : (n : Node) (size : ℕ) → (clear n size).0.exists ≡ false
unfolding clear
clear-exists n size = ground arith

clear-same :
    (n : Node) (size : ℕ) → ((clear n size).0.key ≡ n.key) × ((clear n size).0.rest ≡ n.rest)
unfolding clear
clear-same n size = ground arith

-- What the cache loses in size is what its nodes lose in files.
pub descend-total :
    (key : ℕ) (rest : List ℕ) (t : Tree) (size : ℕ)
    → total t ≤ size
    → size < u64
    → (descend key rest t size).1 + total t ≡ size + total (descend key rest t size).0
unfolding descend
descend-total key rest sentinel size h lt = omega arith
descend-total key rest (branch n l r) size h lt = ground (
  arith,
  clear-total n size (omega (arith, h)) lt,
  descend-total key rest l size (omega (arith, h)) lt,
  descend-total key rest r size (omega (arith, h)) lt,
)

-- Afterwards the search for the hash finds no file.
pub has_file-descend :
    (key : ℕ) (rest : List ℕ) (t : Tree) (size : ℕ)
    → has_file key rest (descend key rest t size).0 ≡ false
unfolding descend has_file
has_file-descend key rest sentinel size = refl
has_file-descend key rest (branch n l r) size = ground (
  arith,
  clear-exists n size,
  clear-same n size,
  has_file-descend key rest l size,
  has_file-descend key rest r size,
)
