-- ===== src/Walk/Tree.antt =====
-- `ngx_http_cache_purge_invalidate_node`: the entry of the native cache is marked as gone, and its
-- size is taken off the cache's. The tree is nginx's; the search is the module's.
use ngx_cache_purge.Prelude.{
  ℕ, ◌+◌, ◌-◌, ◌*◌, Bool, false, List, [], ◌∷◌, Option, none, some, ltb, ◌==◌, if◌then◌else◌,
  length, take, drop,
}
use ngx_cache_purge.Ngx.{Text}
use ngx_cache_purge.Queue.Clock.{minus64}
use ngx_cache_purge.Walk.Native.{Native}

-- `ngx_http_file_cache_node_t`: the key of the tree, the other bytes of the hash, whether there is
-- a file, and its size.
pub record Node : Type 0 where
  pub key : ℕ
  pub rest : List ℕ
  pub exists : Bool
  pub fs_size : ℕ

pub data Tree : Type 0 where
  sentinel : Tree
  branch : Node → Tree → Tree → Tree

-- `cache->sh`: the tree, and the size of the cache.
pub record Shared : Type 0 where
  pub rbtree : Tree
  pub size : ℕ

-- `ngx_memcmp` of strings of one length.
pub data Comparison : Type 0 where
  less same more : Comparison

unfoldable pub memcmp : List ℕ → List ℕ → Comparison
memcmp [] b = same
memcmp (x ∷ a) [] = same
memcmp (x ∷ a) (y ∷ b) =
    let rest = memcmp a b in if x == y then rest else if ltb x y then less else more

-- The exact match loses its file; `size` is what the cache has then.
unfoldable pub clear : Node → ℕ → Node × ℕ
clear n size =
    if n.exists
    then (record n { fs_size = 0; exists = false }, minus64 size n.fs_size)
    else (n, size)

-- The descent: by the number first, then by the other bytes.
unfoldable pub descend : ℕ → List ℕ → Tree → ℕ → Tree × ℕ
descend key rest sentinel size = (sentinel, size)
descend key rest (branch n l r) size =
    let (l', l_size) = descend key rest l size in
    let (r', r_size) = descend key rest r size in
    if ltb key n.key
    then (branch n l' r, l_size)
    else if ltb n.key key
    then (branch n l r', r_size)
    else elim (memcmp rest n.rest) [
      | less ↦ (branch n l' r, l_size)
      | more ↦ (branch n l r', r_size)
      | same ↦ (let (n', n_size) = clear n size in (branch n' l r, n_size))
    ]

module _ (text : Text) (native : Native) where
  -- Each pair of digits is a byte (`ngx_hextoi` of two).
  unfoldable pub decode_hash : List ℕ → Option (List ℕ)
  decode_hash [] = some []
  decode_hash (c ∷ []) = none
  decode_hash (c ∷ d ∷ s) = elim (text.hextoi c) [
    | none ↦ none
    | some high ↦ elim (text.hextoi d) [
      | none ↦ none
      | some low ↦ elim (decode_hash s) [
        | none ↦ none
        | some hash ↦ some ((high * 16 + low) ∷ hash)
      ]
    ]
  ]

  unfoldable pub invalidate_node : List ℕ → Shared → Shared
  invalidate_node path sh =
      if ltb (length path) 32 then sh else elim (decode_hash (drop (length path - 32) path)) [
        | none ↦ sh
        | some hash ↦
            (let (rbtree, size) =
                descend (native.hash_key (take 8 hash)) (drop 8 hash) sh.rbtree sh.size in
              record { rbtree = rbtree; size = size })
      ]
