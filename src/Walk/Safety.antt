-- ===== src/Walk/Safety.antt =====
-- What the walk may remove, what the reader of keys accepts, and what the removal does to the
-- accounts of the native cache.
use ngx_cache_purge.Prelude.{
  ℕ, ◌+◌, ◌≤◌, ◌<◌, ◌≡◌, ◌≢◌, ◌↔◌, refl, ◌⊎◌, inl, inr, Bool, true, false, not, List, [], ◌∷◌, none,
  some, ◌==◌, if◌then◌else◌, length, u64, Option, take, sym, ◌∙◌, eq_of_bytes_eq, arith, Bool-cases,
  Option-cases,
}
use ngx_cache_purge.Ngx.{Text, ok}
use ngx_cache_purge.Generation.State.{stale}
use ngx_cache_purge.Walk.Tree.{Shared}
use ngx_cache_purge.FilePath.{path_contains, path_length, char_at}
use ngx_cache_purge.Queue.Counts.{All}
use ngx_cache_purge.Queue.State.{saturate}
use ngx_cache_purge.Walk.Native.{Header, Native, File, Disk, missing, other, Opened, opened}
use ngx_cache_purge.Walk.Protect.{
  Scope, is_protected_path, protected_names, blocks, any_blocks, is_cache_file,
}
use ngx_cache_purge.Walk.Key.{
  Entry, KeyRead, got, read_key, read_opened, read_header, read_marker, read_buffer, header_fits,
  entry_key_max,
}
use ngx_cache_purge.Walk.Delete.{
  Context, Judge, unlink, count_removal, remove_file, may_go, key_matches, judge_entry, wanted,
  is_out_of_scope, delete_file,
}

true-false : true ≡ false → ⊥
true-false h = cc

module _ (text : Text) (caseless : Bool) where
  -- A name strictly inside the root that is at or above the path.
  abbrev pub Blocks : List ℕ → List ℕ → List ℕ → Type 0
  Blocks root path name =
      (path_length root < length name)
      × (path_contains text caseless name root ≡ true)
      × (path_contains text caseless path name ≡ true)

  blocks-Blocks :
      (root path name : List ℕ) → blocks text caseless root path name ≡ true → Blocks root path name
  unfolding blocks
  blocks-Blocks root path name h = (ground (arith, h), ground (arith, h), ground (arith, h))

  Blocks_lem :
      (root path name : List ℕ) → Blocks root path name → blocks text caseless root path name ≡ true
  unfolding blocks
  Blocks_lem root path name (a, b, c) = ground (arith, a, b, c)

  blocks_iff :
      (root path name : List ℕ)
      → (blocks text caseless root path name ≡ false) ↔ (¬ Blocks root path name)
  blocks_iff root path name = (
    λ no b. true-false (sym (Blocks_lem root path name b) ∙ no),
    λ no. elim (Bool-cases (blocks text caseless root path name)) [
      | inl e ↦ absurd (no (blocks-Blocks root path name e))
      | inr e ↦ e
    ],
  )

  any_blocks_iff :
      (root path : List ℕ) (names : List (List ℕ))
      → (any_blocks text caseless root path names ≡ false)
        ↔ All (λ name. ¬ Blocks root path name) names
  unfolding any_blocks
  any_blocks_iff root path [] = (λ _. tt, λ _. refl)
  any_blocks_iff root path (name ∷ names) =
      let first = blocks_iff root path name in
      let rest = any_blocks_iff root path names in
      (
        λ h. (first.0 (ground (arith, h)), rest.0 (ground (arith, h))),
        λ h. (let no = first.1 h.0 in let none' = rest.1 h.1 in ground (arith, no, none')),
      )

  -- With a cache root, a path is not protected exactly when it lies in the root and no protected
  -- name, longer than the root without its trailing separators, lies in the root and is at or above
  -- the path.
  pub is_protected_path_iff :
      (s : Scope) (root path : List ℕ)
      → s.cache_root ≡ some root
      → (is_protected_path text caseless s (some path) ≡ false) ↔ (
          (path_contains text caseless path root ≡ true)
          × All (λ name. ¬ Blocks root path name) (protected_names s))
  unfolding is_protected_path protected_names
  is_protected_path_iff s root path e =
      let opens : is_protected_path text caseless s (some path) ≡ (
          if not (path_contains text caseless path root)
          then true
          else any_blocks text caseless root path (protected_names s)) =
        rw (e, is_protected_path) refl in
      let names = any_blocks_iff root path (protected_names s) in
      elim (Bool-cases (path_contains text caseless path root)) [
        | inl inside ↦ rw (opens, inside) ((λ b. (refl, names.0 b)), λ p. names.1 p.1)
        | inr outside ↦ rw (opens, outside) ((λ b. cc), λ p. cc)
      ]

KeyRead-cases :
    (k : KeyRead) → ((e : Entry) × (k ≡ got e)) ⊎ ((k ≡ KeyRead.declined) ⊎ (k ≡ KeyRead.error))
KeyRead-cases (got e) = inl (e, refl)
KeyRead-cases KeyRead.declined = inr (inl refl)
KeyRead-cases KeyRead.error = inr (inr refl)

-- The counters of a walk are 64-bit numbers.
pub record IsBounded (ctx : Context) : Type 0 where
  pub files_deleted_lt : ctx.files_deleted < u64
  pub delete_errors_lt : ctx.delete_errors < u64
  pub scan_errors_lt : ctx.scan_errors < u64
  pub bytes_deleted_lt : ctx.bytes_deleted < u64

module _ {D : Type 0} (disk : Disk D) where
  remove_file-IsBounded :
      (path : List ℕ) (file_size : ℕ) (ctx : Context) (d : D)
      → IsBounded ctx
      → IsBounded (remove_file disk path file_size ctx d).0
  unfolding remove_file unlink count_removal saturate
  remove_file-IsBounded path file_size ctx d h = ground arith

module _ {D : Type 0} (text : Text) (caseless : Bool) (native : Native) (disk : Disk D) where
  -- Without a namespace every entry may go; with one, the key that was read is stale in it.
  abbrev pub IsStale : Option Judge → List ℕ → Type 0
  IsStale none key = Unit
  IsStale (some ns) key = stale text ns.name ns.state key ≡ ok

  -- For an exact walk the bytes are the key and a newline; for any other they begin with the selector
  -- without regard to case.
  abbrev pub Matches : Option Shared → List ℕ → List ℕ → Type 0
  Matches (some sh) selector bytes =
      (take (length selector) bytes ≡ selector) × (char_at bytes (length selector) ≡ 10)
  Matches none selector bytes =
      (length selector ≡ 0) ⊎ (native.same_caseless bytes selector (length selector) ≡ true)

  may_go-IsStale :
      (ns : Option Judge) (e : Entry)
      → may_go text caseless ns e ≡ true
      → IsStale ns (take e.entry_key_len e.key_buffer)
  unfolding may_go
  may_go-IsStale none e h = tt
  may_go-IsStale (some ns) e h = grind (arith, h)

  key_matches-Matches :
      (ctx : Context) (e : Entry)
      → key_matches text caseless native disk ctx e ≡ true
      → Matches ctx.cache ctx.key_partial e.key_buffer
  unfolding key_matches
  key_matches-Matches ctx e h = elim (Option-cases ctx.cache) [
    | inl nil ↦ rw nil (elim (Bool-cases (length ctx.key_partial == 0)) [
      | inl empty ↦ inl (ground (arith, empty))
      | inr some_key ↦ inr (ground (arith, nil, some_key, h))
    ])
    | inr (sh, there) ↦ rw there (
      eq_of_bytes_eq (take (length ctx.key_partial) e.key_buffer) ctx.key_partial
          (ground (arith, there, h)),
      ground (arith, there, h),
    )
  ]

  judge_entry_due :
      (path : List ℕ) (e : Entry) (ctx : Context) (d : D)
      → (judge_entry text caseless native disk path e ctx d).1 ≢ d
      → IsStale ctx.namespace (take e.entry_key_len e.key_buffer)
        × Matches ctx.cache ctx.key_partial e.key_buffer
  unfolding judge_entry
  judge_entry_due path e ctx d h = elim (Bool-cases (may_go text caseless ctx.namespace e)) [
    | inr n ↦ absurd (h (rw (n, judge_entry) refl))
    | inl stale_lem ↦ elim (Bool-cases (key_matches text caseless native disk ctx e)) [
      | inr n ↦ absurd (h (rw (stale_lem, n, judge_entry) refl))
      | inl matched ↦ (may_go-IsStale ctx.namespace e stale_lem, key_matches-Matches ctx e matched)
    ]
  ]

  -- If the handling of a file changes the disk, then the path is not protected and has the name of a
  -- cache file, and the bounded reader gave an entry whose key is stale in the namespace of the walk,
  -- if there is one, and whose bytes are the exact key with a newline, or begin with the selector.
  pub delete_file_due :
      (path : List ℕ) (ctx : Context) (d : D)
      → (delete_file text caseless native disk path ctx d).1 ≢ d
      → (is_protected_path text caseless ctx.scope (some path) ≡ false)
        × (is_cache_file path ≡ true)
        × ((e : Entry) × (read_key native path (wanted ctx) (disk.open_entry path d) ≡ got e)
            × IsStale ctx.namespace (take e.entry_key_len e.key_buffer)
            × Matches ctx.cache ctx.key_partial e.key_buffer)
  unfolding delete_file is_out_of_scope
  delete_file_due path ctx d h = elim (Bool-cases (is_out_of_scope text caseless path ctx)) [
    | inl out ↦ absurd (h (rw (out, delete_file) refl))
    | inr scope ↦
        elim (KeyRead-cases (read_key native path (wanted ctx) (disk.open_entry path d))) [
          | inl (e, read) ↦ elim (Bool-cases (e.count == wanted ctx)) [
            | inr short ↦ absurd (h (rw (scope, read, delete_file, short) refl))
            | inl full ↦ (
              ground arith,
              ground arith,
              let (may, matched) =
                    judge_entry_due path e ctx d
                      (λ same. h (rw (scope, read, delete_file, full) same)) in
                  (e, read, may, matched),
            )
          ]
          | inr (inl read) ↦ absurd (h (rw (scope, read, delete_file) refl))
          | inr (inr read) ↦ absurd (h (rw (scope, read, delete_file) refl))
        ]
  ]

  -- The counters of a walk stay 64-bit numbers, whatever is deleted.
  pub delete_file-IsBounded :
      (path : List ℕ) (ctx : Context) (d : D)
      → IsBounded ctx
      → IsBounded (delete_file text caseless native disk path ctx d).0
  unfolding delete_file judge_entry
  delete_file-IsBounded path ctx d h = grind (arith, remove_file-IsBounded)

-- What the reader of keys hands back when it was asked for `len` bytes.
pub record IsKey (len : ℕ) (e : Entry) : Type 0 where
  pub within_max : e.entry_key_len ≤ entry_key_max
  pub length_lem : length e.key_buffer ≡ e.entry_key_len + 1
  pub newline : char_at e.key_buffer e.entry_key_len ≡ 10
  pub within_len : e.count ≤ len
  pub within_buffer : e.count ≤ length e.key_buffer

module _ (native : Native) where
  read_buffer-got :
      (path : List ℕ) (len : ℕ) (hd : Header) (file_size : ℕ) (f : File) (e : Entry)
      → header_fits native hd file_size ≡ true
      → read_buffer native path len hd file_size f ≡ got e
      → IsKey len e
  unfolding read_buffer header_fits
  read_buffer-got path len hd file_size f e fits h = ground arith

  read_header-got :
      (path : List ℕ) (len file_size : ℕ) (f : File) (e : Entry)
      → read_header native path len file_size f ≡ got e
      → IsKey len e
  unfolding read_header read_marker
  read_header-got path len file_size f e h = elim (Option-cases (f.read native.sizeof_header 0)) [
    | inl n ↦ ground arith
    | inr (bytes, b) ↦
        ground (arith, read_buffer-got path len (native.parse_header bytes) file_size f e)
  ]

  -- What the reader accepts is bounded by its own limit and not by the file: the buffer is the key
  -- and a newline, and the count is within the buffer and within what was asked for.
  pub read_key-IsKey :
      (path : List ℕ) (len : ℕ) (o : Opened) (e : Entry)
      → read_key native path len o ≡ got e
      → IsKey len e
  unfolding read_key read_opened
  read_key-IsKey path len (Opened.failed missing) e h = cc
  read_key-IsKey path len (Opened.failed other) e h = cc
  read_key-IsKey path len (opened f) e h = elim (Option-cases f.info) [
    | inl n ↦ ground arith
    | inr (none, i) ↦ ground arith
    | inr (some file_size, i) ↦ ground (arith, read_header-got path len file_size f e)
  ]
