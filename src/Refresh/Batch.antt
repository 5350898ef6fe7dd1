-- ===== src/Refresh/Batch.antt =====
-- The batch of a scan: `ngx_http_cache_refresh_canonical` and `ngx_http_cache_refresh_collect`.
use ngx_cache_purge.Prelude.{
  ℕ, ◌+◌, ◌-◌, Bool, true, false, ◌&&◌, ◌||◌, not, List, [], ◌∷◌, none, some, ltb, ◌==◌,
  if◌then◌else◌, length, take, drop, bytes_eq, u64, ◌%◌,
}
use ngx_cache_purge.Ngx.{Text}
use ngx_cache_purge.FilePath.{char_at}
use ngx_cache_purge.Generation.State.{is_current, ends_in_star}
use ngx_cache_purge.Generation.Key.{decode}
use ngx_cache_purge.Walk.Native.{Native, Disk}
use ngx_cache_purge.Walk.Protect.{is_protected_path, is_cache_file}
use ngx_cache_purge.Walk.Key.{KeyRead, got, read_key}
use ngx_cache_purge.Walk.Tree.{Comparison, less, same, more, memcmp}
use ngx_cache_purge.Walk.Delete.{Context, Judge}

-- `ngx_http_cache_refresh_entry_t`: the hash and the encoded key, and what a probe has found: the
-- status of the upstream and the result.
pub data RefreshResult : Type 0 where
  pending kept invalidated transport upstream_status vary profile replaced error : RefreshResult

-- The parts of the header of nginx that a probe reads; how they lie in a file is nginx's.
pub record EntryHeader : Type 0 where
  pub vary_len : ℕ
  pub etag : List ℕ
  pub last_modified : ℕ

pub record RefreshEntry : Type 0 where
  pub hash : List ℕ
  pub key : List ℕ
  pub header : EntryHeader
  pub status : ℕ
  pub result : RefreshResult

-- The part of `ngx_http_cache_refresh_scan_t` that a visit reads and writes: the levels of the path
-- that are not zero, the selector, the cursor, the entries and whether some were left out.
pub record Batch : Type 0 where
  pub path_name : List ℕ
  pub path_len : ℕ
  pub levels : List ℕ
  pub filter : List ℕ
  pub after : List ℕ
  pub entries : List RefreshEntry
  pub more : Bool

-- `NGX_CACHE_PURGE_REFRESH_BATCH`.
abbrev pub batch_size : ℕ
batch_size = 32

abbrev pub is_less : Comparison → Bool
is_less less = true
is_less _ = false

abbrev pub is_more : Comparison → Bool
is_more more = true
is_more _ = false

abbrev pub is_same : Comparison → Bool
is_same same = true
is_same _ = false

-- The directories of a path are the last digits of its hash.
unfoldable pub canonical_levels : List ℕ → ℕ → ℕ → List ℕ → List ℕ → Bool
canonical_levels [] offset tail path hash = true
canonical_levels (level ∷ levels) offset tail path hash =
    let rest = canonical_levels levels (offset + level + 1) (tail - level) path hash in
    if not (bytes_eq (take level (drop offset path)) (take level (drop (tail - level) hash)))
      || not (char_at path (offset + level) == b'/')
    then false
    else rest

unfoldable pub canonical : Batch → List ℕ → Bool
canonical b path =
    if not (length path == length b.path_name + 1 + b.path_len + 32)
    then false
    else canonical_levels b.levels (length b.path_name + 1) 32 path (drop (length path - 32) path)

-- The first loop: a hash that is there already, and the entry with the largest hash.
unfoldable pub has_hash : List ℕ → List RefreshEntry → Bool
has_hash hash [] = false
has_hash hash (e ∷ entries) = is_same (memcmp hash e.hash) || has_hash hash entries

unfoldable pub largest_from : RefreshEntry → List RefreshEntry → RefreshEntry
largest_from best [] = best
largest_from best (e ∷ entries) =
    largest_from (if is_more (memcmp e.hash best.hash) then e else best) entries

-- The entry of the largest hash is written over; hashes are distinct.
unfoldable pub replace_hash : List ℕ → RefreshEntry → List RefreshEntry → List RefreshEntry
replace_hash hash e [] = []
replace_hash hash e (x ∷ entries) =
    let rest = replace_hash hash e entries in
    if is_same (memcmp x.hash hash) then e ∷ entries else x ∷ rest

unfoldable pub append_entry : RefreshEntry → List RefreshEntry → List RefreshEntry
append_entry e [] = e ∷ []
append_entry e (x ∷ entries) = x ∷ append_entry e entries

-- An entry that has passed the tests meets a batch with this largest entry.
unfoldable pub add_to : RefreshEntry → RefreshEntry → Batch → Batch
add_to largest e b =
    if has_hash e.hash b.entries
    then b
    else if not (length b.entries == batch_size)
    then record b { entries = append_entry e b.entries }
    else if not (is_less (memcmp e.hash largest.hash))
    then record b { more = true }
    else record b { more = true; entries = replace_hash largest.hash e b.entries }

-- `found` is what the batch has.
unfoldable pub add_found : RefreshEntry → Batch → List RefreshEntry → Batch
add_found e b [] = record b { entries = e ∷ [] }
add_found e b (x ∷ found) = add_to (largest_from x (x ∷ found)) e b

unfoldable pub add_entry : RefreshEntry → Batch → Batch
add_entry e b = add_found e b b.entries

-- The entries that a walk offers, one after another.
unfoldable pub add_entries : List RefreshEntry → Batch → Batch
add_entries [] b = b
add_entries (e ∷ es) b = add_entries es (add_entry e b)

module _ {D : Type 0} (text : Text) (caseless : Bool) (native : Native) (disk : Disk D) where
  -- A selector that ends in a star is compared without case.
  unfoldable pub filter_matches : List ℕ → List ℕ → Bool
  filter_matches filter logical =
      let len = length filter - 1 in
      if ends_in_star filter
      then not (ltb (length logical) len) && native.same_caseless logical filter len
      else bytes_eq logical filter

  -- The hash of an entry is the end of its path.
  abbrev pub hash_of : List ℕ → List ℕ
  hash_of path = drop (length path - 32) path

  abbrev pub candidate : (List ℕ → EntryHeader) → List ℕ → List ℕ → RefreshEntry
  candidate header_of path key = record {
    hash = hash_of path;
    key = key;
    header = header_of path;
    status = 0;
    result = pending;
  }

  -- The key of an entry in the namespace of the walk.
  unfoldable pub collect_key : (List ℕ → EntryHeader) → List ℕ → List ℕ → Judge → Batch → Batch
  collect_key header_of path key ns b = elim (decode text ns.name key) [
    | none ↦ b
    | some d ↦
        if not (is_current text ns.state d) || not (filter_matches b.filter d.logical)
        then b
        else add_entry (candidate header_of path key) b
  ]

  abbrev pub is_skipped : List ℕ → Context → Batch → Bool
  is_skipped path ctx b =
      not (is_cache_file path)
      || is_protected_path text caseless ctx.scope (some path)
      || not (canonical b path)
      || not (is_more (memcmp (hash_of path) b.after))

  -- The visit of a file; a walk of a refresh has a namespace.
  unfoldable pub collect :
      (List ℕ → EntryHeader) → Judge → List ℕ → Context → Batch → D → Context × Batch
  collect header_of ns path ctx b d =
      if is_skipped path ctx b
      then (ctx, b)
      else elim (read_key native path 0 (disk.open_entry path d)) [
        | KeyRead.error ↦ (record ctx { scan_errors = (ctx.scan_errors + 1) % u64 }, b)
        | KeyRead.declined ↦ (ctx, b)
        | got e ↦ (ctx, collect_key header_of path (take e.entry_key_len e.key_buffer) ns b)
      ]
