-- ===== src/Config/Known.antt =====
-- The checks after the configuration is read: `ngx_http_cache_purge_postconfiguration`.
use ngx_cache_purge.Prelude.{
  ℕ, Bool, true, false, ◌&&◌, ◌||◌, not, List, [], ◌∷◌, Option, none, some, ltb, ◌==◌,
  if◌then◌else◌, length, take, codes, bytes_eq,
}
use ngx_cache_purge.Ngx.{Text}
use ngx_cache_purge.FilePath.{path_length, path_equal}
use ngx_cache_purge.Queue.Paths.{Registered}
use ngx_cache_purge.Config.Zone.{OldZone}

-- The zone of a namespace of the new configuration.
pub record NamespaceZone : Type 0 where
  pub addr : ℕ
  pub name : List ℕ

-- The handlers that are put into the phases of nginx.
pub record Phases : Type 0 where
  pub has_log : Bool
  pub has_guard : Bool

abbrev pub namespace_prefix : List ℕ
namespace_prefix = codes "cache_purge_namespace:"

unfoldable pub is_namespace_zone : OldZone → Bool
is_namespace_zone z =
    z.is_own
    && ltb (length namespace_prefix) (length z.name)
    && bytes_eq (take (length namespace_prefix) z.name) namespace_prefix

abbrev pub same_zone : OldZone → NamespaceZone → Bool
same_zone z n = n.addr == z.addr || bytes_eq n.name z.name

unfoldable pub has_zone : OldZone → List NamespaceZone → Bool
has_zone z [] = false
has_zone z (n ∷ namespaces) = same_zone z n || has_zone z namespaces

-- The loop over the zones of the cycle before.
unfoldable pub keeps_namespaces : List NamespaceZone → List OldZone → Bool
keeps_namespaces namespaces [] = true
keeps_namespaces namespaces (z ∷ zones) =
    let rest = keeps_namespaces namespaces zones in
    if is_namespace_zone z && not (has_zone z namespaces) then false else rest

module _ (text : Text) (caseless : Bool) where
  abbrev pub names_cache : List ℕ → Registered → Bool
  names_cache name p =
      p.has_manager
      && p.has_loader
      && length name == path_length p.name
      && path_equal text caseless name p.name (path_length p.name)

  unfoldable pub is_known : List ℕ → List Registered → Bool
  is_known name [] = false
  is_known name (p ∷ paths) = names_cache name p || is_known name paths

  -- The loop over the locations that show the status of the queue.
  unfoldable pub are_known : List (List ℕ) → List Registered → Bool
  are_known [] paths = true
  are_known (name ∷ names) paths = is_known name paths && are_known names paths

  -- `NGX_OK` with the phases, or `none` for an error; `rooms` says whether the two handlers fit.
  unfoldable pub postconfiguration :
      Bool × Bool
      → Bool
      → List NamespaceZone
      → List OldZone
      → List (List ℕ)
      → List Registered
      → Option Phases
  postconfiguration rooms has_shm_zone namespaces zones names paths =
      if not (keeps_namespaces namespaces zones)
      then none
      else if not (are_known names paths)
      then none
      else if not has_shm_zone
      then some (record { has_log = false; has_guard = false })
      else if not rooms.0 || not rooms.1
      then none
      else some (record { has_log = true; has_guard = true })
