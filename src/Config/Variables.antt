-- ===== src/Config/Variables.antt =====
-- The variables: `ngx_http_cache_purge_variables`, `ngx_http_cache_purge_key_variable`, and
-- `ngx_http_cache_refresh_variable` (ngx_cache_purge_refresh.c).
use ngx_cache_purge.Prelude.{
  ℕ, suc, ◌≡◌, refl, Bool, List, [], ◌∷◌, Option, none, some, ◌==◌, if◌then◌else◌, codes, ◌>>=◌,
}
use ngx_cache_purge.Ngx.{Text}
use ngx_cache_purge.Generation.Snapshot.{RequestKeys, KeyCall, KeyResult, keys, generation_key}
use ngx_cache_purge.Generation.Snapshot.Stable.{run, generation_key_stable}

-- `ngx_http_variable_value_t`: a text, or the mark that there is none.
pub data Value : Type 0 where
  is_text : List ℕ → Value
  not_found : Value

-- The three texts of a probe.
pub record Probed : Type 0 where
  pub uri : List ℕ
  pub etag : List ℕ
  pub modified : List ℕ

-- `v->get_handler` with `v->data`.
pub data Getter : Type 0 where
  key_getter : Getter
  refresh_getter : ℕ → Getter

-- The value, or nothing for an error.
abbrev pub value_of : KeyResult → Option Value
value_of (keys logical encoded) = some (is_text encoded)
value_of KeyResult.declined = none
value_of KeyResult.error = none

-- `call` is the call for the namespace of the location, if it has one.
unfoldable pub key_variable :
    Text → Option KeyCall → Option RequestKeys → Option Value × Option RequestKeys
key_variable text none found = (some not_found, found)
key_variable text (some call) found =
    let (result, seen) = generation_key text call found in (value_of result, seen)

-- `probe` has the texts if the request is a subrequest of a refresh; `i` is the number of the variable.
unfoldable pub refresh_variable : ℕ → Option Probed → Value
refresh_variable i none = not_found
refresh_variable i (some p) =
    is_text (if i == 0 then p.uri else if i == 1 then p.etag else p.modified)

abbrev pub refresh_names : List (List ℕ)
refresh_names =
    codes "cache_purge_refresh_uri"
    ∷ codes "cache_purge_refresh_etag"
    ∷ codes "cache_purge_refresh_last_modified"
    ∷ []

-- `room` says whether nginx takes a variable of a name; `none` is an error.
unfoldable pub add_refresh : (List ℕ → Bool) → ℕ → List (List ℕ) → Option (List (List ℕ × Getter))
add_refresh room i [] = some []
add_refresh room i (name ∷ names) =
    let rest = add_refresh room (suc i) names in
    if room name then (rest >>= λ vs. some ((name, refresh_getter i) ∷ vs)) else none

unfoldable pub variables : (List ℕ → Bool) → Option (List (List ℕ × Getter))
variables room =
    if room (codes "cache_purge_key")
    then (add_refresh room 0 refresh_names >>= λ vs.
        some ((codes "cache_purge_key", key_getter) ∷ vs))
    else none

-- Once `$cache_purge_key` has a value in a request, it has it again whenever the expression has its
-- value again.
pub key_variable_stable :
    (text : Text) (first later : KeyCall) (calls : List KeyCall) (logical encoded : List ℕ)
    (found seen : Option RequestKeys)
    → generation_key text first found ≡ (keys logical encoded, seen)
    → later.ns ≡ first.ns
    → later.value ≡ first.value
    → (key_variable text (some later) (run text calls seen)).0 ≡ some (is_text encoded)
unfolding key_variable
key_variable_stable text first later calls logical encoded found seen h ns value =
    rw (generation_key_stable text first later calls logical encoded found seen h ns value) refl
