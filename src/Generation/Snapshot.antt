-- ===== src/Generation/Snapshot.antt =====
-- `ngx_http_cache_purge_generation_key`: the encoded key of a request, and the snapshots that make
-- a request see one generation of a key.
pub mod Stable
mod Tests
use ngx_cache_purge.Prelude.{
  ℕ, ◌≤◌, ◌<◌, ◌≡◌, refl, Bool, true, false, ◌&&◌, not, List, [], ◌∷◌, Option, none, some, ltb,
  ◌==◌, if◌then◌else◌, length, bytes_eq, bytes_eq_refl, ==_refl, Bool-cases, Option-cases, inl, inr,
  arith,
}
use ngx_cache_purge.Ngx.{Text}
use ngx_cache_purge.Generation.State.{Generation, lookup, logical_key_max}
use ngx_cache_purge.Generation.Key.{encode}

-- `ngx_http_cache_purge_snapshot_t`: the address of the namespace, and the two keys.
pub record Snapshot : Type 0 where
  pub ns : ℕ
  pub logical : List ℕ
  pub encoded : List ℕ

-- `ngx_http_cache_purge_generation_request_t` of this request.
pub record RequestKeys : Type 0 where
  pub evaluating : Bool
  pub snapshots : List Snapshot

-- `NGX_OK` with the two keys, `NGX_DECLINED`, or `NGX_ERROR`.
pub data KeyResult : Type 0 where
  keys : List ℕ → List ℕ → KeyResult
  declined error : KeyResult

-- A call: the address, the name and the state of the namespace, what `ngx_http_complex_value`
-- gives for the expression, and which of the three allocations would find memory.
pub record KeyCall : Type 0 where
  pub ns : ℕ
  pub name : List ℕ
  pub state : Generation
  pub value : Option (List ℕ)
  pub cleanup_room : Bool
  pub snapshot_room : Bool
  pub encoded_room : Bool

unfoldable pub find_snapshot : ℕ → List ℕ → List Snapshot → Option Snapshot
find_snapshot ns key [] = none
find_snapshot ns key (s ∷ snapshots) =
    let rest = find_snapshot ns key snapshots in
    if s.ns == ns && bytes_eq s.logical key then some s else rest

-- The record of the request: the one that is there, or a new one.
unfoldable pub request_keys : Bool → Option RequestKeys → Option RequestKeys
request_keys room (some ctx) = some ctx
request_keys true none = some (record { evaluating = false; snapshots = [] })
request_keys false none = none

module _ (text : Text) where
  -- A new snapshot, taken under the lock of the namespace.
  unfoldable pub take_snapshot : KeyCall → List ℕ → Snapshot
  take_snapshot call key = record {
    ns = call.ns;
    logical = key;
    encoded = encode text call.name call.state.epoch (lookup text call.state key) key;
  }

  unfoldable pub key_of_value : KeyCall → List ℕ → RequestKeys → KeyResult × RequestKeys
  key_of_value call key ctx =
      if ltb logical_key_max (length key)
      then (declined, ctx)
      else elim (find_snapshot call.ns key ctx.snapshots) [
        | some s ↦ (keys s.logical s.encoded, ctx)
        | none ↦
            (let s = take_snapshot call key in
              if call.snapshot_room && call.encoded_room
              then (keys s.logical s.encoded, record ctx { snapshots = s ∷ ctx.snapshots })
              else (error, ctx))
      ]

  -- While the expression is evaluated, a call for the same request is refused.
  unfoldable pub generation_key : KeyCall → Option RequestKeys → KeyResult × Option RequestKeys
  generation_key call found = elim (request_keys call.cleanup_room found) [
    | none ↦ (error, none)
    | some ctx ↦ if ctx.evaluating then (error, some ctx) else elim call.value [
      | none ↦ (error, some ctx)
      | some key ↦ (let (result, ctx') = key_of_value call key ctx in (result, some ctx'))
    ]
  ]
