-- ===== src/Generation/State.antt =====
-- The shared state of a namespace, with `ngx_http_cache_purge_generation_lookup`, `_reset`,
-- `_invalidate`, `_stale`, `_current` and `_view`.
pub mod Effect
pub mod Stale
use ngx_cache_purge.Prelude.{
  ℕ, zero, suc, ◌+◌, ◌-◌, ◌≡◌, Bool, true, false, ◌&&◌, ◌||◌, not, List, [], ◌∷◌, ◌++◌, Option,
  none, some, ltb, leb, ◌==◌, if◌then◌else◌, length, bytes_eq, u64,
}
use ngx_cache_purge.Ngx.{Text, Slab, Rc, ok, error, again, declined}
use ngx_cache_purge.Generation.Rule.{Rule, null, search_rules, place, Placed}
use ngx_cache_purge.Generation.Key.{Decoded, decode}

-- `ngx_http_cache_purge_generation_s`. `allocated` and `garbage` are the chains of nodes through
-- their `allocated` pointers, `tail` the last node of the first chain.
pub record Generation : Type 0 where
  pub version : ℕ
  pub serial : ℕ
  pub baseline : ℕ
  pub epoch : List ℕ
  pub state_path : List ℕ
  pub exact : Rule
  pub prefix : Rule
  pub allocated : List ℕ
  pub tail : Option ℕ
  pub garbage : List ℕ

-- `NGX_CACHE_PURGE_LOGICAL_KEY_MAX`.
abbrev pub logical_key_max : ℕ
logical_key_max = 8096

-- The chain of nodes up to the node at `t`, whose pointer is overwritten.
unfoldable pub cut : ℕ → List ℕ → List ℕ
cut t [] = []
cut t (a ∷ nodes) = if a == t then a ∷ [] else a ∷ cut t nodes

-- `state->tail->allocated = state->garbage; state->garbage = state->allocated`.
abbrev pub splice : Option ℕ → List ℕ → List ℕ → List ℕ
splice none allocated garbage = garbage
splice (some t) allocated garbage = cut t allocated ++ garbage

unfoldable pub reset : Generation → Generation
reset state = record state {
  baseline = state.serial;
  exact = null;
  prefix = null;
  garbage = elim state.allocated [
    | [] ↦ state.garbage
    | a ∷ nodes ↦ splice state.tail (a ∷ nodes) state.garbage
  ];
  allocated = [];
  tail = elim state.allocated [ [] ↦ state.tail | _ ∷ _ ↦ none ];
}

-- `key->data[len - 1] == '*'` of a key that is not empty, and the key without its last byte.
abbrev pub ends_in_star : List ℕ → Bool
ends_in_star [] = false
ends_in_star (c ∷ []) = c == b'*'
ends_in_star (c ∷ d ∷ key) = ends_in_star (d ∷ key)

abbrev pub drop_last : List ℕ → List ℕ
drop_last [] = []
drop_last (c ∷ []) = []
drop_last (c ∷ d ∷ key) = c ∷ drop_last (d ∷ key)

abbrev pub is_some {ℓ} : {A : Type ℓ} → Option A → Bool
is_some none = false
is_some (some a) = true

module _ (text : Text) where
  unfoldable pub lookup : Generation → List ℕ → ℕ
  lookup state key =
      search_rules text true state.prefix key
        (search_rules text false state.exact key state.baseline)

  -- The key of an entry as `ngx_http_cache_purge_generation_current` judges it: its epoch is the
  -- namespace's and its generation the one that the lookup gives.
  unfoldable pub is_current : Generation → Decoded → Bool
  is_current state d = bytes_eq d.epoch state.epoch && d.generation == lookup state d.logical

  unfoldable pub current : List ℕ → Generation → List ℕ → Rc
  current name state key = elim (decode text name key) [
    | none ↦ declined
    | some d ↦ if is_current state d then ok else declined
  ]

  -- `NGX_OK` says that the entry is stale.
  unfoldable pub stale : List ℕ → Generation → List ℕ → Rc
  stale name state key = elim (decode text name key) [
    | none ↦ declined
    | some d ↦
        if not (bytes_eq d.epoch state.epoch) || ltb d.generation (lookup state d.logical)
        then ok
        else declined
  ]

  -- The guard of an invalidation on behalf of an entry: `expected` is the key that was read from
  -- the entry, and has to name this very key in its current generation.
  unfoldable pub is_expected : List ℕ → Generation → List ℕ → Option (List ℕ) → Bool
  is_expected name state key none = true
  is_expected name state key (some e) = elim (decode text name e) [
    | none ↦ false
    | some d ↦ bytes_eq d.logical key && is_current state d
  ]

-- The copy that a status request takes.
pub record View : Type 0 where
  pub epoch : List ℕ
  pub serial : ℕ
  pub baseline : ℕ
  pub rules : Bool

abbrev pub is_null : Rule → Bool
is_null null = true
is_null (Rule.node a b g child sibling) = false

unfoldable pub view : Generation → View
view state = record {
  epoch = state.epoch;
  serial = state.serial;
  baseline = state.baseline;
  rules = not (is_null state.exact) || not (is_null state.prefix);
}

pub record Invalidated (S : Type 0) : Type 0 where
  pub rc : Rc
  pub state : Generation
  pub pool : S

module _ {S : Type 0} (text : Text) (slab : Slab S) where
  -- `for (n = 0; n < 64 && state->garbage != NULL; n++)`, on the rounds left.
  unfoldable pub collect : ℕ → List ℕ → S → List ℕ × S
  collect zero garbage pool = (garbage, pool)
  collect (suc n) [] pool = ([], pool)
  collect (suc n) (a ∷ garbage) pool = collect n garbage (slab.free a pool)

  -- A selector is added to its trie, or the whole namespace is reset when memory runs out.
  unfoldable pub add_rule : Bool → List ℕ → Generation → S → Invalidated S
  add_rule prefix key state pool =
      let p =
        place text slab prefix state.serial key (if prefix then state.prefix else state.exact)
          state.allocated state.tail pool in
      let state' = record state { allocated = p.allocated; tail = p.tail } in
      elim p.rule [
        | none ↦ record { rc = ok; state = reset state'; pool = p.pool }
        | some r ↦ record {
          rc = ok;
          state = if prefix then record state' { prefix = r } else record state' { exact = r };
          pool = p.pool;
        }
      ]

  -- What follows the guards, once the serial is known not to overflow.
  unfoldable pub publish : List ℕ → Bool → Bool → Generation → S → Invalidated S
  publish key all prefix state pool =
      let (garbage, pool') = collect 64 state.garbage pool in
      let state' = record state { garbage = garbage; serial = state.serial + 1 } in
      let selector = if prefix then drop_last key else key in
      if all || length selector == 0
      then record { rc = ok; state = reset state'; pool = pool' }
      else add_rule prefix selector state' pool'

  -- `ngx_http_cache_purge_generation_invalidate`; `locked` says whether the `trylock` succeeds.
  unfoldable pub invalidate :
      Bool → List ℕ → List ℕ → Bool → Option (List ℕ) → Generation → S → Invalidated S
  invalidate locked name key all expected state pool =
      if ltb logical_key_max (length key)
      then record { rc = error; state = state; pool = pool }
      else if not locked
      then record { rc = again; state = state; pool = pool }
      else if not (is_expected text name state key expected)
      then record { rc = declined; state = state; pool = pool }
      else if state.serial == u64 - 1
      then record { rc = error; state = state; pool = pool }
      else publish key all (not (is_some expected) && ends_in_star key) state pool
