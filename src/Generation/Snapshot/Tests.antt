-- ===== src/Generation/Snapshot/Tests.antt =====
-- The theorem on the snapshots of a request at two calls, between which the namespace moves on.
use ngx_cache_purge.Prelude.{ℕ, ◌≡◌, refl, true, false, [], ◌∷◌, none, some, List}
use ngx_cache_purge.Ngx.{Text, digits16}
use ngx_cache_purge.Generation.Rule.{null}
use ngx_cache_purge.Generation.State.{Generation}
use ngx_cache_purge.Generation.Snapshot.{
  RequestKeys, keys, KeyCall, find_snapshot, request_keys, take_snapshot, key_of_value,
  generation_key,
}
use ngx_cache_purge.Generation.Snapshot.Stable.{run, generation_key_stable}

abbrev plain : Text
plain = record { tolower = λ c. c; hextoi = λ _. none; print_hex = digits16 16 }

abbrev shop : List ℕ
shop = b's' ∷ []

abbrev before : Generation
before = record {
  version = 1;
  serial = 1;
  baseline = 1;
  epoch = [];
  state_path = [];
  exact = null;
  prefix = null;
  allocated = [];
  tail = none;
  garbage = [];
}

abbrev first : KeyCall
first = record {
  ns = 7;
  name = shop;
  state = before;
  value = some (b'a' ∷ []);
  cleanup_room = true;
  snapshot_room = true;
  encoded_room = true;
}

abbrev other : KeyCall
other = record first { value = some (b'b' ∷ []) }

abbrev later : KeyCall
later = record first { state = record before { serial = 2; baseline = 2 }; snapshot_room = false }

abbrev encoded : List ℕ
encoded = (take_snapshot plain first (b'a' ∷ [])).encoded

abbrev seen : RequestKeys
seen = record { evaluating = false; snapshots = take_snapshot plain first (b'a' ∷ []) ∷ [] }

first_keys : generation_key plain first none ≡ (keys (b'a' ∷ []) encoded, some seen)
unfolding generation_key request_keys key_of_value find_snapshot take_snapshot
first_keys = refl

generation_key_stable_example :
    generation_key plain later (run plain (other ∷ []) (some seen))
    ≡ (keys (b'a' ∷ []) encoded, run plain (other ∷ []) (some seen))
generation_key_stable_example =
    generation_key_stable plain first later (other ∷ []) (b'a' ∷ []) encoded none (some seen)
      first_keys refl refl
