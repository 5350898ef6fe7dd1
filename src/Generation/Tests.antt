-- ===== src/Generation/Tests.antt =====
-- The theorems about generation keys at one namespace, over ASCII text and a pool of three nodes.
use ngx_cache_purge.Prelude.{
  ℕ, ◌+◌, ◌-◌, ◌<◌, ◌≡◌, refl, true, false, ◌&&◌, List, [], ◌∷◌, ◌++◌, map, Option, none, some, ◌⊎◌,
  ◌≢◌, ltb, leb, if◌then◌else◌, arith, bytes_eq,
}
use ngx_cache_purge.Ngx.{Text, TextLaws, Slab, digits16, ok, declined}
use ngx_cache_purge.Generation.Rule.{null, siblings, search_rules, place}
use ngx_cache_purge.Generation.Rule.Select.{selects}
use ngx_cache_purge.Generation.Key.{
  Decoded, byte_at, is_digit, all_digits, read_generation, decode_epoch, decode, encode,
}
use ngx_cache_purge.Generation.Key.RoundTrip.{decode-encode}
use ngx_cache_purge.Generation.State.{
  Generation, reset, lookup, is_current, current, stale, is_expected, collect, add_rule, publish,
  invalidate,
}
use ngx_cache_purge.Generation.State.Effect.{IsValid, covers}
use ngx_cache_purge.Generation.State.Effect.Calls.{
  lookup-invalidate_hit, lookup-invalidate_miss, invalidate_fails,
}
use ngx_cache_purge.Generation.State.Stale.{Call, run, run-IsValid, stale-run, stale-invalidate}

abbrev to_lower : ℕ → ℕ
to_lower c = if leb b'A' c && leb c b'Z' then c + 32 else c

abbrev hex_digit : ℕ → ℕ
hex_digit d = if ltb d 10 then d + 48 else d + 87

abbrev hex_value : ℕ → Option ℕ
hex_value c =
    if leb b'0' c && leb c b'9'
    then some (c - 48)
    else if leb b'a' c && leb c b'f'
    then some (c - 87)
    else if leb b'A' c && leb c b'F'
    then some (c - 55)
    else none

abbrev pub ascii : Text
ascii = record {
  tolower = to_lower;
  hextoi = hex_value;
  print_hex = λ g. map hex_digit (digits16 16 g);
}

pub hex_value-hex_digit : (d : ℕ) → d < 16 → hex_value (hex_digit d) ≡ some d
hex_value-hex_digit d h = ground arith

abbrev pub ascii_laws : TextLaws ascii
ascii_laws = record {
  digit = hex_digit;
  print_hex_digits = λ g _. refl;
  hextoi-digit = hex_value-hex_digit;
}

-- The state of the pool is the number of nodes handed out.
abbrev pub three_nodes : Slab ℕ
three_nodes = record {
  calloc = λ _ used. if ltb used 3 then some (used + 100, used + 1) else none;
  free = λ _ used. used;
}

abbrev pub shop : List ℕ
shop = b's' ∷ b'h' ∷ []

abbrev pub epoch : List ℕ
epoch = b'0' ∷ b'0' ∷ b'0' ∷ b'0' ∷ b'0' ∷ b'0' ∷ b'0' ∷ b'0' ∷ b'4' ∷ b'2' ∷ []

abbrev initial : Generation
initial = record {
  version = 1;
  serial = 1;
  baseline = 1;
  epoch = epoch;
  state_path = [];
  exact = null;
  prefix = null;
  allocated = [];
  tail = none;
  garbage = [];
}

initial-IsValid : IsValid initial
initial-IsValid = record {
  baseline_le = omega arith;
  exact_le = tt;
  prefix_le = tt;
  serial_lt = omega arith;
}

-- The prefix selector `A*`, and a key `ab`.
abbrev a_star : Call
a_star = record { locked = true; key = b'A' ∷ b'*' ∷ []; all = false; expected = none }

abbrev ab : List ℕ
ab = b'a' ∷ b'b' ∷ []

abbrev entry : List ℕ
entry =
    b'p' ∷ b'4' ∷ b':' ∷ b's' ∷ b'h' ∷ b':' ∷ epoch
    ++ b':' ∷ map hex_digit (digits16 16 1)
    ++ b':' ∷ ab

abbrev decoded : Decoded
decoded = record { epoch = epoch; generation = 1; logical = ab }

-- Unfolds an invalidation.
published : (invalidate ascii three_nodes true shop a_star.key false none initial 0).rc ≡ ok
unfolding invalidate is_expected publish add_rule collect place reset
published = refl

covered : covers ascii false a_star.key true ab ≡ true
unfolding covers selects
covered = refl

entry_decodes : decode ascii shop entry ≡ some decoded
unfolding decode decode_epoch byte_at all_digits is_digit read_generation bytes_eq
entry_decodes = refl

entry-current : current ascii shop initial entry ≡ ok
unfolding current is_current lookup search_rules bytes_eq decode decode_epoch byte_at all_digits
    is_digit read_generation siblings
entry-current = refl

stale-invalidate_example :
    let after = (invalidate ascii three_nodes true shop a_star.key false none initial 0).state in
    (stale ascii shop after entry ≡ ok) × (current ascii shop after entry ≡ declined)
stale-invalidate_example =
    stale-invalidate ascii three_nodes shop a_star initial 0 entry decoded initial-IsValid published
      entry_decodes (omega arith) covered

run-IsValid_example : IsValid (run ascii three_nodes shop (a_star ∷ a_star ∷ []) (initial, 0)).0
run-IsValid_example =
    run-IsValid ascii three_nodes shop (a_star ∷ a_star ∷ []) (initial, 0) initial-IsValid

invalidated : Generation × ℕ
unfolding invalidate is_expected publish add_rule collect place reset
invalidated =
    let out = invalidate ascii three_nodes true shop a_star.key false none initial 0 in
    (out.state, out.pool)

-- The entry is stale after `A*`, and still after another selector.
entry-stale : stale ascii shop invalidated.0 entry ≡ ok
unfolding invalidated stale lookup search_rules siblings bytes_eq decode decode_epoch byte_at
    all_digits is_digit read_generation
entry-stale = refl

invalidated-IsValid : IsValid invalidated.0
unfolding invalidated
invalidated-IsValid = record {
  baseline_le = omega arith;
  exact_le = tt;
  prefix_le = omega arith;
  serial_lt = omega arith;
}

stale-run_example :
    stale ascii shop (run ascii three_nodes shop (a_star ∷ []) invalidated).0 entry ≡ ok
stale-run_example =
    stale-run ascii three_nodes shop (a_star ∷ []) invalidated entry invalidated-IsValid entry-stale

lookup-invalidate_hit_example :
    let out = invalidate ascii three_nodes true shop a_star.key false none initial 0 in
    (lookup ascii out.state ab ≡ 2) × (lookup ascii initial ab < lookup ascii out.state ab)
lookup-invalidate_hit_example =
    lookup-invalidate_hit ascii three_nodes true shop a_star.key false none initial 0 ab
      initial-IsValid published covered

-- `ba` does not begin with `a`.
uncovered : covers ascii false a_star.key true (b'b' ∷ b'a' ∷ []) ≡ false
unfolding covers selects
uncovered = refl

lookup-invalidate_miss_example :
    let out = invalidate ascii three_nodes true shop a_star.key false none initial 0 in
    (lookup ascii out.state (b'b' ∷ b'a' ∷ []) ≡ lookup ascii initial (b'b' ∷ b'a' ∷ []))
    ⊎ ((out.state.baseline ≡ 2) × (lookup ascii out.state (b'b' ∷ b'a' ∷ []) ≡ 2))
lookup-invalidate_miss_example =
    lookup-invalidate_miss ascii three_nodes true shop a_star.key false none initial 0
      (b'b' ∷ b'a' ∷ []) initial-IsValid published uncovered

-- Nobody holds the lock, but the caller does not get it.
busy_lock : (invalidate ascii three_nodes false shop a_star.key false none initial 0).rc ≢ ok
unfolding invalidate
busy_lock e = cc

invalidate_fails_example :
    let out = invalidate ascii three_nodes false shop a_star.key false none initial 0 in
    (out.state ≡ initial) × (out.pool ≡ 0)
invalidate_fails_example =
    invalidate_fails ascii three_nodes false shop a_star.key false none initial 0 initial-IsValid
      busy_lock

decode-encode_example :
    decode ascii shop (encode ascii shop epoch 300 ab)
    ≡ some (record { epoch = epoch; generation = 300; logical = ab })
unfolding all_digits is_digit
decode-encode_example = decode-encode ascii ascii_laws shop epoch 300 ab refl refl (omega arith)
