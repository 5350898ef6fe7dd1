-- ===== src/Queue/Clock.antt =====
-- `ngx_msec_t` and `ngx_msec_int_t`: 64-bit milliseconds that wrap, and their signed differences.
use ngx_cache_purge.Prelude.{
  ℕ, ◌+◌, ◌-◌, ◌%◌, ◌^◌, ◌≤◌, ◌<◌, ◌≡◌, Bool, leb, if◌then◌else◌, u64, arith,
}

-- `a - b` in 64 bits, of operands below 2 ^ 64.
abbrev pub minus64 : ℕ → ℕ → ℕ
minus64 a b = (a + u64 - b) % u64

-- `(ngx_msec_int_t) d < 0`.
abbrev pub is_negative : ℕ → Bool
is_negative d = leb (2 ^ 63) d

-- `ngx_http_cache_purge_age`, `now` being `ngx_current_msec`.
unfoldable pub age : ℕ → ℕ → ℕ
age now since = let d = minus64 now since in if is_negative d then 0 else d

-- The age of a moment that lies less than 2 ^ 63 ms back is the time since then, also where the
-- clock has wrapped in between.
pub age_elapsed :
    (since elapsed : ℕ)
    → since < u64
    → elapsed < 2 ^ 63
    → age ((since + elapsed) % u64) since ≡ elapsed
unfolding age
age_elapsed since elapsed h lt = ground arith

-- The age of a moment that is up to 2 ^ 63 ms ahead is 0.
pub age_future :
    (now ahead : ℕ) → now < u64 → 0 < ahead → ahead ≤ 2 ^ 63 → age now ((now + ahead) % u64) ≡ 0
unfolding age
age_future now ahead h pos lt = ground arith
