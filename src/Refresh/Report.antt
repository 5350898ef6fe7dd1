-- ===== src/Refresh/Report.antt =====
-- The body of the reply to a refresh (`ngx_http_cache_refresh_reply`), against its buffer.
use ngx_cache_purge.Prelude.{
  ℕ, ◌+◌, ◌-◌, ◌*◌, ◌%◌, ◌≤◌, ◌<◌, ◌≡◌, Bool, true, false, ◌&&◌, not, List, [], ◌∷◌, ◌++◌, ◌==◌,
  length, length-append, codes, if◌then◌else◌, u64, arith,
}
use ngx_cache_purge.Queue.Counts.{All}
use ngx_cache_purge.Reply.Escape.{Writer, WriterLaws}
use ngx_cache_purge.Reply.Body.{quoted_bool}
use ngx_cache_purge.Refresh.Batch.{
  RefreshEntry, RefreshResult, pending, kept, invalidated, transport, upstream_status, vary,
  profile, replaced,
}
use ngx_cache_purge.Refresh.Smallest.{Sized}
use ngx_cache_purge.Refresh.Job.{Job}
use ngx_cache_purge.Refresh.Step.{is_complete}

-- The table of the results.
unfoldable pub result_word : RefreshResult → List ℕ
result_word pending = codes "undispatched"
result_word kept = codes "kept"
result_word invalidated = codes "invalidated"
result_word transport = codes "transport_error"
result_word upstream_status = codes "upstream_status"
result_word vary = codes "skipped_vary"
result_word profile = codes "skipped_profile"
result_word replaced = codes "raced_replaced"
result_word RefreshResult.error = codes "invalidation_error"

unfoldable pub row : Writer → Bool → RefreshEntry → List ℕ
row w first e =
    (if first then [] else codes ",")
    ++ codes "{\"hash\":\""
    ++ e.hash
    ++ codes "\",\"upstream_status\":"
    ++ w.decimal e.status
    ++ codes ",\"result\":\""
    ++ result_word e.result
    ++ codes "\"}"

-- The loop over the entries.
unfoldable pub rows : Writer → Bool → List RefreshEntry → List ℕ
rows w first [] = []
rows w first (e ∷ entries) = row w first e ++ rows w false entries

-- The entries of a scan that is not complete are not reported.
abbrev pub reported : Job → List RefreshEntry
reported j = if is_complete j.scan then j.entries else []

abbrev pub is_whole : Bool → Job → Bool
is_whole more j = is_complete j.scan && not more && j.position == length (reported j)

-- What stands before the rows; `scanned` is `scan->count`. A scan that failed has another reply.
unfoldable pub opening : Writer → Bool → ℕ → Job → List ℕ
opening w more scanned j =
    codes "{\"code\":\""
    ++ (if is_whole more j then codes "refresh_complete" else codes "refresh_incomplete")
    ++ codes "\",\"scan_complete\":"
    ++ quoted_bool (is_complete j.scan)
    ++ codes ",\"complete\":"
    ++ quoted_bool (is_whole more j)
    ++ codes ",\"timed_out\":"
    ++ quoted_bool j.timed_out
    ++ codes ",\"scan_error\":false,\"undispatched\":"
    ++ w.decimal ((scanned + u64 - j.position) % u64)
    ++ codes ",\"next_cursor\":\""
    ++ j.after
    ++ codes "\",\"results\":["

unfoldable pub report : Writer → Bool → ℕ → Job → List ℕ
report w more scanned j = opening w more scanned j ++ rows w true (reported j) ++ codes "]}"

abbrev pub report_size : Job → ℕ
report_size j = 1024 + length (reported j) * 160

-- The statuses are numbers of the machine.
abbrev pub IsStatused : List RefreshEntry → Type 0
IsStatused = All (λ e. e.status < u64)

module _ (w : Writer) (laws : WriterLaws w) where
  length-result_word : (r : RefreshResult) → length (result_word r) ≤ 18
  unfolding result_word
  length-result_word pending = omega arith
  length-result_word kept = omega arith
  length-result_word invalidated = omega arith
  length-result_word transport = omega arith
  length-result_word upstream_status = omega arith
  length-result_word vary = omega arith
  length-result_word profile = omega arith
  length-result_word replaced = omega arith
  length-result_word RefreshResult.error = omega arith

  length-row :
      (first : Bool) (e : RefreshEntry)
      → length e.hash ≡ 32
      → e.status < u64
      → length (row w first e) ≤ 160
  unfolding row
  length-row true e size small =
      simp length-append
        (omega (arith, size, laws.decimal_length e.status small, length-result_word e.result))
  length-row false e size small =
      simp length-append
        (omega (arith, size, laws.decimal_length e.status small, length-result_word e.result))

  length-rows :
      (first : Bool) (entries : List RefreshEntry)
      → Sized entries
      → IsStatused entries
      → length (rows w first entries) ≤ length entries * 160
  unfolding rows
  length-rows first [] sized small = omega arith
  length-rows first (e ∷ entries) (size, sized) (lt, small) =
      simp length-append
        (omega (arith, length-row first e size lt, length-rows false entries sized small))

  length-quoted_bool : (b : Bool) → length (quoted_bool b) ≤ 5
  length-quoted_bool true = omega arith
  length-quoted_bool false = omega arith

  length-opening :
      (more : Bool) (scanned : ℕ) (j : Job)
      → length j.after ≡ 32
      → length (opening w more scanned j) ≤ 1000
  unfolding opening
  length-opening more scanned j size =
      let number = laws.decimal_length ((scanned + u64 - j.position) % u64) (omega arith) in
      let word : length
            (if is_whole more j then codes "refresh_complete" else codes "refresh_incomplete")
          ≤ 18 =
        ground arith in
      simp length-append (
        omega (
          arith,
          size,
          number,
          word,
          length-quoted_bool (is_complete j.scan),
          length-quoted_bool (is_whole more j),
          length-quoted_bool j.timed_out,
        ))

  -- The reply to a refresh, with a cursor and hashes of 32 bytes and statuses of 64 bits, fits the
  -- buffer that is allocated for it, however far the job has come.
  pub report-fits :
      (more : Bool) (scanned : ℕ) (j : Job)
      → length j.after ≡ 32
      → Sized (reported j)
      → IsStatused (reported j)
      → length (report w more scanned j) ≤ report_size j
  unfolding report
  report-fits more scanned j size sized small =
      simp length-append (
        omega
          (arith, length-opening more scanned j size, length-rows true (reported j) sized small))
