-- ===== src/Reply/Catalog.antt =====
-- The catalogue of results: `ngx_http_cache_purge_result_code_t` and the table of responses.
use ngx_cache_purge.Prelude.{
  ℕ, zero, suc, ◌≡◌, refl, Bool, true, ◌&&◌, List, [], ◌∷◌, Option, none, some, leb, if◌then◌else◌,
  length, codes, bytes_eq, arith,
}

-- `NGX_PURGE_RESULT_STATUS` is `queue_status`.
pub data ResultCode : Type 0 where
  purged no_match accepted invalidated queue_status refresh_complete refresh_incomplete : ResultCode
  invalid_selector invalid_cursor method_not_allowed access_denied cache_unavailable : ResultCode
  key_mismatch delete_failed scan_failed internal_error : ResultCode

-- The value that C gives the constant.
unfoldable pub number : ResultCode → ℕ
number purged = 0
number no_match = 1
number accepted = 2
number invalidated = 3
number queue_status = 4
number refresh_complete = 5
number refresh_incomplete = 6
number invalid_selector = 7
number invalid_cursor = 8
number method_not_allowed = 9
number access_denied = 10
number cache_unavailable = 11
number key_mismatch = 12
number delete_failed = 13
number scan_failed = 14
number internal_error = 15

-- `NGX_PURGE_RESULT_COUNT`.
abbrev pub result_count : ℕ
result_count = 16

pub record Response : Type 0 where
  pub status : ℕ
  pub code : List ℕ
  pub title : List ℕ
  pub detail : List ℕ

abbrev row : ℕ → List ℕ → List ℕ → List ℕ → Response
row s c t d = record { status = s; code = c; title = t; detail = d }

abbrev internal_row : Response
internal_row =
    row 500 (codes "internal_error") (codes "Internal Server Error")
      (codes "The operation could not be completed; consult the server error log.")

-- `ngx_http_cache_purge_responses`.
unfoldable pub responses : List Response
responses =
    row 200 (codes "purged") (codes "OK") (codes "Matching cache files were deleted.")
    ∷ row 200 (codes "no_match") (codes "OK") (codes "No matching cache entry was found.")
    ∷ row 202 (codes "accepted") (codes "Accepted")
        (codes "Cleanup was accepted; completion is not guaranteed.")
    ∷ row 200 (codes "invalidated") (codes "OK")
        (codes "Logical invalidation is complete; physical cleanup is pending.")
    ∷ row 200 (codes "status") (codes "OK") (codes "Queue status snapshot.")
    ∷ row 200 (codes "refresh_complete") (codes "OK")
        (codes "The refresh scan finished; inspect each entry result.")
    ∷ row 200 (codes "refresh_incomplete") (codes "OK")
        (codes "Refresh is incomplete; inspect the cursor and entry results.")
    ∷ row 400 (codes "invalid_selector") (codes "Bad Request")
        (codes "The selector exceeds the supported key length.")
    ∷ row 400 (codes "invalid_cursor") (codes "Bad Request")
        (codes "Provide one cursor containing exactly 32 hexadecimal digits.")
    ∷ row 405 (codes "method_not_allowed") (codes "Method Not Allowed")
        (codes "Use a method listed in the Allow header.")
    ∷ row 403 (codes "access_denied") (codes "Forbidden")
        (codes "The client is not permitted to purge this cache.")
    ∷ row 500 (codes "cache_unavailable") (codes "Internal Server Error")
        (codes "No usable cache zone is configured for this operation.")
    ∷ row 500 (codes "key_mismatch") (codes "Internal Server Error")
        (codes "The configured cache key does not satisfy the namespace contract.")
    ∷ row 500 (codes "delete_failed") (codes "Internal Server Error")
        (codes "At least one deletion failed; some files may already have been removed.")
    ∷ row 500 (codes "scan_failed") (codes "Internal Server Error")
        (codes "The cache scan failed; some files may already have been processed.")
    ∷ internal_row
    ∷ []

-- The entry of an array at an index; the caller has checked the index.
unfoldable pub entry_at : ℕ → List Response → Response
entry_at n [] = internal_row
entry_at zero (d ∷ ds) = d
entry_at (suc n) (d ∷ ds) = entry_at n ds

-- A number beyond the constants is an internal error.
unfoldable pub response : ℕ → Response
response code =
    let known = if leb result_count code then number internal_error else code in
    entry_at known responses

-- A client's reading of the word of a response.
abbrev pub read_in : List ℕ → List ResultCode → Option ResultCode
unfolding bytes_eq responses entry_at response number
read_in word [] = none
read_in word (c ∷ cs) =
    let rest = read_in word cs in if bytes_eq word (response (number c)).code then some c else rest

abbrev pub all_codes : List ResultCode
all_codes =
    purged ∷ no_match ∷ accepted ∷ invalidated ∷ queue_status ∷ refresh_complete
    ∷ refresh_incomplete ∷ invalid_selector ∷ invalid_cursor ∷ method_not_allowed ∷ access_denied
    ∷ cache_unavailable ∷ key_mismatch ∷ delete_failed ∷ scan_failed ∷ internal_error ∷ []

abbrev pub read_word : List ℕ → Option ResultCode
read_word word = read_in word all_codes

pub read_word-response : (c : ResultCode) → read_word (response (number c)).code ≡ some c
unfolding bytes_eq responses entry_at response number
read_word-response purged = refl
read_word-response no_match = refl
read_word-response accepted = refl
read_word-response invalidated = refl
read_word-response queue_status = refl
read_word-response refresh_complete = refl
read_word-response refresh_incomplete = refl
read_word-response invalid_selector = refl
read_word-response invalid_cursor = refl
read_word-response method_not_allowed = refl
read_word-response access_denied = refl
read_word-response cache_unavailable = refl
read_word-response key_mismatch = refl
read_word-response delete_failed = refl
read_word-response scan_failed = refl
read_word-response internal_error = refl

-- A row that fits what the body of a reply keeps for it.
abbrev pub is_short : Response → Bool
is_short d =
    leb d.status 599
    && leb (length d.code) 32
    && leb (length d.title) 32
    && leb (length d.detail) 80

abbrev all_short : List Response → Bool
all_short [] = true
all_short (d ∷ ds) = is_short d && all_short ds

responses_short : all_short responses ≡ true
unfolding responses
responses_short = refl

short_at : (n : ℕ) (ds : List Response) → all_short ds ≡ true → is_short (entry_at n ds) ≡ true
unfolding entry_at
short_at n [] h = refl
short_at zero (d ∷ ds) h = ground (arith)
short_at (suc n) (d ∷ ds) h = short_at n ds (ground arith)

pub response-is_short : (code : ℕ) → is_short (response code) ≡ true
unfolding response
response-is_short code = short_at _ responses responses_short
