-- ===== src/Reply/Tests.antt =====
-- The theorems on replies at concrete replies, with simple writers.
use ngx_cache_purge.Prelude.{
  ℕ, ◌≤◌, ◌≡◌, refl, Bool, true, false, List, [], ◌∷◌, some, leb, length, take, drop, codes,
  bytes_eq, bytes_eq_refl, eq_of_bytes_eq, arith,
}
use ngx_cache_purge.Reply.Catalog.{response, responses, entry_at}
use ngx_cache_purge.Reply.Headers.{
  Header, SameLetters, set_header, is_named, response_headers, code_header, control_header,
  no_store,
}
use ngx_cache_purge.Reply.Samples.{plain, plain_laws}
use ngx_cache_purge.Reply.Escape.{
  ResponseType, text_key, text_loop, next_char, is_bad_char, escape_cdata, is_terminator,
}
use ngx_cache_purge.Reply.Cdata.{line_ends, read_section}
use ngx_cache_purge.Reply.Body.{
  Result, Client, before_key, body, encoded_key, buffer_size, size_max,
}
use ngx_cache_purge.Reply.Bounds.{body-fits}
use ngx_cache_purge.Reply.Disclosure.{after_section, read_section-body}

abbrev exact : List ℕ → List ℕ → ℕ → Bool
exact a b n = bytes_eq (take n a) (take n b)

exact_laws : SameLetters exact
exact_laws = record {
  letters_refl = λ a n. bytes_eq_refl (take n a);
  letters_sym = λ a b n h. rw (eq_of_bytes_eq (take n a) (take n b) h) (bytes_eq_refl (take n b));
  letters_trans = λ a b c n h h'. rw (eq_of_bytes_eq (take n a) (take n b) h) h';
}

abbrev key : List ℕ
key = codes "a]]>b"

abbrev binary_key : List ℕ
binary_key = 255 ∷ 1 ∷ []

abbrev counted : Result
counted = record { code = 0; deleted = 3; delete_errors = 0; scan_errors = 0; counted = true }

abbrev failing : Result
failing = record { code = 13; deleted = 3; delete_errors = 1; scan_errors = 0; counted = true }

abbrev client : Client
client = record {
  response_type = ResponseType.xml;
  is_status = false;
  is_refresh = false;
  cache_key = some key;
  is_main = true;
  headers = [];
  header_room = (true, true);
  key_room = true;
  body_room = true;
}

escaped : escape_cdata key ≡ codes "a]]]]><![CDATA[>b"
unfolding escape_cdata is_terminator
escaped = refl

binary : encoded_key plain true binary_key ≡ some (codes "AAAA", codes "base64")
unfolding encoded_key text_key text_loop next_char is_bad_char
binary = refl

body-fits_example :
    (length (body plain ResponseType.html (codes "AAAA") (codes "base64") (response 0) counted)
      ≤ buffer_size (codes "AAAA"))
    × (buffer_size (codes "AAAA") ≤ size_max)
body-fits_example =
    body-fits plain plain_laws true ResponseType.html binary_key (codes "AAAA") (codes "base64")
      counted binary (omega arith)
      (record {
        deleted_lt = omega arith;
        delete_errors_lt = omega arith;
        scan_errors_lt = omega arith;
      })

purged_good : leb 400 (response 0).status ≡ false
unfolding response responses entry_at
purged_good = refl

read_section-body_example :
    read_section (
      drop
        (length (before_key ResponseType.xml))
        (body plain ResponseType.xml key (codes "utf-8") (response 0) counted))
    ≡ some (key, line_ends (after_section (codes "utf-8") (response 0)))
read_section-body_example =
    read_section-body plain key (codes "utf-8") (response 0) counted
      (omega arith, (omega arith, (omega arith, (omega arith, (omega arith, tt))))) purged_good

failing_bad : leb 400 (response 13).status ≡ true
unfolding response responses entry_at
failing_bad = refl

abbrev old_header : Header
old_header = record { hash = 1; key = codes "Cache-Control"; value = codes "public" }

abbrev new_headers : List Header
new_headers =
    record { hash = 1; key = control_header; value = no_store }
    ∷ record { hash = 1; key = code_header; value = codes "purged" }
    ∷ []

headers_set : response_headers exact (true, false) 0 (old_header ∷ []) ≡ some (200, new_headers)
unfolding response_headers set_header is_named response responses entry_at bytes_eq
headers_set = refl
