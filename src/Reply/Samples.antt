-- ===== src/Reply/Samples.antt =====
-- A writer whose texts need no escapes, to run the replies on.
use ngx_cache_purge.Prelude.{
  ℕ, zero, suc, ◌+◌, ◌*◌, ◌/◌, ◌%◌, ◌≤◌, ◌≡◌, refl, ap, List, [], ◌∷◌, ◌++◌, ◌==◌, if◌then◌else◌,
  length, length-append, arith,
}
use ngx_cache_purge.Reply.Escape.{Writer, WriterLaws}

abbrev digits10 : ℕ → ℕ → List ℕ
digits10 zero n = []
digits10 (suc fuel) n =
    let high = digits10 fuel (n / 10) in (if n / 10 == 0 then [] else high) ++ (48 + n % 10) ∷ []

length-digits10 : (fuel n : ℕ) → length (digits10 fuel n) ≤ fuel
length-digits10 zero n = omega arith
length-digits10 (suc fuel) n =
    let high = length-digits10 fuel (n / 10) in
    let all = length-append (digits10 fuel (n / 10)) ((48 + n % 10) ∷ []) in
    ground (arith, high, all)

abbrev pub fill : ℕ → List ℕ
fill zero = []
fill (suc n) = b'A' ∷ fill n

length-fill : (n : ℕ) → length (fill n) ≡ n
length-fill zero = refl
length-fill (suc n) = ap suc (length-fill n)

abbrev pub plain : Writer
plain = record {
  utf8_decode = λ s. (1114112, 1);
  escape_json = λ s. s;
  escape_html = λ s. s;
  encode_base64 = λ s. fill ((length s + 2) / 3 * 4);
  decimal = λ n. digits10 20 n;
}

pub plain_laws : WriterLaws plain
plain_laws = record {
  decode_taken = λ s c n e. ground (arith, e);
  json_length = λ s. omega arith;
  html_length = λ s. omega arith;
  base64_length = λ s. length-fill _;
  decimal_length = λ n small. length-digits10 20 n;
}
