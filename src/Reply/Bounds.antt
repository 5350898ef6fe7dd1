-- ===== src/Reply/Bounds.antt =====
-- The body of a reply against the buffer of `ngx_http_cache_purge_send_result`.

use ngx_cache_purge.Prelude.{
  ℕ, ◌-◌, ◌*◌, ◌/◌, ◌≤◌, ◌<◌, ◌≡◌, Bool, true, false, List, [], ◌∷◌, some, leb, ◌==◌, length,
  length-append, codes, Bool-cases, Option-cases, inl, inr, ◌⊎◌, u64, arith,
}
use ngx_cache_purge.Reply.Catalog.{Response, response, is_short, response-is_short}
use ngx_cache_purge.Reply.Escape.{
  ResponseType, json, html, xml, text, silent, Writer, WriterLaws, text_key, escape_key,
}
use ngx_cache_purge.Reply.Cdata.{length-escape_cdata, extra_cdata-le}
use ngx_cache_purge.Reply.Body.{
  Result, problem, before_key, after_key, object_end, body, encoded_key, buffer_size, size_max,
  is_json, is_pending,
}

-- The numbers of a result are numbers of the machine.
pub record IsCounts (r : Result) : Type 0 where
  pub deleted_lt : r.deleted < u64
  pub delete_errors_lt : r.delete_errors < u64
  pub scan_errors_lt : r.scan_errors < u64

module _ (w : Writer) (laws : WriterLaws w) where
  length-escape_key :
      (t : ResponseType) (key : List ℕ) → length (escape_key w t key) ≤ 6 * length key
  unfolding escape_key
  length-escape_key t [] = omega arith
  length-escape_key json (c ∷ key) = laws.json_length (c ∷ key)
  length-escape_key html (c ∷ key) = laws.html_length (c ∷ key)
  length-escape_key text (c ∷ key) = omega arith
  length-escape_key xml (c ∷ key) =
      omega (arith, length-escape_cdata (c ∷ key), extra_cdata-le (c ∷ key))
  length-escape_key silent (c ∷ key) =
      omega (arith, length-escape_cdata (c ∷ key), extra_cdata-le (c ∷ key))

  length-object_end : (r : Result) → IsCounts r → length (object_end w r) ≤ 150
  unfolding object_end
  length-object_end r h = elim (Bool-cases r.counted) [
    | inl c ↦ rw c (
        simp length-append (
          omega (
            arith,
            laws.decimal_length r.deleted h.deleted_lt,
            laws.decimal_length r.delete_errors h.delete_errors_lt,
            laws.decimal_length r.scan_errors h.scan_errors_lt,
          )))
    | inr c ↦ rw c (omega arith)
  ]

  length-problem : (d : Response) → is_short d ≡ true → length (problem w d) ≤ 300
  unfolding problem
  length-problem d h =
      simp length-append (ground (arith, laws.decimal_length d.status (ground arith)))

  length-before_key : (t : ResponseType) → length (before_key t) ≤ 150
  length-before_key html = omega arith
  length-before_key xml = omega arith
  length-before_key text = omega arith
  length-before_key json = omega arith
  length-before_key silent = omega arith

  length-after_key :
      (t : ResponseType) (encoding : List ℕ) (d : Response) (complete pending : Bool)
      → length encoding ≤ 6
      → is_short d ≡ true
      → length (after_key t encoding d complete pending) ≤ 200
  unfolding after_key
  length-after_key html encoding d complete pending e h = simp length-append (ground arith)
  length-after_key xml encoding d complete pending e h = simp length-append (ground arith)
  length-after_key text encoding d complete pending e h = simp length-append (ground arith)
  length-after_key json encoding d true true e h = simp length-append (ground arith)
  length-after_key json encoding d true false e h = simp length-append (ground arith)
  length-after_key json encoding d false true e h = simp length-append (ground arith)
  length-after_key json encoding d false false e h = simp length-append (ground arith)
  length-after_key silent encoding d true true e h = simp length-append (ground arith)
  length-after_key silent encoding d true false e h = simp length-append (ground arith)
  length-after_key silent encoding d false true e h = simp length-append (ground arith)
  length-after_key silent encoding d false false e h = simp length-append (ground arith)

  length-body :
      (t : ResponseType) (key encoding : List ℕ) (r : Result)
      → length encoding ≤ 6
      → IsCounts r
      → length (body w t key encoding (response r.code) r) ≤ buffer_size key
  unfolding body
  length-body t key encoding r e h =
      let d = response r.code in
      let short = response-is_short r.code in
      let before = length-before_key t in
      let escaped = length-escape_key t key in
      let after = length-after_key t encoding d (d.status == 200) (is_pending r.code) e short in
      let end = length-object_end r h in
      elim (Bool-cases (leb 400 d.status)) [
        | inl bad ↦ rw bad (simp length-append (omega (arith, length-problem d short, end)))
        | inr good ↦ elim (Bool-cases (is_json t)) [
          | inl j ↦ rw (good, j) (simp length-append (omega (arith, before, escaped, after, end)))
          | inr j ↦ rw (good, j) (simp length-append (omega (arith, before, escaped, after)))
        ]
      ]

  encoded_key-cases :
      (room : Bool) (key shown encoding : List ℕ)
      → encoded_key w room key ≡ some (shown, encoding)
      → (shown ≡ key) × (encoding ≡ codes "utf-8")
        ⊎ (shown ≡ w.encode_base64 key) × (encoding ≡ codes "base64")
  unfolding encoded_key
  encoded_key-cases true key shown encoding h = elim (Option-cases (text_key w key)) [
    | inl e ↦ inr (ground (arith, e))
    | inr (true, e) ↦ inl (ground (arith, e))
    | inr (false, e) ↦ inr (ground (arith, e))
  ]
  encoded_key-cases false key shown encoding h = elim (Option-cases (text_key w key)) [
    | inl e ↦ ground (arith, e)
    | inr (true, e) ↦ inl (ground (arith, e))
    | inr (false, e) ↦ ground (arith, e)
  ]

  encoded_key-fits :
      (room : Bool) (key shown encoding : List ℕ)
      → encoded_key w room key ≡ some (shown, encoding)
      → length key ≤ (size_max - 2048) / 8
      → (length encoding ≤ 6) × (buffer_size shown ≤ size_max)
  encoded_key-fits room key shown encoding h small =
      elim (encoded_key-cases room key shown encoding h) [
        | inl (s, e) ↦ rw (s, e) (omega arith, omega arith)
        | inr (s, e) ↦ rw (s, e) (omega arith, omega (arith, laws.base64_length key))
      ]

  -- Where the location gives a key of at most (2 ^ 64 - 2049) / 8 bytes and counts of 64 bits, the
  -- body of a reply of any type and code fits the buffer that is allocated for it, and the size of
  -- the buffer is a number of the machine, also for a key that base64 makes longer.
  pub body-fits :
      (room : Bool) (t : ResponseType) (key shown encoding : List ℕ) (r : Result)
      → encoded_key w room key ≡ some (shown, encoding)
      → length key ≤ (size_max - 2048) / 8
      → IsCounts r
      → (length (body w t shown encoding (response r.code) r) ≤ buffer_size shown)
        × (buffer_size shown ≤ size_max)
  body-fits room t key shown encoding r h small counts =
      let (e, size) = encoded_key-fits room key shown encoding h small in
      (length-body t shown encoding r e counts, size)
