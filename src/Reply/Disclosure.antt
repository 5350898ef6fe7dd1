-- ===== src/Reply/Disclosure.antt =====
-- What a client learns of the key: an error tells nothing of it, and a reader of XML has it whole.
use mathlib.Core.List.{append_assoc, append-nil}
use ngx_cache_purge.Prelude.{
  ℕ, ◌≡◌, refl, Bool, true, false, List, [], ◌∷◌, ◌++◌, Option, some, leb, ◌==◌, length, drop,
  strip_prefix, codes, Option-cases, inl, inr,
}
use ngx_cache_purge.Reply.Catalog.{Response, response}
use ngx_cache_purge.Reply.Headers.{Header, response_headers}
use ngx_cache_purge.Reply.Escape.{xml, Writer, escape_key, escape_cdata}
use ngx_cache_purge.Reply.Cdata.{
  HasNoReturn, line_ends, read_section, read_section-escape_cdata, closing,
}
use ngx_cache_purge.Reply.Body.{
  Result, Client, Head, before_key, after_key, body, send_body, send_result, is_pending, reply_type,
}

escape_key_xml : (w : Writer) (key : List ℕ) → escape_key w xml key ≡ escape_cdata key
unfolding escape_key escape_cdata
escape_key_xml w [] = refl
escape_key_xml w (c ∷ key) = refl

-- What follows the key in a reply in XML.
abbrev pub after_section : List ℕ → Response → List ℕ
after_section encoding d =
    codes "</Key><Code>"
    ++ d.code
    ++ codes "</Code><KeyEncoding>"
    ++ encoding
    ++ codes "</KeyEncoding></response>"

after_key_xml :
    (encoding : List ℕ) (d : Response) (complete pending : Bool)
    → after_key xml encoding d complete pending ≡ closing ++ after_section encoding d
unfolding after_key
after_key_xml encoding d complete pending = refl

body_xml :
    (w : Writer) (key encoding : List ℕ) (d : Response) (r : Result)
    → leb 400 d.status ≡ false
    → body w xml key encoding d r
      ≡ before_key xml ++ (escape_cdata key ++ closing ++ after_section encoding d)
unfolding body
body_xml w key encoding d r good =
    rw (good, escape_key_xml w key, after_key_xml encoding d (d.status == 200) (is_pending r.code))
      (simp (append_assoc, append-nil))

-- In an XML reply that is no error, an XML reader that stands after the opening of the CDATA section,
-- and normalises the ends of lines, reads exactly the key that was written, if no byte of it is a
-- carriage return, and then the rest of the reply.
pub read_section-body :
    (w : Writer) (key encoding : List ℕ) (d : Response) (r : Result)
    → HasNoReturn key
    → leb 400 d.status ≡ false
    → read_section (drop (length (before_key xml)) (body w xml key encoding d r))
      ≡ some (key, line_ends (after_section encoding d))
unfolding strip_prefix line_ends
read_section-body w key encoding d r plain good =
    rw (body_xml w key encoding d r good)
      (read_section-escape_cdata key (after_section encoding d) plain refl)

module _ (same_letters : List ℕ → List ℕ → ℕ → Bool) (w : Writer) (stops : Head → Bool) where
  send_body_problem :
      (c : Client) (key : Option (List ℕ)) (r : Result) (hs : List Header)
      → leb 400 (response r.code).status ≡ true
      → send_body same_letters w stops (record c { cache_key = key }) r hs
        ≡ send_body same_letters w stops c r hs
  unfolding send_body reply_type
  send_body_problem c key r hs bad = rw bad refl

  -- A reply with a status of 400 or more is the same whatever key the cache of the request has.
  pub send_result-problem_same :
      (c : Client) (key : Option (List ℕ)) (r : Result)
      → leb 400 (response r.code).status ≡ true
      → send_result same_letters w stops (record c { cache_key = key }) r
        ≡ send_result same_letters w stops c r
  unfolding send_result reply_type
  send_result-problem_same c key r bad =
      elim (Option-cases (response_headers same_letters c.header_room r.code c.headers)) [
        | inl e ↦ rw (e, send_result) refl
        | inr ((status, hs), e) ↦ rw (e, send_body_problem c key r hs bad, send_result) refl
      ]
