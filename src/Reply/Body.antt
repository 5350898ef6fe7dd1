-- ===== src/Reply/Body.antt =====
-- The body of a reply and its sending: `ngx_http_cache_purge_reply` and
-- `ngx_http_cache_purge_send_result`.
use ngx_cache_purge.Prelude.{
  ℕ, ◌+◌, ◌-◌, ◌*◌, ◌/◌, Bool, true, false, ◌||◌, List, [], ◌++◌, Option, none, some, ltb, leb,
  ◌==◌, if◌then◌else◌, length, codes,
}
use ngx_cache_purge.Reply.Catalog.{ResultCode, number, accepted, invalidated, Response, response}
use ngx_cache_purge.Reply.Headers.{Header, response_headers, set_header}
use ngx_cache_purge.Reply.Escape.{
  ResponseType, json, html, xml, text, silent, Writer, text_key, escape_key,
}

-- `ngx_http_cache_purge_result_t`.
pub record Result : Type 0 where
  pub code : ℕ
  pub deleted : ℕ
  pub delete_errors : ℕ
  pub scan_errors : ℕ
  pub counted : Bool

-- What the location, the request and its memory bring: the type of the location, whether it
-- reports the status of a queue or refreshes, the first key of the cache of the request, whether
-- it is the main request, its headers, and which allocations succeed.
pub record Client : Type 0 where
  pub response_type : ResponseType
  pub is_status : Bool
  pub is_refresh : Bool
  pub cache_key : Option (List ℕ)
  pub is_main : Bool
  pub headers : List Header
  pub header_room : Bool × Bool
  pub key_room : Bool
  pub body_room : Bool

-- What `ngx_http_send_header` is given.
pub record Head : Type 0 where
  pub status : ℕ
  pub headers : List Header
  pub content_type : List ℕ
  pub content_length : ℕ
  pub header_only : Bool

-- `NGX_HTTP_INTERNAL_SERVER_ERROR`, a head alone, or a head and the buffer of a body, which is
-- the last of the main request.
pub data Sent : Type 0 where
  failed : Sent
  head : Head → Sent
  full : Head → List ℕ → Bool → Sent

abbrev pub is_json : ResponseType → Bool
is_json json = true
is_json _ = false

abbrev pub is_silent : ResponseType → Bool
is_silent silent = true
is_silent _ = false

-- The type of a reply before its status is looked at.
unfoldable pub reply_type : Client → ResponseType
reply_type c = if c.is_status || c.is_refresh then json else c.response_type

abbrev pub quoted_bool : Bool → List ℕ
quoted_bool true = codes "true"
quoted_bool false = codes "false"

-- `%V` writes a string.
unfoldable pub problem : Writer → Response → List ℕ
problem w d =
    codes "{\"type\":\"about:blank\",\"title\":\""
    ++ d.title
    ++ codes "\",\"status\":"
    ++ w.decimal d.status
    ++ codes ",\"detail\":\""
    ++ d.detail
    ++ codes "\",\"code\":\""
    ++ d.code
    ++ codes "\""

abbrev pub content_type : ResponseType → List ℕ
content_type html = codes "text/html"
content_type xml = codes "application/xml"
content_type text = codes "text/plain"
content_type _ = codes "application/json"

-- What stands before the key.
abbrev pub before_key : ResponseType → List ℕ
before_key html =
    codes
      "<!doctype html><html><head><title>Cache Purge</title></head><body><h1>Cache Purge</h1><p>Key: "
before_key xml = codes "<?xml version=\"1.0\" encoding=\"UTF-8\"?><response><Key><![CDATA["
before_key text = codes "Key: "
before_key _ = codes "{\"key\":\""

-- What stands after the key.
unfoldable pub after_key : ResponseType → List ℕ → Response → Bool → Bool → List ℕ
after_key html encoding d complete pending =
    codes "</p><p>Code: "
    ++ d.code
    ++ codes "</p><p>Key encoding: "
    ++ encoding
    ++ codes "</p></body></html>"
after_key xml encoding d complete pending =
    codes "]]></Key><Code>"
    ++ d.code
    ++ codes "</Code><KeyEncoding>"
    ++ encoding
    ++ codes "</KeyEncoding></response>"
after_key text encoding d complete pending =
    codes "\nCode: " ++ d.code ++ codes "\nKey encoding: " ++ encoding ++ codes "\n"
after_key _ encoding d complete pending =
    codes "\",\"key_encoding\":\""
    ++ encoding
    ++ codes "\",\"code\":\""
    ++ d.code
    ++ codes "\",\"complete\":"
    ++ quoted_bool complete
    ++ codes ",\"cleanup_pending\":"
    ++ quoted_bool pending

-- The end of the object, with the counts if the result has them.
unfoldable pub object_end : Writer → Result → List ℕ
object_end w r =
    let counts =
      codes ",\"deleted\":"
      ++ w.decimal r.deleted
      ++ codes ",\"delete_errors\":"
      ++ w.decimal r.delete_errors
      ++ codes ",\"scan_errors\":"
      ++ w.decimal r.scan_errors in
    (if r.counted then counts else []) ++ codes "}"

-- `NGX_HTTP_OK` is 200; the codes for which files are still to be removed.
abbrev pub is_pending : ℕ → Bool
unfolding number
is_pending code = code == number accepted || code == number invalidated

-- What is written into the buffer, for a type that has a body.
unfoldable pub body : Writer → ResponseType → List ℕ → List ℕ → Response → Result → List ℕ
body w t key encoding d r =
    let last = if is_json t then object_end w r else [] in
    if leb 400 d.status
    then problem w d ++ object_end w r
    else before_key t
      ++ escape_key w t key
      ++ after_key t encoding d (d.status == 200) (is_pending r.code)
      ++ last

-- The key that is written, and its encoding; `none` where there is no memory for it.
unfoldable pub encoded_key : Writer → Bool → List ℕ → Option (List ℕ × List ℕ)
encoded_key w room key = elim (text_key w key) [
  | some true ↦ some (key, codes "utf-8")
  | _ ↦ if room then some (w.encode_base64 key, codes "base64") else none
]

-- `(size_t) -1`, and the size of the buffer.
abbrev pub size_max : ℕ
size_max = 18446744073709551615

abbrev pub buffer_size : List ℕ → ℕ
buffer_size key = 2048 + length key * 6

abbrev pub first_key : Option (List ℕ) → List ℕ
first_key none = []
first_key (some key) = key

module _ (same_letters : List ℕ → List ℕ → ℕ → Bool) (w : Writer) (stops : Head → Bool) where
  -- `stops` tells whether `ngx_http_send_header` fails or leaves nothing more to send.
  abbrev pub send : Head → List ℕ → Bool → Sent
  send h b last = if stops h then head h else full h b last

  -- From the choice of the key on, for a reply that is not silent.
  unfoldable pub send_body : Client → Result → List Header → Sent
  send_body c r headers =
      let d = response r.code in
      let is_problem = leb 400 d.status in
      let t = if is_problem then json else reply_type c in
      let key = if is_problem then [] else first_key c.cache_key in
      if ltb ((size_max - 2048) / 8) (length key)
      then failed
      else elim (encoded_key w c.key_room key) [
        | none ↦ failed
        | some (shown, encoding) ↦
            let b = body w t shown encoding d r in
            let h : Head = record {
              status = d.status;
              headers = headers;
              content_type =
                  if is_problem then codes "application/problem+json" else content_type t;
              content_length = length b;
              header_only = false;
            } in
            if c.body_room then send h b c.is_main else failed
      ]

  unfoldable pub send_result : Client → Result → Sent
  send_result c r = elim (response_headers same_letters c.header_room r.code c.headers) [
    | none ↦ failed
    | some (status, headers) ↦
        if is_silent (reply_type c)
        then head (record {
          status = if status == 200 then 204 else status;
          headers = headers;
          content_type = [];
          content_length = 0;
          header_only = true;
        })
        else send_body c r headers
  ]

  unfoldable pub reply : Client → ℕ → Sent
  reply c code =
      send_result c
        (record { code = code; deleted = 0; delete_errors = 0; scan_errors = 0; counted = false })

  -- `allow` is the value of the header; there is room for it or not.
  unfoldable pub method_response : Client → Bool → List ℕ → Sent
  unfolding number
  method_response c room allow =
      elim (set_header same_letters room (codes "Allow") allow c.headers) [
        | none ↦ failed
        | some headers ↦
            reply (record c { headers = headers }) (number ResultCode.method_not_allowed)
      ]
