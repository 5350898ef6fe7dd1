-- ===== src/Walk/Key.antt =====
-- `ngx_http_cache_purge_read_key`: the bounded reader of the key of a cache file.
use ngx_cache_purge.Prelude.{
  ℕ, ◌+◌, ◌-◌, Bool, ◌&&◌, ◌||◌, not, List, [], ◌∷◌, none, some, leb, ◌==◌, if◌then◌else◌, min,
  length, take, drop, bytes_eq,
}
use ngx_cache_purge.FilePath.{char_at}
use ngx_cache_purge.Walk.Native.{Header, Native, File, missing, other, Opened, opened, failed}

-- What a successful reader hands back: the count, the bytes of the buffer, the length of the key in
-- it, and the size of the file.
pub record Entry : Type 0 where
  pub count : ℕ
  pub key_buffer : List ℕ
  pub entry_key_len : ℕ
  pub file_size : ℕ

-- A count of bytes, `NGX_DECLINED` or `NGX_ERROR`; without a count there is no key, of length 0.
pub data KeyRead : Type 0 where
  got : Entry → KeyRead
  declined error : KeyRead

-- `NGX_CACHE_PURGE_ENTRY_KEY_MAX`.
abbrev pub entry_key_max : ℕ
entry_key_max = 8192

-- `"\nKEY: "`, of `NGX_CACHE_PURGE_KEY_HDR_OFFSET` bytes.
abbrev pub key_marker : List ℕ
key_marker = 10 ∷ b'K' ∷ b'E' ∷ b'Y' ∷ b':' ∷ b' ' ∷ []

abbrev pub marker_len : ℕ
marker_len = 6

module _ (native : Native) where
  -- The offsets and the format that the header states.
  unfoldable pub header_fits : Header → ℕ → Bool
  header_fits h file_size =
      let size = native.sizeof_header + marker_len in
      leb (size + 1) h.header_start
      && leb (h.header_start - size - 1) entry_key_max
      && leb h.header_start h.body_start
      && leb h.body_start file_size
      && h.version == native.version
      && leb h.etag_len native.etag_len
      && leb h.vary_len native.vary_len

  -- The last 32 bytes of the path are the digits, in either case.
  unfoldable pub named_by : List ℕ → List ℕ → Bool
  named_by path hash =
      leb 32 (length path)
      && native.same_caseless (drop (length path - 32) path) (native.hex_dump hash) 32

  -- The file is named by the MD5 of the key, or by the hash of the variant.
  unfoldable pub name_fits : List ℕ → Header → List ℕ → Bool
  name_fits path h key =
      named_by path (native.md5 key) || not (h.vary_len == 0) && named_by path h.variant

  -- The key and the byte after it, at the offset behind the marker.
  unfoldable pub read_buffer : List ℕ → ℕ → Header → ℕ → File → KeyRead
  read_buffer path len h file_size f =
      let size = native.sizeof_header + marker_len in
      let key_len = h.header_start - size - 1 in
      elim (f.read (key_len + 1) size) [
        | none ↦ error
        | some buffer ↦
            if not (length buffer == key_len + 1)
              || not (char_at buffer key_len == 10)
              || not (native.crc32_long (take key_len buffer) == h.crc32)
            then declined
            else if not (name_fits path h (take key_len buffer))
            then declined
            else got (record {
              count = min len (key_len + 1);
              key_buffer = buffer;
              entry_key_len = key_len;
              file_size = file_size;
            })
      ]

  unfoldable pub read_marker : List ℕ → ℕ → Header → ℕ → File → KeyRead
  read_marker path len h file_size f = elim (f.read marker_len native.sizeof_header) [
    | none ↦ error
    | some m ↦ if bytes_eq m key_marker then read_buffer path len h file_size f else declined
  ]

  unfoldable pub read_header : List ℕ → ℕ → ℕ → File → KeyRead
  read_header path len file_size f = elim (f.read native.sizeof_header 0) [
    | none ↦ error
    | some bytes ↦
        if not (length bytes == native.sizeof_header)
        then declined
        else if header_fits (native.parse_header bytes) file_size
        then read_marker path len (native.parse_header bytes) file_size f
        else declined
  ]

  unfoldable pub read_opened : List ℕ → ℕ → File → KeyRead
  read_opened path len f = elim f.info [
    | none ↦ error
    | some none ↦ declined
    | some (some file_size) ↦ read_header path len file_size f
  ]

  -- A file that does not close is an error, whatever was read.
  unfoldable pub read_key : List ℕ → ℕ → Opened → KeyRead
  read_key path len (failed missing) = declined
  read_key path len (failed other) = error
  read_key path len (opened f) = if f.closes then read_opened path len f else error
