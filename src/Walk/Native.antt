-- ===== src/Walk/Native.antt =====
-- What the walk uses of nginx, of its cache files and of the file system, as interfaces: none of it
-- is part of this repository.
use ngx_cache_purge.Prelude.{ℕ, Bool, List, Option}

-- The fields of `ngx_http_file_cache_header_t` that are read.
pub record Header : Type 0 where
  pub version : ℕ
  pub header_start : ℕ
  pub body_start : ℕ
  pub crc32 : ℕ
  pub etag_len : ℕ
  pub vary_len : ℕ
  pub variant : List ℕ

-- The size and the reading of the header, the limits of its format, `ngx_crc32_long`, MD5,
-- `ngx_hex_dump`, whether `ngx_strncasecmp` finds no difference in so many bytes, and the 64-bit
-- number that the machine makes of the first 8 bytes of a hash.
pub record Native : Type 0 where
  pub sizeof_header : ℕ
  pub parse_header : List ℕ → Header
  pub version : ℕ
  pub etag_len : ℕ
  pub vary_len : ℕ
  pub crc32_long : List ℕ → ℕ
  pub md5 : List ℕ → List ℕ
  pub hex_dump : List ℕ → List ℕ
  pub same_caseless : List ℕ → List ℕ → ℕ → Bool
  pub hash_key : List ℕ → ℕ

-- A file that was opened. `info` is the size of a regular file, or `none` when `ngx_fd_info`
-- failed; `read` gives the bytes at an offset, fewer at the end of the file, and `none` on an
-- error.
pub record File : Type 0 where
  pub info : Option (Option ℕ)
  pub read : ℕ → ℕ → Option (List ℕ)
  pub closes : Bool

-- A system call fails because the file is missing, or for another reason.
pub data Failure : Type 0 where
  missing other : Failure

pub data Opened : Type 0 where
  opened : File → Opened
  failed : Failure → Opened

-- The file system in a state `D`: `ngx_http_cache_purge_open_entry` and
-- `ngx_http_cache_purge_delete_entry` on a path; `delete` gives the failure, if there is one.
pub record Disk (D : Type 0) : Type 0 where
  pub open_entry : List ℕ → D → Opened
  pub delete_entry : List ℕ → D → Option Failure × D
