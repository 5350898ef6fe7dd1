-- ===== src/Request/Report.antt =====
-- What the reply to a purge that was done at once is worth.
use ngx_cache_purge.Prelude.{ℕ, ◌≡◌, ◌↔◌, refl, true, false, List, Bool-cases, inl, inr, arith}
use ngx_cache_purge.Ngx.{Rc, is_ok}
use ngx_cache_purge.Walk.Native.{Disk}
use ngx_cache_purge.Walk.Accounts.{has_file, has_file-descend}
use ngx_cache_purge.Walk.Tree.{Shared}
use ngx_cache_purge.Walk.Delete.{Context}
use ngx_cache_purge.Reply.Catalog.{
  response, responses, entry_at, number, internal_error, delete_failed, scan_failed, purged,
  no_match,
}
use ngx_cache_purge.Request.Purge.{walk_code, walk_reply, open_found, file_cache_purge}

internal_error_status : (response (number internal_error)).status ≡ 500
unfolding response responses entry_at number
internal_error_status = refl

delete_failed_status : (response (number delete_failed)).status ≡ 500
unfolding response responses entry_at number
delete_failed_status = refl

scan_failed_status : (response (number scan_failed)).status ≡ 500
unfolding response responses entry_at number
scan_failed_status = refl

purged_status : (response (number purged)).status ≡ 200
unfolding response responses entry_at number
purged_status = refl

no_match_status : (response (number no_match)).status ≡ 200
unfolding response responses entry_at number
no_match_status = refl

walk_reply_good :
    (ctx : Context) (rc : Rc)
    → (response (walk_reply ctx rc).code).status ≡ 200
    → (is_ok rc ≡ true) × (ctx.delete_errors ≡ 0) × (ctx.scan_errors ≡ 0)
unfolding walk_reply walk_code
walk_reply_good ctx rc h =
    ground (arith, h, internal_error_status, delete_failed_status, scan_failed_status)

walk_reply_status :
    (ctx : Context) (rc : Rc)
    → (is_ok rc ≡ true) × (ctx.delete_errors ≡ 0) × (ctx.scan_errors ≡ 0)
    → (response (walk_reply ctx rc).code).status ≡ 200
unfolding walk_reply walk_code
walk_reply_status ctx rc h = ground (arith, h, purged_status, no_match_status)

-- The reply to a walk has the status 200 exactly when the walk came to its end and neither a removal
-- nor a step of the scan failed.
pub walk_reply_iff :
    (ctx : Context) (rc : Rc)
    → ((response (walk_reply ctx rc).code).status ≡ 200)
      ↔ ((is_ok rc ≡ true) × (ctx.delete_errors ≡ 0) × (ctx.scan_errors ≡ 0))
walk_reply_iff ctx rc = (walk_reply_good ctx rc, walk_reply_status ctx rc)

module _ {D : Type 0} (disk : Disk D) where
  -- When the entry of a key has been opened, the native cache finds no file for its hash after the
  -- purge, whatever the removal of the file says.
  pub file_cache_purge-gone :
      (name : List ℕ) (key : ℕ) (rest : List ℕ) (sh : Shared) (d : D)
      → has_file key rest (file_cache_purge disk open_found name key rest sh d).shared.rbtree
        ≡ false
  unfolding file_cache_purge
  file_cache_purge-gone name key rest sh d = elim (Bool-cases (has_file key rest sh.rbtree)) [
    | inl e ↦ ground (arith, e, has_file-descend key rest sh.rbtree sh.size)
    | inr e ↦ ground (arith, e)
  ]
