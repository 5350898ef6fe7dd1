-- ===== src/Queue/Index/Moves.antt =====
-- A task that moves from one place in the lists to another, as a permutation of the nodes.
use mathlib.Core.List.{Perm, perm_middle, map-append}
use mathlib.Core.List.Perm
use ngx_cache_purge.Prelude.{ℕ, ◌≡◌, sym, ◌∙◌, List, ◌∷◌, ◌++◌}
use ngx_cache_purge.Queue.Task.{Task}
use ngx_cache_purge.Queue.State.{Entry, modify, insert_tail}
use ngx_cache_purge.Queue.Enqueue.{touched}
use ngx_cache_purge.Queue.Index.{entry_of, entries, perm-insert_tail, entries-modify}

-- A task that moves to the end of the pending list, or of the active one.
pub perm-to_pending :
    (t : Task) (ps rs : List Task) → Perm (insert_tail t ps ++ rs) (t ∷ (ps ++ rs))
perm-to_pending t ps rs = Perm.append (perm-insert_tail t ps) (Perm.refl rs)

pub perm-to_active : (t : Task) (ps rs : List Task) → Perm (ps ++ insert_tail t rs) (t ∷ (ps ++ rs))
perm-to_active t ps rs =
    Perm.trans (Perm.append (Perm.refl ps) (perm-insert_tail t rs)) (perm_middle ps rs)

-- The same tasks, up to one that was changed in other fields.
pub entries_of :
    (t t' : Task) (ts us vs : List Task)
    → entry_of t' ≡ entry_of t
    → Perm ts (t ∷ vs)
    → Perm us (t' ∷ vs)
    → Perm (entries ts) (entries us)
entries_of t t' ts us vs e p q =
    Perm.trans (Perm.map entry_of p)
      (Perm.trans (Perm.cons' (sym e) (Perm.refl (entries vs))) (Perm.symm (Perm.map entry_of q)))

pub touched_both :
    (p addr : ℕ) (ps rs : List Task)
    → entries (modify addr (touched p) ps ++ modify addr (touched p) rs) ≡ entries (ps ++ rs)
touched_both p addr ps rs =
    map-append entry_of (modify addr (touched p) ps) (modify addr (touched p) rs)
    ∙ rw (entries-modify addr p ps, entries-modify addr p rs) (sym (map-append entry_of (ps) (rs)))

pub admitted-Perm :
    (t : Task) (index : List Entry) (ps rs : List Task)
    → Perm index (entries (ps ++ rs))
    → Perm (entry_of t ∷ index) (entries (insert_tail t ps ++ rs))
admitted-Perm t index ps rs h =
    Perm.trans (Perm.cons (entry_of t) h) (Perm.symm (Perm.map entry_of (perm-to_pending t ps rs)))
