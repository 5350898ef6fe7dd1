-- ===== src/Queue/Index.antt =====
-- The index of the tasks: the trees of the paths hold exactly the pending and the active tasks,
-- each key once, and each at an address that the slab has in use.
pub mod Moves
pub mod Admission
pub mod Recovery
pub mod Passes
use mathlib.Core.List.{Perm, Mem, perm_middle, Perm-prop, map-append, mem-cons, not-mem-nil}
use mathlib.Core.List.Perm
use mathlib.Core.Path.{subst}
use mathlib.Core.Logic.Or
use ngx_cache_purge.Prelude.{
  ℕ, zero, suc, ◌+◌, ◌-◌, ◌≡◌, ◌≢◌, refl, ap, sym, ◌∙◌, ◌⊎◌, inl, inr, Bool, true, false, ◌&&◌, not,
  List, [], ◌∷◌, ◌++◌, map, Option, none, some, leb, ◌==◌, if◌then◌else◌, min, length, arith,
  is_empty, Bool-cases, Option-cases, List-cases, bytes_eq, bytes_eq_refl, ==_refl,
}
use ngx_cache_purge.Ngx.{Text, Slab, SlabLaws, Rc, ok}
use ngx_cache_purge.Queue.Task.{Task, requeued, adopt}
use ngx_cache_purge.Queue.State.{
  Queue, Entry, find, remove_entry, modify, insert_tail, at_addr, unlink,
}
use ngx_cache_purge.Queue.Enqueue.{touched}
use ngx_cache_purge.Queue.Process.{rotate}
use ngx_cache_purge.Queue.Counts.{All}

abbrev pub entry_of : Task → Entry
entry_of t = record { path = t.path; key = t.key; addr = t.addr }

abbrev pub entries : List Task → List Entry
entries = map entry_of

-- No other node of the tree has the key, or the address, of a node.
abbrev pub UniqueKeys : List Entry → Type 0
UniqueKeys [] = Unit
UniqueKeys (e ∷ index) = (find e.path e.key index ≡ none) × UniqueKeys index

abbrev pub Absent : ℕ → List Entry → Type 0
Absent addr = All (λ e. (e.addr == addr) ≡ false)

abbrev pub UniqueAddrs : List Entry → Type 0
UniqueAddrs [] = Unit
UniqueAddrs (e ∷ index) = Absent e.addr index × UniqueAddrs index

abbrev pub Held : (ℕ → Bool) → List Entry → Type 0
Held held = All (λ e. held e.addr ≡ true)

pub record IsIndexed {S : Type 0} (held : S → ℕ → Bool) (q : Queue S) : Type 0 where
  pub tasks : Perm q.index (entries (q.pending ++ q.active))
  pub keys : UniqueKeys q.index
  pub addrs : UniqueAddrs q.index
  pub in_use : Held (held q.shpool) q.index

-- Lists of tasks under the operations of the queue.

pub perm-insert_tail : (t : Task) (ts : List Task) → Perm (insert_tail t ts) (t ∷ ts)
unfolding insert_tail
perm-insert_tail t [] = Perm.refl (t ∷ [])
perm-insert_tail t (u ∷ ts) = Perm.trans (Perm.cons u (perm-insert_tail t ts)) (Perm.swap t u ts)

pub perm-rotate : (now n : ℕ) (ts : List Task) → Perm (rotate now n ts).0 ts
unfolding rotate
perm-rotate now zero ts = Perm.refl ts
perm-rotate now (suc n) [] = Perm.refl []
perm-rotate now (suc n) (t ∷ ts) = ground (
  arith,
  Perm.refl (t ∷ ts),
  Perm.trans (perm-rotate now n (insert_tail t ts)) (perm-insert_tail t ts),
)

pub perm-unlink :
    (addr : ℕ) (ts : List Task) (t : Task) → at_addr addr ts ≡ some t → Perm ts (t ∷ unlink addr ts)
unfolding at_addr unlink
perm-unlink addr [] t h = cc
perm-unlink addr (u ∷ ts) t h = elim (Bool-cases (u.addr == addr)) [
  | inl e ↦ rw e (Perm.cons' (ground arith) Perm.rfl)
  | inr e ↦ rw e (
      Perm.trans (Perm.cons u (perm-unlink addr ts t (ground arith)))
        (Perm.swap t u (unlink addr ts)))
]

pub entries-modify :
    (addr p : ℕ) (ts : List Task) → entries (modify addr (touched p) ts) ≡ entries ts
unfolding modify touched
entries-modify addr p [] = refl
entries-modify addr p (t ∷ ts) = ground (arith, entries-modify addr p ts)

pub entry_of-requeued : (now : ℕ) (t : Task) → entry_of (requeued now t) ≡ entry_of t
unfolding requeued
entry_of-requeued now t = ground arith

-- The tree under the removal of a node.

find-remove_entry :
    (path : ℕ) (key : List ℕ) (addr : ℕ) (index : List Entry)
    → find path key index ≡ none
    → find path key (remove_entry addr index) ≡ none
unfolding find remove_entry
find-remove_entry path key addr [] h = h
find-remove_entry path key addr (e ∷ index) h =
    ground (arith, find-remove_entry path key addr index)

pub remove_entry-UniqueKeys :
    (addr : ℕ) (index : List Entry) → UniqueKeys index → UniqueKeys (remove_entry addr index)
unfolding remove_entry
remove_entry-UniqueKeys addr [] u = tt
remove_entry-UniqueKeys addr (e ∷ index) u =
    ground
      (arith, remove_entry-UniqueKeys addr index u.1, find-remove_entry e.path e.key addr index u.0)

remove_entry-Absent :
    (addr other : ℕ) (index : List Entry)
    → Absent other index
    → Absent other (remove_entry addr index)
unfolding remove_entry
remove_entry-Absent addr other [] a = tt
remove_entry-Absent addr other (e ∷ index) a =
    ground (arith, remove_entry-Absent addr other index a.1)

pub remove_entry-UniqueAddrs :
    (addr : ℕ) (index : List Entry) → UniqueAddrs index → UniqueAddrs (remove_entry addr index)
unfolding remove_entry
remove_entry-UniqueAddrs addr [] u = tt
remove_entry-UniqueAddrs addr (e ∷ index) u =
    ground
      (arith, remove_entry-UniqueAddrs addr index u.1, remove_entry-Absent addr e.addr index u.0)

-- The removed address is gone.
pub remove_entry-Absent_self :
    (addr : ℕ) (index : List Entry) → UniqueAddrs index → Absent addr (remove_entry addr index)
unfolding remove_entry
remove_entry-Absent_self addr [] u = tt
remove_entry-Absent_self addr (e ∷ index) u = elim (Bool-cases (e.addr == addr)) [
  | inl same ↦ let eq : e.addr ≡ addr = ground arith in rw same (subst (λ a. Absent a index) eq u.0)
  | inr other ↦ rw other (other, remove_entry-Absent_self addr index u.1)
]

pub Held-remove_entry :
    (held : ℕ → Bool) (addr : ℕ) (index : List Entry)
    → Held held index
    → Held held (remove_entry addr index)
unfolding remove_entry
Held-remove_entry held addr [] h = tt
Held-remove_entry held addr (e ∷ index) h = ground (arith, Held-remove_entry held addr index h.1)

pub Held-change :
    (held held' : ℕ → Bool) (addr : ℕ) (index : List Entry)
    → ((b : ℕ) → (b == addr) ≡ false → held' b ≡ held b)
    → Absent addr index
    → Held held index
    → Held held' index
Held-change held held' addr [] same a h = tt
Held-change held held' addr (e ∷ index) same a h =
    (same e.addr a.0 ∙ h.0, Held-change held held' addr index same a.1 h.1)

-- An address that is not in use is no task's.
pub Absent-of_free :
    (held : ℕ → Bool) (addr : ℕ) (index : List Entry)
    → Held held index
    → held addr ≡ false
    → Absent addr index
Absent-of_free held addr [] h f = tt
Absent-of_free held addr (e ∷ index) h f = (not_held, Absent-of_free held addr index h.1 f)
  where
    not_held : (e.addr == addr) ≡ false
    not_held = elim (Bool-cases (e.addr == addr)) [
      | inl same ↦ let eq : e.addr ≡ addr = ground arith in cc (h.0, f, eq)
      | inr other ↦ other
    ]

Absent-mem :
    (addr : ℕ) (e : Entry) (index : List Entry)
    → Absent addr index
    → Mem e index
    → (e.addr == addr) ≡ false
Absent-mem addr e [] a m = absurd (not-mem-nil m)
Absent-mem addr e (f ∷ index) a m =
    Or.elim (hlevel) (mem-cons.0 m) (λ same. rw same a.0) (Absent-mem addr e index a.1)

pub perm-remove_entry :
    (e : Entry) (index : List Entry)
    → UniqueAddrs index
    → Mem e index
    → Perm index (e ∷ remove_entry e.addr index)
unfolding remove_entry
perm-remove_entry e [] u m = absurd (not-mem-nil m)
perm-remove_entry e (f ∷ index) u m =
    Or.elim Perm-prop (mem-cons.0 m) (λ same. rw (same, ==_refl f.addr) (Perm.refl (f ∷ index)))
      (λ below.
        let apart : (f.addr == e.addr) ≡ false =
          ground (arith, Absent-mem f.addr e index u.0 below) in
        rw apart (
          Perm.trans (Perm.cons f (perm-remove_entry e index u.1 below))
            (Perm.swap e f (remove_entry e.addr index))))
