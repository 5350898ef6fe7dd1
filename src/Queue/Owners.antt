-- ===== src/Queue/Owners.antt =====
-- The recovery takes back every task of a worker that is gone, and none of a worker that runs.
use mathlib.Core.List.{append-nil, Mem, mem-cons}
use mathlib.Core.List.Perm
use mathlib.Core.Logic.Or
use mathlib.Core.Path.{subst}
use ngx_cache_purge.Prelude.{
  ◌≤◌, ◌≡◌, refl, ap, sym, ◌∙◌, Bool, true, false, List, [], ◌∷◌, ◌++◌, Option, min, length, arith,
  Bool-cases, inl, inr, List-cases, ℕ, zero, suc,
}
use ngx_cache_purge.Queue.Task.{Task}
use ngx_cache_purge.Queue.State.{Queue, insert_tail}
use ngx_cache_purge.Queue.Recover.{
  is_owned, walk_entries, take_back, recover_one, recover_loop, recover,
}
use ngx_cache_purge.Queue.Counts.{All, IsCounted}
use ngx_cache_purge.Queue.Index.{perm-insert_tail}

insert_tail-append :
    (t : Task) (xs ys : List Task) → insert_tail t (xs ++ ys) ≡ xs ++ insert_tail t ys
unfolding insert_tail
insert_tail-append t [] ys = refl
insert_tail-append t (x ∷ xs) ys = ap (◌∷◌ x) (insert_tail-append t xs ys)

module _ {S : Type 0} (process_alive : ℕ → Bool) (slot : Option ℕ) (now : ℕ) where
  -- The worker that claimed a task still has its slot, in the epoch of the claim, and is alive.
  abbrev pub IsHeld : Queue S → Task → Type 0
  IsHeld q t =
      (q.owners t.owner_slot ≡ t.owner)
      × (q.epochs t.owner_slot ≡ t.owner_epoch)
      × (process_alive t.owner ≡ true)

  abbrev Owned : Queue S → Task → Type 0
  Owned q t = is_owned process_alive slot now q t ≡ true

  Owned-IsHeld : (q : Queue S) (t : Task) → Owned q t → IsHeld q t
  unfolding is_owned
  Owned-IsHeld q t h = (ground (arith, h), ground (arith, h), ground (arith, h))

  All-IsHeld : (q : Queue S) (ts : List Task) → All (Owned q) ts → All (IsHeld q) ts
  All-IsHeld q [] h = tt
  All-IsHeld q (t ∷ ts) h = (Owned-IsHeld q t h.0, All-IsHeld q ts h.1)

  insert_tail-Owned :
      (q : Queue S) (t : Task) (ts : List Task)
      → Owned q t
      → All (Owned q) ts
      → All (Owned q) (insert_tail t ts)
  unfolding insert_tail
  insert_tail-Owned q t [] h a = (h, tt)
  insert_tail-Owned q t (u ∷ ts) h a = (a.0, insert_tail-Owned q t ts h a.1)

  -- The slots are what they were.
  pub record SameSlots (q q' : Queue S) : Type 0 where
    pub owners_lem : q'.owners ≡ q.owners
    pub epochs_lem : q'.epochs ≡ q.epochs

  is_owned_same :
      (q q' : Queue S) (t : Task)
      → SameSlots q q'
      → is_owned process_alive slot now q' t ≡ is_owned process_alive slot now q t
  unfolding is_owned
  is_owned_same q q' t s = rw (s.owners_lem, s.epochs_lem) refl

  recover_one-SameSlots :
      (q q' : Queue S) (t : Task) (rest : List Task)
      → SameSlots q q'
      → SameSlots q (recover_one process_alive slot now t rest q')
  unfolding recover_one take_back
  recover_one-SameSlots q q' t rest s = ground (arith, s)

  recover_one-kept :
      (q : Queue S) (t : Task) (rest : List Task)
      → is_owned process_alive slot now q t ≡ true
      → (recover_one process_alive slot now t rest q).active ≡ insert_tail t rest
  unfolding recover_one
  recover_one-kept q t rest e = rw (e, recover_one) refl

  recover_one-taken :
      (q : Queue S) (t : Task) (rest : List Task)
      → is_owned process_alive slot now q t ≡ false
      → (recover_one process_alive slot now t rest q).active ≡ rest
  unfolding recover_one take_back
  recover_one-taken q t rest e = rw (e, recover_one) refl

  recover_loop-Owned :
      (q : Queue S) (xs ys : List Task) (q' : Queue S)
      → SameSlots q q'
      → q'.active ≡ xs ++ ys
      → All (Owned q) ys
      → All (Owned q) (recover_loop process_alive slot now (length xs) q').active
  unfolding recover_loop
  recover_loop-Owned q [] ys q' s e a = subst (All (Owned q)) (sym e) a
  recover_loop-Owned q (x ∷ xs) ys q' s e a =
      let q1 = recover_one process_alive slot now x (xs ++ ys) q' in
      let same = recover_one-SameSlots q q' x (xs ++ ys) s in
      rw (e, recover_loop)
        (elim (Bool-cases (is_owned process_alive slot now q' x)) [
          | inl owned ↦
              recover_loop-Owned q xs (insert_tail x ys) q1 same
                (recover_one-kept q' x (xs ++ ys) owned ∙ insert_tail-append x xs ys)
                (insert_tail-Owned q x ys (sym (is_owned_same q q' x s) ∙ owned) a)
          | inr dead ↦ recover_loop-Owned q xs ys q1 same (recover_one-taken q' x (xs ++ ys) dead) a
        ])

  -- With the lock, and not more running tasks than the rounds of one recovery, the recovery leaves
  -- only active tasks whose worker still has its slot, in the epoch of the claim, and is alive.
  pub recover-IsHeld :
      (q : Queue S)
      → IsCounted q
      → q.running ≤ 64
      → All (IsHeld q) (recover process_alive slot now true q).active
  unfolding recover
  recover-IsHeld q h le =
      let rounds : min q.running 64 ≡ length q.active = omega (arith, h.running_lem, le) in
      let same : SameSlots q q = record { owners_lem = refl; epochs_lem = refl } in
      rw (rounds, recover)
        (All-IsHeld q _ (recover_loop-Owned q q.active [] q same (sym (append-nil q.active)) tt))

  recover_one-Mem :
      (q : Queue S) (t x : Task) (rest : List Task)
      → Owned q t
      → Mem t (x ∷ rest)
      → Mem t (recover_one process_alive slot now x rest q).active
  recover_one-Mem q t x rest held m =
      let apart : true ≡ false → ⊥ = λ e. cc in
      elim (Bool-cases (is_owned process_alive slot now q x)) [
        | inl owned ↦
            rw (recover_one-kept q x rest owned) ((Perm.mem_iff (perm-insert_tail x rest)).1 m)
        | inr dead ↦ rw (recover_one-taken q x rest dead) (
            Or.elim (hlevel) (mem-cons.0 m)
              (λ same. absurd (
                apart (
                  sym held
                  ∙ subst (λ y. is_owned process_alive slot now q y ≡ false) (sym same) dead)))
              (λ later. later))
      ]

  recover_loop-Mem :
      (n : ℕ) (q q' : Queue S) (t : Task)
      → SameSlots q q'
      → Owned q t
      → Mem t q'.active
      → Mem t (recover_loop process_alive slot now n q').active
  unfolding recover_loop
  recover_loop-Mem zero q q' t s held m = m
  recover_loop-Mem (suc n) q q' t s held m = elim (List-cases q'.active) [
    | inl nil ↦ rw (nil, recover_loop) m
    | inr (x, rest, e) ↦
        rw (e, recover_loop)
          (recover_loop-Mem n q (recover_one process_alive slot now x rest q') t
            (recover_one-SameSlots q q' x rest s) held
            (recover_one-Mem q' t x rest (is_owned_same q q' t s ∙ held) (rw e at m)))
  ]

  IsHeld-Owned : (q : Queue S) (t : Task) → IsHeld q t → Owned q t
  unfolding is_owned
  IsHeld-Owned q t (owner, epoch, alive) = ground (arith, owner, epoch, alive)

  -- The recovery leaves a task unchanged among the active ones whose worker still has its slot, in the
  -- epoch of the claim, and is alive.
  recover-Mem :
      (locked : Bool) (q : Queue S) (t : Task)
      → IsHeld q t
      → Mem t q.active
      → Mem t (recover process_alive slot now locked q).active
  unfolding recover
  recover-Mem false q t held m = m
  recover-Mem true q t held m =
      let same : SameSlots q q = record { owners_lem = refl; epochs_lem = refl } in
      recover_loop-Mem (min q.running walk_entries) q q t same (IsHeld-Owned q t held) m
