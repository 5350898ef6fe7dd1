-- ===== src/Queue/Counts.antt =====
-- The counters of the queue are the lengths of its lists, their sum stays within the configured
-- size, and a task is marked as running exactly while it is in the active list.
pub mod Admission
pub mod Recovery
pub mod Passes
use mathlib.Core.Path.{subst, sym}
use ngx_cache_purge.Prelude.{
  ℕ, zero, suc, ◌+◌, ◌≤◌, ◌<◌, ◌≡◌, refl, inl, inr, Bool, true, false, List, [], ◌∷◌, Option, some,
  min, length, arith, Option-cases, List-cases,
}
use ngx_cache_purge.Ngx.{Text, Slab}
use ngx_cache_purge.Queue.Task.{Task, requeued}
use ngx_cache_purge.Queue.State.{Queue, modify, insert_tail, at_addr, unlink}
use ngx_cache_purge.Queue.Enqueue.{
  Namespace, Request, touched, enqueue, enqueue_at, admit, deduplicate, new_task,
}
use ngx_cache_purge.Queue.Recover.{recover, recover_loop, recover_one, take_back}
use ngx_cache_purge.Queue.Process.{
  Walker, Work, Worker, rotate, claim, claim_due, claim_head, settle, complete_task, finish,
  advance, go_on, process_queue, claimed_task,
}

abbrev pub All {ℓ κ} : {A : Type ℓ} → (A → Type κ) → List A → Type κ
All P [] = Unit
All P (x ∷ xs) = P x × All P xs

-- The flag `running` of every task of a list.
abbrev pub Flagged : Bool → List Task → Type 0
Flagged b = All (λ t. t.running ≡ b)

pub record IsCounted {S : Type 0} (q : Queue S) : Type 0 where
  pub size_lem : q.size ≡ length q.pending
  pub running_lem : q.running ≡ length q.active
  pub bounded : q.size + q.running ≤ q.max_size
  pub waiting : Flagged false q.pending
  pub running : Flagged true q.active

pub length-insert_tail : (t : Task) (ts : List Task) → length (insert_tail t ts) ≡ length ts + 1
unfolding insert_tail
length-insert_tail t [] = omega arith
length-insert_tail t (u ∷ ts) = omega (arith, length-insert_tail t ts)

pub insert_tail-Flagged :
    (b : Bool) (t : Task) (ts : List Task)
    → t.running ≡ b
    → Flagged b ts
    → Flagged b (insert_tail t ts)
unfolding insert_tail
insert_tail-Flagged b t [] h f = (h, tt)
insert_tail-Flagged b t (u ∷ ts) h f = (f.0, insert_tail-Flagged b t ts h f.1)

pub length-modify :
    (addr : ℕ) (f : Task → Task) (ts : List Task) → length (modify addr f ts) ≡ length ts
unfolding modify
length-modify addr f [] = refl
length-modify addr f (t ∷ ts) = ground (arith, length-modify addr f ts)

pub touched_running : (p : ℕ) (t : Task) → (touched p t).running ≡ t.running
unfolding touched
touched_running p t = ground arith

pub modify-Flagged :
    (b : Bool) (addr p : ℕ) (ts : List Task) → Flagged b ts → Flagged b (modify addr (touched p) ts)
unfolding modify
modify-Flagged b addr p [] f = tt
modify-Flagged b addr p (t ∷ ts) f =
    ground (arith, modify-Flagged b addr p ts f.1, touched_running p t)

pub length-unlink :
    (addr : ℕ) (ts : List Task) (t : Task)
    → at_addr addr ts ≡ some t
    → length (unlink addr ts) + 1 ≡ length ts
unfolding at_addr unlink
length-unlink addr [] t h = cc
length-unlink addr (u ∷ ts) t h = ground (arith, length-unlink addr ts t)

pub unlink-Flagged :
    (b : Bool) (addr : ℕ) (ts : List Task) → Flagged b ts → Flagged b (unlink addr ts)
unfolding unlink
unlink-Flagged b addr [] f = tt
unlink-Flagged b addr (t ∷ ts) f = ground (arith, unlink-Flagged b addr ts f.1)

pub addr-at_addr : (addr : ℕ) (ts : List Task) (t : Task) → at_addr addr ts ≡ some t → t.addr ≡ addr
unfolding at_addr
addr-at_addr addr [] t h = cc
addr-at_addr addr (u ∷ ts) t h = ground (arith, addr-at_addr addr ts t)

pub requeued_running : (now : ℕ) (t : Task) → (requeued now t).running ≡ false
unfolding requeued
requeued_running now t = ground arith

pub length-rotate : (now n : ℕ) (ts : List Task) → length (rotate now n ts).0 ≡ length ts
unfolding rotate
length-rotate now zero ts = refl
length-rotate now (suc n) [] = refl
length-rotate now (suc n) (t ∷ ts) =
    ground (arith, length-rotate now n (insert_tail t ts), length-insert_tail t ts)

pub rotate-Flagged :
    (b : Bool) (now n : ℕ) (ts : List Task) → Flagged b ts → Flagged b (rotate now n ts).0
unfolding rotate
rotate-Flagged b now zero ts f = f
rotate-Flagged b now (suc n) [] f = f
rotate-Flagged b now (suc n) (t ∷ ts) f =
    ground (arith, rotate-Flagged b now n (insert_tail t ts), insert_tail-Flagged b t ts f.0 f.1)
