-- ===== src/Refresh/Harmless.antt =====
-- What a job does to the queue and to the namespace, over any course of events.
use ngx_cache_purge.Prelude.{
  ℕ, ◌≡◌, inl, inr, refl, ◌∙◌, ap, Bool, false, ◌||◌, List, [], ◌∷◌, if◌then◌else◌, Bool-cases,
  Option-cases, arith,
}
use ngx_cache_purge.Ngx.{Text, Slab}
use ngx_cache_purge.Queue.Counts.{All}
use ngx_cache_purge.Queue.State.{Queue}
use ngx_cache_purge.Queue.Enqueue.{Namespace}
use ngx_cache_purge.Refresh.Batch.{RefreshEntry}
use ngx_cache_purge.Refresh.Job.{
  Job, probe, refusal, credit, is_decisive, entry_at, set_result, scanning,
}
use ngx_cache_purge.Refresh.Job as Jobs
use ngx_cache_purge.Refresh.Step.{
  Run, Slice, Stepped, step, scan_on, after_scan, next_entry, handle_entry, refresh_scan,
  refresh_cleanup,
}
use ngx_cache_purge.Refresh.Paired.{ends, done_decision}

-- A run of the timer, the end of a probe with a status, or the end of the request.
pub data Event : Type 0 where
  timer : Run → Event
  answer : ℕ → Event
  cleanup : Event

-- A job among what it shares; the probes that are under way are in the queue.
pub record World (S T : Type 0) : Type 0 where
  pub job : Job
  pub queue : Queue S
  pub namespace : Namespace T

abbrev pub with_probes : {S : Type 0} → Queue S → (ℕ → ℕ) → Queue S
with_probes q probes = record q { probes = probes }

-- No answer says that an entry is out of date.
abbrev pub IsHarmless : Event → Type 0
IsHarmless (timer run) = Unit
IsHarmless (answer status) = is_decisive status ≡ false
IsHarmless cleanup = Unit

-- The queue and the namespace are as they were, and no decision is open.
abbrev Untouched : {S T : Type 0} → Queue S → Namespace T → Stepped S T → Type 0
Untouched q ns s = (s.queue ≡ q) × (s.namespace ≡ ns) × (s.job.decision ≡ false)

module _ {S T : Type 0} (text : Text) (caseless : Bool) (slab : Slab S) (ns_slab : Slab T)
    (max_processes : ℕ) (process_alive : ℕ → Bool) (owners : ℕ → ℕ) (slot : ℕ) where
  -- The events of a job until it ends; behind the end of the request there is none.
  unfoldable pub play : List Event → World S T → World S T
  play [] w = w
  play (timer run ∷ es) w =
      let s =
        step text caseless slab ns_slab max_processes process_alive owners slot run w.job w.queue
          w.namespace w.queue.probes in
      let w' : World S T = record {
        job = s.job;
        queue = with_probes s.queue s.probes;
        namespace = s.namespace;
      } in
      let rest = play es w' in if ends s.turn then w' else rest
  play (answer status ∷ es) w =
      let c = Jobs.done text max_processes process_alive owners slot status w.job w.queue.probes in
      play es (record w { job = c.job; queue = with_probes w.queue c.probes })
  play (cleanup ∷ es) w =
      let c = refresh_cleanup max_processes process_alive owners slot w.job w.queue.probes in
      record w { job = c.job; queue = with_probes w.queue c.probes }

  probe_decision :
      (env : Jobs.ProbeEnv) (ns : Namespace T) (e : RefreshEntry) (j : Job) (probes : ℕ → ℕ)
      → (probe text max_processes process_alive owners slot env ns e j probes).job.decision
        ≡ j.decision
  unfolding probe credit
  probe_decision env ns e j probes = ground arith

  handle_entry-Untouched :
      (run : Run) (e : RefreshEntry) (j : Job) (q : Queue S) (ns : Namespace T) (probes : ℕ → ℕ)
      → j.decision ≡ false
      → Untouched q ns (
          handle_entry text caseless slab ns_slab max_processes process_alive owners slot run e j q
            ns probes)
  unfolding handle_entry
  handle_entry-Untouched run e j q ns probes d =
      ground (arith, d, probe_decision run.probe_env ns e j probes)

  after_scan-Untouched :
      (run : Run) (j : Job) (q : Queue S) (ns : Namespace T) (probes : ℕ → ℕ)
      → j.decision ≡ false
      → Untouched q ns (
          after_scan text caseless slab ns_slab max_processes process_alive owners slot run j q ns
            probes)
  unfolding after_scan next_entry
  after_scan-Untouched run j q ns probes d = elim (Option-cases (entry_at j.position j.entries)) [
    | inl nil ↦ ground (arith, d, nil)
    | inr (e, found) ↦ ground (arith, d, found, handle_entry-Untouched run e j q ns probes d)
  ]

  refresh_scan_decision :
      (late : Bool) (s : Slice) (j : Job) → (refresh_scan late s j).decision ≡ j.decision
  unfolding refresh_scan
  refresh_scan_decision late s j = ground arith

  scan_on-Untouched :
      (run : Run) (j : Job) (q : Queue S) (ns : Namespace T) (probes : ℕ → ℕ)
      → j.decision ≡ false
      → Untouched q ns (
          scan_on text caseless slab ns_slab max_processes process_alive owners slot run j q ns
            probes)
  unfolding scan_on
  scan_on-Untouched run j q ns probes d =
      let j' = refresh_scan run.late run.slice j in
      let d' = refresh_scan_decision run.late run.slice j ∙ d in
      ground (
        arith,
        d,
        d',
        after_scan-Untouched run j q ns probes d,
        after_scan-Untouched run j' q ns probes d',
      )

  step-Untouched :
      (run : Run) (j : Job) (q : Queue S) (ns : Namespace T) (probes : ℕ → ℕ)
      → j.decision ≡ false
      → Untouched q ns (
          step text caseless slab ns_slab max_processes process_alive owners slot run j q ns probes)
  unfolding step
  step-Untouched run j q ns probes d =
      let over = j.timed_out || run.late || run.exiting in
      let j' = record j { timed_out = over } in
      ground (
        arith,
        d,
        scan_on-Untouched run j' q ns probes d,
        scan_on-Untouched run (record j' { scan = scanning }) q ns probes d,
      )

  -- As long as no probe is answered with 200, 404 or 410, a job without an open decision changes
  -- nothing of the queue but the numbers of probes, and nothing of the namespace.
  pub play-harmless :
      (es : List Event) (w : World S T)
      → All IsHarmless es
      → w.job.decision ≡ false
      → ((play es w).queue ≡ with_probes w.queue (play es w).queue.probes)
        × ((play es w).namespace ≡ w.namespace)
  unfolding play
  play-harmless [] w all d = (refl, refl)
  play-harmless (cleanup ∷ es) w all d = (refl, refl)
  play-harmless (answer status ∷ es) w (h, all) d =
      play-harmless es _ all
        (done_decision text max_processes process_alive owners slot status w.job w.queue.probes h d)
  play-harmless (timer run ∷ es) w (h, all) d =
      let s =
        step text caseless slab ns_slab max_processes process_alive owners slot run w.job w.queue
          w.namespace w.queue.probes in
      let w' : World S T = record {
        job = s.job;
        queue = with_probes s.queue s.probes;
        namespace = s.namespace;
      } in
      let (q, ns, d') = step-Untouched run w.job w.queue w.namespace w.queue.probes d in
      let same : (probes : ℕ → ℕ) → with_probes s.queue probes ≡ with_probes w.queue probes =
        λ probes. ap (λ x. with_probes x probes) q in
      elim (Bool-cases (ends s.turn)) [
        | inl over ↦ rw over (same s.probes, ns)
        | inr goes ↦
            let (rest_q, rest_ns) = play-harmless es w' all d' in
            rw goes (rest_q ∙ same (play es w').queue.probes, rest_ns ∙ ns)
      ]
