-- ===== src/Refresh/Credit.antt =====
-- What a job takes of the probes that the workers share.
use ngx_cache_purge.Prelude.{
  ℕ, ◌+◌, ◌≡◌, ◌≢◌, ◌∙◌, Bool, true, false, ◌&&◌, ◌||◌, not, List, [], ◌∷◌, inl, inr, Bool-cases,
  Option-cases, if◌then◌else◌, arith,
}
use ngx_cache_purge.Ngx.{Text, Slab}
use ngx_cache_purge.Queue.State.{Queue}
use ngx_cache_purge.Queue.Enqueue.{Namespace}
use ngx_cache_purge.Queue.Probe.{probe_credit, sweep_live, give}
use ngx_cache_purge.Refresh.Batch.{RefreshEntry}
use ngx_cache_purge.Refresh.Job.{
  Job, Credited, ProbeEnv, probe, refusal, credit, entry_at, set_result, scanning,
}
use ngx_cache_purge.Refresh.Job as Jobs
use ngx_cache_purge.Refresh.Step.{
  Run, Slice, Stepped, step, scan_on, after_scan, next_entry, handle_entry, refresh_scan,
  refresh_cleanup, decide, decided, namespace_or,
}
use ngx_cache_purge.Refresh.Paired.{IsPaired, ends, done-IsPaired, step-StepOk, cleanup_gives}
use ngx_cache_purge.Refresh.Harmless.{Event, timer, answer, cleanup, World, play, with_probes}

-- The probes that a job has.
abbrev pub held : Job → ℕ
held j = if j.credit then 1 else 0

-- What the slot counts beside the probe of the job.
abbrev pub IsCovered : ℕ → ℕ → Job → (ℕ → ℕ) → Type 0
IsCovered slot others j probes = probes slot ≡ others + held j

module _ (max_processes : ℕ) (process_alive : ℕ → Bool) (owners : ℕ → ℕ) (slot : ℕ)
    (owned : owners slot ≢ 0) (alive : process_alive (owners slot) ≡ true) (others : ℕ) where
  give-IsCovered :
      (locked : Bool) (j : Job) (probes : ℕ → ℕ)
      → IsCovered slot others j probes
      → let out = credit max_processes process_alive owners slot false locked j probes in
        IsCovered slot others out.job out.probes
  unfolding credit probe_credit give
  give-IsCovered locked j probes h = ground (arith, h)

  take-IsCovered :
      (locked : Bool) (j : Job) (probes : ℕ → ℕ)
      → j.credit ≡ false
      → IsCovered slot others j probes
      → let out = credit max_processes process_alive owners slot true locked j probes in
        IsCovered slot others out.job out.probes
  unfolding credit probe_credit
  take-IsCovered locked j probes free h =
      let live =
        sweep_live max_processes process_alive owners max_processes probes slot owned alive in
      ground (arith, free, h, live)

  cleanup-IsCovered :
      (j : Job) (probes : ℕ → ℕ)
      → IsCovered slot others j probes
      → let out = refresh_cleanup max_processes process_alive owners slot j probes in
        IsCovered slot others out.job out.probes
  unfolding refresh_cleanup
  cleanup-IsCovered j probes h = give-IsCovered true j probes h

  module _ (text : Text) where
    probe-IsCovered :
        {T : Type 0} (env : ProbeEnv) (ns : Namespace T) (e : RefreshEntry) (j : Job)
        (probes : ℕ → ℕ)
        → j.credit ≡ false
        → IsCovered slot others j probes
        → let out = probe text max_processes process_alive owners slot env ns e j probes in
          IsCovered slot others out.job out.probes
    unfolding probe
    probe-IsCovered env ns e j probes free h =
        let taken = credit max_processes process_alive owners slot true env.locked j probes in
        let kept = take-IsCovered env.locked j probes free h in
        ground (arith, h, kept, give-IsCovered true taken.job taken.probes kept)

    done-IsCovered :
        (status : ℕ) (j : Job) (probes : ℕ → ℕ)
        → IsCovered slot others j probes
        → let out = Jobs.done text max_processes process_alive owners slot status j probes in
          IsCovered slot others out.job out.probes
    unfolding Jobs.done
    done-IsCovered status j probes h =
        ground (arith, h, give-IsCovered true (record j { active = false }) probes h)

  module _ {S T : Type 0} (text : Text) (caseless : Bool) (slab : Slab S) (ns_slab : Slab T) where
    abbrev Covers : Stepped S T → Type 0
    Covers s = IsCovered slot others s.job s.probes

    handle_entry-Covers :
        (run : Run) (e : RefreshEntry) (j : Job) (q : Queue S) (ns : Namespace T) (probes : ℕ → ℕ)
        → j.credit ≡ false
        → IsCovered slot others j probes
        → Covers (
            handle_entry text caseless slab ns_slab max_processes process_alive owners slot run e j
              q ns probes)
    unfolding handle_entry
    handle_entry-Covers run e j q ns probes free h =
        ground (arith, h, probe-IsCovered text run.probe_env ns e j probes free h)

    next_entry-Covers :
        (run : Run) (e : RefreshEntry) (j : Job) (q : Queue S) (ns : Namespace T) (probes : ℕ → ℕ)
        → j.credit ≡ false
        → IsCovered slot others j probes
        → Covers (
            next_entry text caseless slab ns_slab max_processes process_alive owners slot run e j q
              ns probes)
    unfolding next_entry
    next_entry-Covers run e j q ns probes free h =
        let out = decide text caseless slab ns_slab run.request ns e q in
        let result = decided out.rc in
        let j' = set_result result j in
        ground (
          arith,
          h,
          handle_entry-Covers run e j q ns probes free h,
          handle_entry-Covers run (record e { result = result }) (record j' { decision = false })
              out.queue (namespace_or ns out.namespace) probes free h,
        )

    after_scan-Covers :
        (run : Run) (j : Job) (q : Queue S) (ns : Namespace T) (probes : ℕ → ℕ)
        → j.credit ≡ false
        → IsCovered slot others j probes
        → Covers (
            after_scan text caseless slab ns_slab max_processes process_alive owners slot run j q ns
              probes)
    unfolding after_scan
    after_scan-Covers run j q ns probes free h =
        elim (Option-cases (entry_at j.position j.entries)) [
          | inl nil ↦ ground (arith, h, nil)
          | inr (e, found) ↦ ground (arith, h, found, next_entry-Covers run e j q ns probes free h)
        ]

    refresh_scan_credit :
        (late : Bool) (s : Slice) (j : Job) → (refresh_scan late s j).credit ≡ j.credit
    unfolding refresh_scan
    refresh_scan_credit late s j = ground arith

    scan_on-Covers :
        (run : Run) (j : Job) (q : Queue S) (ns : Namespace T) (probes : ℕ → ℕ)
        → j.credit ≡ false
        → IsCovered slot others j probes
        → Covers (
            scan_on text caseless slab ns_slab max_processes process_alive owners slot run j q ns
              probes)
    unfolding scan_on
    scan_on-Covers run j q ns probes free h =
        let j' = refresh_scan run.late run.slice j in
        let same = refresh_scan_credit run.late run.slice j in
        let h' : IsCovered slot others j' probes = rw same h in
        ground (
          arith,
          h,
          h',
          after_scan-Covers run j q ns probes free h,
          after_scan-Covers run j' q ns probes (same ∙ free) h',
        )

    step-Covers :
        (run : Run) (j : Job) (q : Queue S) (ns : Namespace T) (probes : ℕ → ℕ)
        → IsPaired j
        → IsCovered slot others j probes
        → Covers (
            step text caseless slab ns_slab max_processes process_alive owners slot run j q ns
              probes)
    unfolding step
    step-Covers run j q ns probes paired h = elim (Bool-cases j.active) [
      | inl busy ↦ ground (arith, busy, h)
      | inr quiet ↦
          let over = j.timed_out || run.late || run.exiting in
          let j' = record j { timed_out = over } in
          let free : j.credit ≡ false = paired ∙ quiet in
          ground (
            arith,
            quiet,
            h,
            scan_on-Covers run j' q ns probes free h,
            scan_on-Covers run (record j' { scan = scanning }) q ns probes free h,
          )
    ]

    -- With a slot of a live worker: over any course of events, the end of the request included, the
    -- slot counts one probe more than the others of the worker while the job has a credit, and the
    -- others alone while it has none; and the job has none without a probe of it under way.
    pub play-IsCovered :
        (es : List Event) (w : World S T)
        → IsPaired w.job
        → w.queue.probes slot ≡ others + held w.job
        → let w' = play text caseless slab ns_slab max_processes process_alive owners slot es w in
          (w'.queue.probes slot ≡ others + held w'.job)
          × ((w'.job.credit && not w'.job.active) ≡ false)
    unfolding play
    play-IsCovered [] w paired h = (h, ground (arith, paired))
    play-IsCovered (cleanup ∷ es) w paired h = (
      cleanup-IsCovered w.job w.queue.probes h,
      ground (arith, cleanup_gives max_processes process_alive owners slot w.job w.queue.probes),
    )
    play-IsCovered (answer status ∷ es) w paired h =
        play-IsCovered es _
          (done-IsPaired text max_processes process_alive owners slot status w.job w.queue.probes
            paired)
          (done-IsCovered text status w.job w.queue.probes h)
    play-IsCovered (timer run ∷ es) w paired h =
        let s =
          step text caseless slab ns_slab max_processes process_alive owners slot run w.job w.queue
            w.namespace w.queue.probes in
        let w' : World S T = record {
          job = s.job;
          queue = with_probes s.queue s.probes;
          namespace = s.namespace;
        } in
        let covered = step-Covers run w.job w.queue w.namespace w.queue.probes paired h in
        let paired' =
          (step-StepOk text caseless slab ns_slab max_processes process_alive owners slot run w.job
            w.queue w.namespace w.queue.probes paired).0 in
        elim (Bool-cases (ends s.turn)) [
          | inl over ↦ rw over (covered, ground (arith, paired'))
          | inr goes ↦ rw goes (play-IsCovered es w' paired' covered)
        ]
