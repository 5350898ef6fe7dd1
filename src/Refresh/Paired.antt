-- ===== src/Refresh/Paired.antt =====
-- The credit of a job.
use ngx_cache_purge.Prelude.{
  ℕ, ◌≡◌, inl, inr, refl, ◌∙◌, Bool, true, false, ◌||◌, Option, none, some, if◌then◌else◌,
  Bool-cases, Option-cases, arith,
}
use ngx_cache_purge.Ngx.{Text, Slab, is_ok}
use ngx_cache_purge.Queue.State.{Queue}
use ngx_cache_purge.Queue.Enqueue.{Namespace}
use ngx_cache_purge.Queue.Probe.{probe_credit}
use ngx_cache_purge.Refresh.Batch.{RefreshEntry}
use ngx_cache_purge.Refresh.Job.{
  Job, Credited, ProbeEnv, credit, probe, refusal, decides, is_decisive, entry_at, set_result,
  scanning,
}
use ngx_cache_purge.Refresh.Job as Jobs
use ngx_cache_purge.Refresh.Step.{
  Run, Slice, Turn, waits, Stepped, step, scan_on, after_scan, next_entry, handle_entry,
  refresh_scan, refresh_cleanup, decide, decided, namespace_or,
}

-- A job holds a credit exactly while a probe of it is under way.
abbrev pub IsPaired : Job → Type 0
IsPaired j = j.credit ≡ j.active

-- Between two probes.
abbrev Idle : Job → Type 0
Idle j = (j.active ≡ false) × (j.credit ≡ false)

abbrev pub ends : Turn → Bool
ends waits = false
ends _ = true

-- A job that ends holds no credit.
abbrev pub StepOk : {S T : Type 0} → Stepped S T → Type 0
StepOk s = IsPaired s.job × (ends s.turn ≡ true → s.job.credit ≡ false)

scan-Idle : (late : Bool) (s : Slice) (j : Job) → Idle j → Idle (refresh_scan late s j)
unfolding refresh_scan
scan-Idle late s j (a, c) = ground (arith, a, c)

decides_not :
    (status : ℕ) → is_decisive status ≡ false → (o : Option RefreshEntry) → decides status o ≡ false
decides_not status d none = refl
decides_not status d (some e) = ground (arith, d)

module _ (max_processes : ℕ) (process_alive : ℕ → Bool) (owners : ℕ → ℕ) (slot : ℕ) where
  give_ok :
      (locked : Bool) (probes : ℕ → ℕ)
      → is_ok (probe_credit max_processes process_alive owners false locked slot probes).rc ≡ true
  unfolding probe_credit
  give_ok locked probes = refl

  credit_given :
      (locked : Bool) (j : Job) (probes : ℕ → ℕ)
      → let out = credit max_processes process_alive owners slot false locked j probes in
        (out.job.credit ≡ false) × (out.job.active ≡ j.active) × (out.job.decision ≡ j.decision)
  unfolding credit
  credit_given locked j probes = ground (arith, give_ok locked probes)

  credit_taken :
      (locked : Bool) (j : Job) (probes : ℕ → ℕ)
      → let out = credit max_processes process_alive owners slot true locked j probes in
        (out.job.credit ≡ (if is_ok out.rc then true else j.credit))
        × (out.job.active ≡ j.active)
        × (out.job.decision ≡ j.decision)
  unfolding credit
  credit_taken locked j probes = ground arith

module _ (text : Text) (max_processes : ℕ) (process_alive : ℕ → Bool) (owners : ℕ → ℕ)
    (slot : ℕ) where
  probe-IsPaired :
      {T : Type 0} (env : ProbeEnv) (ns : Namespace T) (e : RefreshEntry) (j : Job) (probes : ℕ → ℕ)
      → Idle j
      → IsPaired (probe text max_processes process_alive owners slot env ns e j probes).job
  unfolding probe
  probe-IsPaired env ns e j probes (a, c) =
      let taken = credit max_processes process_alive owners slot true env.locked j probes in
      ground (
        arith,
        a,
        c,
        credit_taken max_processes process_alive owners slot env.locked j probes,
        credit_given max_processes process_alive owners slot true taken.job taken.probes,
      )

  pub done-IsPaired :
      (status : ℕ) (j : Job) (probes : ℕ → ℕ)
      → IsPaired j
      → IsPaired (Jobs.done text max_processes process_alive owners slot status j probes).job
  unfolding Jobs.done
  done-IsPaired status j probes paired = ground (
    arith,
    paired,
    credit_given max_processes process_alive owners slot true (record j { active = false }) probes,
  )

  -- A decision is made only by a status that says that the entry is out of date.
  pub done_decision :
      (status : ℕ) (j : Job) (probes : ℕ → ℕ)
      → is_decisive status ≡ false
      → j.decision ≡ false
      → (Jobs.done text max_processes process_alive owners slot status j probes).job.decision
        ≡ false
  unfolding Jobs.done
  done_decision status j probes d h =
      ground (arith, h, decides_not status d (entry_at j.position j.entries))

module _ (max_processes : ℕ) (process_alive : ℕ → Bool) (owners : ℕ → ℕ) (slot : ℕ) where
  -- A request that ends takes no credit with it.
  pub cleanup_gives :
      (j : Job) (probes : ℕ → ℕ)
      → (refresh_cleanup max_processes process_alive owners slot j probes).job.credit ≡ false
  unfolding refresh_cleanup
  cleanup_gives j probes = (credit_given max_processes process_alive owners slot true j probes).0

module _ {S T : Type 0} (text : Text) (caseless : Bool) (slab : Slab S) (ns_slab : Slab T)
    (max_processes : ℕ) (process_alive : ℕ → Bool) (owners : ℕ → ℕ) (slot : ℕ) where
  handle_entry-StepOk :
      (run : Run) (e : RefreshEntry) (j : Job) (q : Queue S) (ns : Namespace T) (probes : ℕ → ℕ)
      → Idle j
      → StepOk (
          handle_entry text caseless slab ns_slab max_processes process_alive owners slot run e j q
            ns probes)
  unfolding handle_entry
  handle_entry-StepOk run e j q ns probes (a, c) = ground (
    arith,
    a,
    c,
    probe-IsPaired text max_processes process_alive owners slot run.probe_env ns e j probes (a, c),
  )

  next_entry-StepOk :
      (run : Run) (e : RefreshEntry) (j : Job) (q : Queue S) (ns : Namespace T) (probes : ℕ → ℕ)
      → Idle j
      → StepOk (
          next_entry text caseless slab ns_slab max_processes process_alive owners slot run e j q ns
            probes)
  unfolding next_entry
  next_entry-StepOk run e j q ns probes (a, c) =
      let out = decide text caseless slab ns_slab run.request ns e q in
      let result = decided out.rc in
      let j' = set_result result j in
      ground (
        arith,
        a,
        c,
        handle_entry-StepOk run e j q ns probes (a, c),
        handle_entry-StepOk run (record e { result = result }) (record j' { decision = false })
            out.queue (namespace_or ns out.namespace) probes (a, c),
      )

  after_scan-StepOk :
      (run : Run) (j : Job) (q : Queue S) (ns : Namespace T) (probes : ℕ → ℕ)
      → Idle j
      → StepOk (
          after_scan text caseless slab ns_slab max_processes process_alive owners slot run j q ns
            probes)
  unfolding after_scan
  after_scan-StepOk run j q ns probes idle = elim (Option-cases (entry_at j.position j.entries)) [
    | inl nil ↦ ground (arith, idle, nil)
    | inr (e, found) ↦ ground (arith, idle, found, next_entry-StepOk run e j q ns probes idle)
  ]

  scan_on-StepOk :
      (run : Run) (j : Job) (q : Queue S) (ns : Namespace T) (probes : ℕ → ℕ)
      → Idle j
      → StepOk (
          scan_on text caseless slab ns_slab max_processes process_alive owners slot run j q ns
            probes)
  unfolding scan_on
  scan_on-StepOk run j q ns probes idle =
      let j' = refresh_scan run.late run.slice j in
      let idle' = scan-Idle run.late run.slice j idle in
      ground (
        arith,
        idle,
        idle',
        after_scan-StepOk run j q ns probes idle,
        after_scan-StepOk run j' q ns probes idle',
      )

  -- A step keeps the pairing, and a job that ends holds no credit.
  pub step-StepOk :
      (run : Run) (j : Job) (q : Queue S) (ns : Namespace T) (probes : ℕ → ℕ)
      → IsPaired j
      → StepOk (
          step text caseless slab ns_slab max_processes process_alive owners slot run j q ns probes)
  unfolding step
  step-StepOk run j q ns probes paired = elim (Bool-cases j.active) [
    | inl held ↦ ground (arith, held, paired)
    | inr quiet ↦
        let over = j.timed_out || run.late || run.exiting in
        let j' = record j { timed_out = over } in
        let free : j.credit ≡ false = paired ∙ quiet in
        ground (
          arith,
          quiet,
          free,
          scan_on-StepOk run j' q ns probes (quiet, free),
          scan_on-StepOk run (record j' { scan = scanning }) q ns probes (quiet, free),
        )
  ]
