-- ===== src/Refresh/Step.antt =====
-- One run of the timer of a job: `ngx_http_cache_refresh_step` without threads, with
-- `ngx_http_cache_refresh_scan`, the end of the request and the code of the reply.
use ngx_cache_purge.Prelude.{
  ℕ, suc, Bool, true, false, ◌&&◌, ◌||◌, not, List, Option, none, some, ◌==◌, if◌then◌else◌, length,
}
use ngx_cache_purge.Ngx.{Text, Slab, Rc, ok, again, declined, is_ok, is_again}
use ngx_cache_purge.Queue.State.{Queue}
use ngx_cache_purge.Queue.Enqueue.{Request, Namespace, Admitted, enqueue}
use ngx_cache_purge.Reply.Catalog.{ResultCode, scan_failed, refresh_complete, refresh_incomplete}
use ngx_cache_purge.Refresh.Batch.{RefreshEntry, RefreshResult, invalidated, replaced}
use ngx_cache_purge.Refresh.Job.{
  Job, ScanState, unscanned, scanning, complete, failed, timed_out, Credited, ProbeEnv, credit,
  probe, entry_at, set_result, is_pending, logical_of,
}

-- A slice of the walk: its code, and the entries in the order of their hashes.
pub record Slice : Type 0 where
  pub rc : Rc
  pub entries : List RefreshEntry

-- What a run meets: whether the deadline is over or the worker ends, whether another job has the
-- worker, memory for the scan and the selector, the slice, the memory of a probe, and the request
-- to the queue without its key.
pub record Run : Type 0 where
  pub late : Bool
  pub exiting : Bool
  pub occupied : Bool
  pub scan_room : Bool
  pub filter_room : Bool
  pub slice : Slice
  pub probe_env : ProbeEnv
  pub request : Request

-- What becomes of the job: it waits for its timer, it ends with a reply, or with an error.
pub data Turn : Type 0 where
  waits finished broken : Turn

pub record Stepped (S T : Type 0) : Type 0 where
  pub turn : Turn
  pub job : Job
  pub queue : Queue S
  pub namespace : Namespace T
  pub probes : ℕ → ℕ

-- `ngx_http_cache_refresh_scan`, on a scan that is not cancelled: the walk returned `NGX_OK`, or it
-- goes on, or it failed.
unfoldable pub refresh_scan : Bool → Slice → Job → Job
refresh_scan late s j =
    if late
    then record j { scan = timed_out }
    else if is_again s.rc
    then j
    else if is_ok s.rc
    then record j { scan = complete; entries = s.entries }
    else record j { scan = failed }

abbrev pub is_scanning : ScanState → Bool
is_scanning scanning = true
is_scanning _ = false

abbrev pub is_complete : ScanState → Bool
is_complete complete = true
is_complete _ = false

abbrev pub is_unscanned : ScanState → Bool
is_unscanned unscanned = true
is_unscanned _ = false

abbrev pub is_timed_out : ScanState → Bool
is_timed_out timed_out = true
is_timed_out _ = false

-- The code of the reply; `more` is the flag of the batch.
unfoldable pub reply_code : Bool → Job → ResultCode
reply_code more j = elim j.scan [
  | failed ↦ scan_failed
  | complete ↦
      if not more && j.position == length j.entries then refresh_complete else refresh_incomplete
  | _ ↦ refresh_incomplete
]

-- The result of a decision.
unfoldable pub decided : Rc → RefreshResult
decided ok = invalidated
decided declined = replaced
decided _ = RefreshResult.error

module _ {S T : Type 0} (text : Text) (caseless : Bool) (slab : Slab S) (ns_slab : Slab T) where
  -- An entry that is out of date goes to the queue, with the key that was read from it.
  unfoldable pub decide : Request → Namespace T → RefreshEntry → Queue S → Admitted S T
  decide r ns e q = elim (logical_of text ns e) [
    | none ↦ record { rc = declined; queue = q; namespace = some ns }
    | some logical ↦
        enqueue text caseless slab ns_slab
          (record r { key = logical; purge_all = false; expected = some e.key }) (some ns) q
  ]

abbrev pub stay : {S T : Type 0} → Turn → Job → Queue S → Namespace T → (ℕ → ℕ) → Stepped S T
stay turn j q ns probes = record {
  turn = turn;
  job = j;
  queue = q;
  namespace = ns;
  probes = probes;
}

-- `memcpy(job->after, entry->hash, 32); job->position++`.
abbrev pub advance : RefreshEntry → Job → Job
advance e j = record j { after = e.hash; position = suc j.position }

abbrev pub namespace_or : {T : Type 0} → Namespace T → Option (Namespace T) → Namespace T
namespace_or ns none = ns
namespace_or ns (some ns') = ns'

module _ {S T : Type 0} (text : Text) (caseless : Bool) (slab : Slab S) (ns_slab : Slab T)
    (max_processes : ℕ) (process_alive : ℕ → Bool) (owners : ℕ → ℕ) (slot : ℕ) where
  -- A pending entry is probed; any other is done with.
  unfoldable pub handle_entry :
      Run → RefreshEntry → Job → Queue S → Namespace T → (ℕ → ℕ) → Stepped S T
  handle_entry run e j q ns probes =
      let p = probe text max_processes process_alive owners slot run.probe_env ns e j probes in
      if not (is_pending e.result) then stay waits (advance e j) q ns probes else elim p.rc [
        | ok ↦ stay waits p.job q ns p.probes
        | again ↦ stay waits p.job q ns p.probes
        | declined ↦ stay waits (advance e p.job) q ns p.probes
        | _ ↦ stay waits (advance e (set_result RefreshResult.error p.job)) q ns p.probes
      ]

  -- A decision first, and then the entry.
  unfoldable pub next_entry :
      Run → RefreshEntry → Job → Queue S → Namespace T → (ℕ → ℕ) → Stepped S T
  next_entry run e j q ns probes =
      let out = decide text caseless slab ns_slab run.request ns e q in
      let ns' = namespace_or ns out.namespace in
      let result = decided out.rc in
      let j' = set_result result j in
      if not j.decision
      then handle_entry run e j q ns probes
      else if is_again out.rc
      then stay waits j out.queue ns' probes
      else handle_entry run (record e { result = result }) (record j' { decision = false })
          out.queue ns' probes

  -- From the scan on.
  unfoldable pub after_scan : Run → Job → Queue S → Namespace T → (ℕ → ℕ) → Stepped S T
  after_scan run j q ns probes =
      if not (is_complete j.scan)
      then stay finished (record j { timed_out = is_timed_out j.scan }) q ns probes
      else elim (entry_at j.position j.entries) [
        | none ↦ stay finished j q ns probes
        | some e ↦ next_entry run e j q ns probes
      ]

  unfoldable pub scan_on : Run → Job → Queue S → Namespace T → (ℕ → ℕ) → Stepped S T
  scan_on run j q ns probes =
      let j' = refresh_scan run.late run.slice j in
      if not (is_scanning j.scan)
      then after_scan run j q ns probes
      else if is_scanning j'.scan
      then stay waits j' q ns probes
      else after_scan run j' q ns probes

  unfoldable pub step : Run → Job → Queue S → Namespace T → (ℕ → ℕ) → Stepped S T
  step run j q ns probes =
      let over = j.timed_out || run.late || run.exiting in
      let j' = record j { timed_out = over } in
      if j.active
      then stay waits j' q ns probes
      else if over
      then stay finished j' q ns probes
      else if run.occupied
      then stay waits j' q ns probes
      else if not (is_unscanned j.scan)
      then scan_on run j' q ns probes
      else if not run.scan_room || not run.filter_room
      then stay broken j' q ns probes
      else scan_on run (record j' { scan = scanning }) q ns probes

module _ (max_processes : ℕ) (process_alive : ℕ → Bool) (owners : ℕ → ℕ) (slot : ℕ) where
  -- The end of the request while the job is there.
  unfoldable pub refresh_cleanup : Job → (ℕ → ℕ) → Credited
  refresh_cleanup j probes = credit max_processes process_alive owners slot false true j probes
