-- ===== src/Refresh/Job.antt =====
-- The job of a refresh: its credit, a probe and the end of a probe (`ngx_http_cache_refresh_credit`,
-- `_probe` and `_done`), without threads.
use ngx_cache_purge.Prelude.{
  ℕ, zero, suc, Bool, true, false, ◌&&◌, ◌||◌, not, List, [], ◌∷◌, Option, none, some, ltb, leb,
  ◌==◌, if◌then◌else◌, length, take, drop, bytes_eq,
}
use ngx_cache_purge.Ngx.{Text, Rc, ok, error, again, declined, is_ok}
use ngx_cache_purge.FilePath.{char_at}
use ngx_cache_purge.Generation.Key.{decode}
use ngx_cache_purge.Generation.State.{is_current}
use ngx_cache_purge.Queue.Enqueue.{Namespace}
use ngx_cache_purge.Queue.Probe.{probe_credit}
use ngx_cache_purge.Refresh.Batch.{
  RefreshEntry, RefreshResult, pending, kept, transport, upstream_status, vary, profile, replaced,
}

-- How far the scan of a job is: there is none, it goes on, it is complete, it failed, or it ran out
-- of time.
pub data ScanState : Type 0 where
  unscanned scanning complete failed timed_out : ScanState

-- `ngx_http_cache_refresh_t`, with the entries of its scan.
pub record Job : Type 0 where
  pub scan : ScanState
  pub entries : List RefreshEntry
  pub position : ℕ
  pub active : Bool
  pub credit : Bool
  pub decision : Bool
  pub timed_out : Bool
  pub after : List ℕ

-- `&scan->entries[position]`, and a write there.
unfoldable pub entry_at : ℕ → List RefreshEntry → Option RefreshEntry
entry_at n [] = none
entry_at zero (e ∷ es) = some e
entry_at (suc n) (e ∷ es) = entry_at n es

unfoldable pub set_at : ℕ → (RefreshEntry → RefreshEntry) → List RefreshEntry → List RefreshEntry
set_at n f [] = []
set_at zero f (e ∷ es) = f e ∷ es
set_at (suc n) f (e ∷ es) = e ∷ set_at n f es

abbrev pub set_result : RefreshResult → Job → Job
set_result result j = record j {
  entries = set_at j.position (λ e. record e { result = result }) j.entries;
}

-- A job and the credits of the slots.
pub record Credited : Type 0 where
  pub rc : Rc
  pub job : Job
  pub probes : ℕ → ℕ

abbrev pub is_profile : RefreshResult → Bool
is_profile profile = true
is_profile _ = false

abbrev pub is_pending : RefreshResult → Bool
is_pending pending = true
is_pending _ = false

-- The statuses that say that the entry is out of date.
abbrev pub is_decisive : ℕ → Bool
is_decisive status = status == 200 || status == 404 || status == 410

-- The loops over the URI and the entity tag.
unfoldable pub bad_uri : List ℕ → Bool
bad_uri [] = false
bad_uri (c ∷ s) = leb c b' ' || c == b'#' || c == 127 || bad_uri s

unfoldable pub bad_etag : List ℕ → Bool
bad_etag [] = false
bad_etag (c ∷ s) = ltb c b' ' || c == 127 || bad_etag s

-- Whether the logical key is below the prefix of the location, and a URI that can be sent.
unfoldable pub is_profiled : List ℕ → List ℕ → List ℕ → Bool
is_profiled prefix logical etag =
    let uri = drop (length prefix) logical in
    not (leb (length logical) (length prefix))
    && bytes_eq (take (length prefix) logical) prefix
    && char_at uri 0 == b'/'
    && not (bad_uri uri)
    && not (bad_etag etag)

-- A worker: its slot, and whether the lock of the queue is free for a take.
module _ (max_processes : ℕ) (process_alive : ℕ → Bool) (owners : ℕ → ℕ) (slot : ℕ) where
  unfoldable pub credit : Bool → Bool → Job → (ℕ → ℕ) → Credited
  credit take locked j probes =
      let c = probe_credit max_processes process_alive owners take locked slot probes in
      if not take && not j.credit
      then record { rc = ok; job = j; probes = probes }
      else if is_ok c.rc
      then record { rc = c.rc; job = record j { credit = take }; probes = c.probes }
      else record { rc = c.rc; job = j; probes = c.probes }

-- The end of a probe; `status` is 0 without an upstream.
unfoldable pub judged : ℕ → RefreshEntry → RefreshEntry
judged status e =
    let e' = record e { status = status } in
    if is_profile e.result
    then e'
    else if status == 304
    then record e' { result = kept }
    else if is_decisive status
    then e'
    else record e' { result = if status == 0 then transport else upstream_status }

abbrev pub decides : ℕ → Option RefreshEntry → Bool
decides status none = false
decides status (some e) = not (is_profile e.result) && is_decisive status

-- What a probe needs besides the job: the namespace, the prefix of the location, whether the lock
-- is free, and whether memory and the subrequest come about.
pub record ProbeEnv : Type 0 where
  pub prefix : List ℕ
  pub locked : Bool
  pub room : Bool
  pub subrequest : Bool

module _ (text : Text) where
  -- The logical key of an entry that is still current.
  unfoldable pub logical_of : {T : Type 0} → Namespace T → RefreshEntry → Option (List ℕ)
  logical_of ns e = elim (decode text ns.name e.key) [
    | none ↦ none
    | some d ↦ if is_current text ns.state d then some d.logical else none
  ]

  -- The result of an entry that is not to be probed.
  unfoldable pub refusal : {T : Type 0} → Namespace T → List ℕ → RefreshEntry → Option RefreshResult
  refusal ns prefix e = elim (logical_of ns e) [
    | none ↦ some replaced
    | some logical ↦
        if not (e.header.vary_len == 0)
        then some vary
        else if is_profiled prefix logical e.header.etag
        then none
        else some profile
  ]

module _ (text : Text) (max_processes : ℕ) (process_alive : ℕ → Bool) (owners : ℕ → ℕ)
    (slot : ℕ) where
  unfoldable pub probe :
      {T : Type 0} → ProbeEnv → Namespace T → RefreshEntry → Job → (ℕ → ℕ) → Credited
  probe env ns e j probes = elim (refusal text ns env.prefix e) [
    | some result ↦ record { rc = declined; job = set_result result j; probes = probes }
    | none ↦
        (let taken = credit max_processes process_alive owners slot true env.locked j probes in
          let given =
            credit max_processes process_alive owners slot false true taken.job taken.probes in
          if not (is_ok taken.rc)
          then record { rc = again; job = taken.job; probes = taken.probes }
          else if not env.room || not env.subrequest
          then record { rc = error; job = given.job; probes = given.probes }
          else record {
            rc = ok;
            job = (let j' = taken.job in record j' { active = true });
            probes = taken.probes;
          })
  ]

  -- The handler of the subrequest.
  unfoldable pub done : ℕ → Job → (ℕ → ℕ) → Credited
  done status j probes =
      let given =
        credit max_processes process_alive owners slot false true (record j { active = false })
          probes in
      let j' = given.job in
      if not j.active then record { rc = ok; job = j; probes = probes } else record {
        rc = ok;
        job = record j' {
          entries = set_at j.position (judged status) j.entries;
          decision = j.decision || decides status (entry_at j.position j.entries);
        };
        probes = given.probes;
      }
