-- ===== src/Refresh/Tests.antt =====
-- The theorems on refreshes at concrete batches, headers and jobs.
use ngx_cache_purge.Prelude.{
  ◌↔◌, ℕ, ◌+◌, ◌-◌, ◌≤◌, ◌≡◌, ◌&&◌, not, refl, Bool, true, false, List, [], ◌∷◌, map, Option, none,
  some, ltb, leb, take, length, codes, bytes_eq, if◌then◌else◌, arith,
}
use ngx_cache_purge.Ngx.{Text, ok, digits16}
use ngx_cache_purge.Generation.Rule.{null, search_rules, siblings}
use ngx_cache_purge.Generation.State.{is_current, lookup}
use ngx_cache_purge.Generation.Key.{
  encode, decode, decode_epoch, read_generation, byte_at, all_digits,
}
use ngx_cache_purge.Queue.Enqueue.{Namespace}
use ngx_cache_purge.Queue.Counts.{All}
use ngx_cache_purge.Queue.Samples.{two_nodes, empty_queue, request, all_dead}
use ngx_cache_purge.Reply.Headers.{Header}
use ngx_cache_purge.FilePath.{char_at}
use ngx_cache_purge.Queue.Probe.{probe_credit, sweep, probes_of}
use ngx_cache_purge.Refresh.Batch.{RefreshEntry, Batch, add_entries, pending, batch_size}
use ngx_cache_purge.Refresh.Complete.{Settled, add_entries_complete}
use ngx_cache_purge.Refresh.Cursor.{first_cursor, Asked, read_cursor, read_cursor_iff}
use ngx_cache_purge.Refresh.Job.{
  Job, complete, unscanned, probe, refusal, logical_of, is_profiled, bad_uri, bad_etag, credit,
  entry_at,
}
use ngx_cache_purge.Refresh.Step.{
  Run, step, scan_on, refresh_scan, after_scan, next_entry, handle_entry,
}
use ngx_cache_purge.Refresh.Profile.{
  Profile, note, has_dollar, read_headers, guard, IsSafe, guard-IsSafe,
}
use ngx_cache_purge.Refresh.Credit.{held, play-IsCovered}
use ngx_cache_purge.Refresh.Harmless.{
  Event, timer, answer, World, cleanup, with_probes, play, play-harmless,
}

abbrev hex_digit : ℕ → ℕ
hex_digit d = if ltb d 10 then b'0' + d else b'a' + (d - 10)

abbrev hex_value : ℕ → Option ℕ
hex_value c =
    if leb b'0' c && leb c b'9'
    then some (c - b'0')
    else if leb b'a' c && leb c b'f'
    then some (c - b'a' + 10)
    else none

abbrev ascii : Text
ascii = record {
  tolower = λ c. c;
  hextoi = hex_value;
  print_hex = λ g. map hex_digit (digits16 16 g);
}

abbrev shop : Namespace (ℕ → Bool)
shop = record {
  name = codes "shop";
  state = record {
    version = 1;
    serial = 1;
    baseline = 1;
    epoch = codes "0000000042";
    state_path = [];
    exact = null;
    prefix = null;
    allocated = [];
    tail = none;
    garbage = [];
  };
  pool = λ _. false;
}

-- An entry of the key `http://u/a`, where `http://u` is the prefix of the location.
abbrev entry : RefreshEntry
entry = record {
  hash = codes "000000000000000000000000000000a1";
  key = encode ascii (codes "shop") (codes "0000000042") 1 (codes "http://u/a");
  header = record { vary_len = 0; etag = codes "v1"; last_modified = 0 };
  status = 0;
  result = pending;
}

abbrev other : RefreshEntry
other = record entry { hash = codes "00000000000000000000000000000009" }

abbrev empty_batch : Batch
empty_batch = record {
  path_name = codes "/c";
  path_len = 0;
  levels = [];
  filter = codes "http://u/*";
  after = first_cursor;
  entries = [];
  more = false;
}

abbrev offered : List RefreshEntry
offered = entry ∷ other ∷ entry ∷ []

add_entries_complete_example :
    (length (add_entries offered empty_batch).entries ≤ batch_size)
    × All (λ e. Settled e.hash (add_entries offered empty_batch)) offered
add_entries_complete_example =
    add_entries_complete offered empty_batch (refl, (refl, (refl, tt))) refl refl

abbrev same_letters : List ℕ → List ℕ → ℕ → Bool
same_letters a b n = bytes_eq (take n a) (take n b)

abbrev headers : List Header
headers =
    record { hash = 1; key = codes "Host"; value = codes "u" }
    ∷ record { hash = 1; key = codes "X-Cache-Purge-Cursor"; value = entry.hash }
    ∷ []

read_cursor_iff_example :
    (read_cursor ascii same_letters headers false first_cursor ≡ some entry.hash)
    ↔ Asked ascii same_letters first_cursor headers entry.hash
read_cursor_iff_example = read_cursor_iff ascii same_letters headers first_cursor entry.hash

-- A job that has not begun, and a run whose slice ends the scan with one entry.
abbrev world : World (ℕ → Bool) (ℕ → Bool)
world = record {
  job = record {
    scan = unscanned;
    entries = [];
    position = 0;
    active = false;
    credit = false;
    decision = false;
    timed_out = false;
    after = first_cursor;
  };
  queue = record empty_queue { probes = λ _. 0 };
  namespace = shop;
}

abbrev run : Run
run = record {
  late = false;
  exiting = false;
  occupied = false;
  scan_room = true;
  filter_room = true;
  slice = record { rc = ok; entries = entry ∷ [] };
  probe_env = record { prefix = codes "http://u"; locked = true; room = true; subrequest = true };
  request = request;
}

-- The probe is sent, answered with 304, the job ends, and then the request.
abbrev events : List Event
events = timer run ∷ answer 304 ∷ timer run ∷ timer run ∷ cleanup ∷ []

-- After the first of them, a probe is under way.
probing :
    (step ascii false two_nodes two_nodes 4 all_dead
      (λ _. 1)
      2
      run
      world.job
      empty_queue
      shop
      (λ _. 0)).job.active
    ≡ true
unfolding step scan_on refresh_scan after_scan next_entry handle_entry probe refusal logical_of
    is_profiled bad_uri bad_etag credit probe_credit entry_at bytes_eq char_at decode encode
    decode_epoch read_generation is_current lookup search_rules byte_at all_digits siblings sweep
    probes_of
probing = refl

play-harmless_example :
    let w = play ascii false two_nodes two_nodes 4 all_dead (λ _. 1) 2 events world in
    (w.queue ≡ with_probes empty_queue w.queue.probes) × (w.namespace ≡ shop)
play-harmless_example =
    play-harmless ascii false two_nodes two_nodes 4 all_dead (λ _. 1) 2 events world
      (tt, (refl, (tt, (tt, (tt, tt))))) refl

play-IsCovered_example :
    let w = play ascii false two_nodes two_nodes 4 (λ _. true) (λ _. 1) 2 events world in
    (w.queue.probes 2 ≡ 0 + held w.job) × ((w.job.credit && not w.job.active) ≡ false)
play-IsCovered_example =
    play-IsCovered 4 (λ _. true) (λ _. 1) 2 (omega arith) refl 0 ascii false two_nodes two_nodes
      events world refl refl

abbrev profile : Profile
profile = record {
  internal = true;
  uri = codes "/probe";
  refresh_location = codes "/probe";
  pass_request_headers = false;
  pass_request_body = false;
  intercept_errors = false;
  has_cache = false;
  http_method = some (codes "HEAD");
  headers =
      record { key = codes "Host"; value = codes "u" }
      ∷ record { key = codes "If-None-Match"; value = codes "$cache_purge_refresh_etag" }
      ∷ record {
        key = codes "If-Modified-Since";
        value = codes "$cache_purge_refresh_last_modified";
      }
      ∷ [];
}

passes : guard same_letters profile ≡ true
unfolding guard read_headers note has_dollar bytes_eq
passes = refl

profile_passes : guard same_letters profile ≡ true
unfolding guard read_headers note has_dollar bytes_eq
profile_passes = refl

guard-IsSafe_example : IsSafe same_letters profile
guard-IsSafe_example = guard-IsSafe same_letters profile profile_passes

-- A header before that of the probe has a variable of the client, and the guard lets it through.
abbrev twice : Profile
twice = record profile {
  headers =
      record { key = codes "If-None-Match"; value = codes "$http_if_none_match" } ∷ profile.headers;
}

twice_passes : guard same_letters twice ≡ true
unfolding guard read_headers note has_dollar bytes_eq
twice_passes = refl

abbrev caching : Profile
caching = record profile { has_cache = true }

stops : guard same_letters caching ≡ false
unfolding guard bytes_eq
stops = refl

-- The job while its probe is under way.
abbrev probing_job : Job
probing_job = record {
  scan = complete;
  entries = entry ∷ [];
  position = 0;
  active = true;
  credit = true;
  decision = false;
  timed_out = false;
  after = first_cursor;
}
