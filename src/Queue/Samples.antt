-- ===== src/Queue/Samples.antt =====
-- A queue with one cache directory, a pool of two addresses, and a walk, to run the queue on.
use mathlib.Core.List.Perm
use ngx_cache_purge.Prelude.{
  ℕ, ◌+◌, ◌-◌, ◌≡◌, refl, Bool, true, false, not, List, [], ◌∷◌, Option, none, some, ◌==◌,
  if◌then◌else◌, arith,
}
use ngx_cache_purge.Ngx.{Text, Slab, SlabLaws, ok, again}
use ngx_cache_purge.Queue.Task.{Task}
use ngx_cache_purge.Queue.State.{Queue, Entry, update, find}
use ngx_cache_purge.Queue.Enqueue.{Namespace, Request}
use ngx_cache_purge.Queue.Process.{Walker, Work, Worker}
use ngx_cache_purge.Queue.Counts.{IsCounted}
use ngx_cache_purge.Queue.Index.{IsIndexed}
use ngx_cache_purge.Queue.Lifecycle.{Start}
use ngx_cache_purge.Queue.Background.{Pace, Loop}

-- Numbers that are never printed or read, and letters that are never folded.
abbrev pub plain : Text
plain = record { tolower = λ c. c; hextoi = λ _. none; print_hex = λ _. [] }

abbrev pub pick : (ℕ → Bool) → Option (ℕ × (ℕ → Bool))
pick used =
    if not (used 100)
    then some (100, update used 100 true)
    else if not (used 101)
    then some (101, update used 101 true)
    else none

-- The state of the pool tells the addresses in use.
abbrev pub two_nodes : Slab (ℕ → Bool)
two_nodes = record { calloc = λ _ used. pick used; free = λ a used. update used a false }

pub pick_fresh :
    (used : ℕ → Bool) (a : ℕ) (used' : ℕ → Bool) → pick used ≡ some (a, used') → used a ≡ false
pick_fresh used a used' e = ground arith

pub pick_held :
    (used : ℕ → Bool) (a : ℕ) (used' : ℕ → Bool) (b : ℕ)
    → pick used ≡ some (a, used')
    → used' b ≡ (if b == a then true else used b)
pick_held used a used' b e = ground arith

abbrev pub two_nodes_laws : SlabLaws two_nodes
two_nodes_laws = record {
  held = λ used. used;
  calloc_fresh = λ _ used a used' e. pick_fresh used a used' e;
  held-calloc = λ _ used a used' b e. pick_held used a used' b e;
  held-free = λ a used b. refl;
}

abbrev pub cache : List ℕ
cache = b'/' ∷ b'c' ∷ []

abbrev pub empty_queue : Queue (ℕ → Bool)
empty_queue = record {
  version = 7;
  pending = [];
  active = [];
  size = 0;
  running = 0;
  oldest = 0;
  owners = λ _. 0;
  epochs = λ _. 0;
  probes = λ _. 0;
  max_size = 1;
  paths = record { addr = 7; name = cache } ∷ [];
  index = [];
  stats = λ _ _ _. 0;
  shpool = λ _. false;
}

abbrev pub request : Request
request = record {
  configured = true;
  exiting = false;
  locked = true;
  ns_locked = true;
  slot = some 0;
  now = 50;
  protection = 9;
  pool_name = [];
  cache_path = cache;
  key = b'a' ∷ [];
  purge_all = false;
  expected = none;
}

abbrev pub no_namespace : Option (Namespace (ℕ → Bool))
no_namespace = none

pub empty-IsCounted : IsCounted empty_queue
empty-IsCounted = record {
  size_lem = refl;
  running_lem = refl;
  bounded = omega arith;
  waiting = tt;
  running = tt;
}

pub empty-IsIndexed : IsIndexed two_nodes_laws.held empty_queue
empty-IsIndexed = record { tasks = Perm.refl []; keys = tt; addrs = tt; in_use = tt }

-- One task, for the keys that begin with `a`.
abbrev pub task : Task
task = record {
  addr = 100;
  key = b'L' ∷ b'a' ∷ [];
  path = 7;
  pool_name = [];
  purge_all = false;
  running = false;
  rerun = false;
  owner = 0;
  owner_slot = 0;
  owner_epoch = 0;
  enqueued_at = 50;
  retry_at = 0;
  retries = 0;
  protection = 9;
  next_protection = none;
}

abbrev pub running_task : Task
running_task = record task { running = true; owner = 1234 }

abbrev pub node : Entry
node = record { path = 7; key = b'L' ∷ b'a' ∷ []; addr = 100 }

abbrev pub pending_queue : Queue (ℕ → Bool)
pending_queue = record empty_queue {
  pending = task ∷ [];
  size = 1;
  oldest = 50;
  index = node ∷ [];
  shpool = update (λ _. false) 100 true;
}

abbrev pub active_queue : Queue (ℕ → Bool)
active_queue = record empty_queue {
  active = running_task ∷ [];
  running = 1;
  index = node ∷ [];
  shpool = update (λ _. false) 100 true;
}

pub pending-IsCounted : IsCounted pending_queue
pending-IsCounted = record {
  size_lem = refl;
  running_lem = refl;
  bounded = omega arith;
  waiting = (refl, tt);
  running = tt;
}

pub pending-IsIndexed : IsIndexed two_nodes_laws.held pending_queue
unfolding find
pending-IsIndexed = record {
  tasks = Perm.refl (node ∷ []);
  keys = (refl, tt);
  addrs = (tt, tt);
  in_use = (refl, tt);
}

pub active-IsCounted : IsCounted active_queue
active-IsCounted = record {
  size_lem = refl;
  running_lem = refl;
  bounded = omega arith;
  waiting = tt;
  running = (refl, tt);
}

pub active-IsIndexed : IsIndexed two_nodes_laws.held active_queue
unfolding find
active-IsIndexed = record {
  tasks = Perm.refl (node ∷ []);
  keys = (refl, tt);
  addrs = (tt, tt);
  in_use = (refl, tt);
}

-- No process runs any more.
abbrev pub all_dead : ℕ → Bool
all_dead pid = false

-- A walk of so many steps that deletes one file in each.
abbrev pub countdown : Walker (ℕ × ℕ)
countdown = record {
  start = λ _ _ _. (2, 0);
  step = λ c. if c.0 == 0 then (ok, c) else (again, (c.0 - 1, c.1 + 1));
  close = λ c. c;
  deleted = λ c. c.1;
  delete_errors = λ _. 0;
  scan_errors = λ _. 0;
  bytes = λ c. c.1;
}

abbrev pub worker : Worker
worker = record {
  pid = 77;
  slot = 0;
  now = 60;
  exiting = false;
  claim_locked = true;
  finish_locked = true;
  stray = λ _. running_task;
  namespaces = [];
}

abbrev pub idle : Work (ℕ × ℕ)
idle = record { item = none; cancelable = true; cursor = (0, 0); complete = false }

-- A process that comes to slot 3, and to nothing before.
abbrev pub newcomer : Start
newcomer = record { is_worker = true; slot = 3; pid = 4321 }

abbrev pub pace : Pace
pace = record { batch_size = 4; throttle_ms = 10 }

abbrev pub loop : Loop (ℕ → Bool) (ℕ × ℕ)
loop = record { queue = pending_queue; work = idle; batch = 0; recover_at = 0 }
