-- ===== src/Queue/Attach/Sound.antt =====
-- A start or a reload leaves a queue that the processes can work on.
use mathlib.Core.Path.{subst}
use mathlib.Core.List.Perm
use ngx_cache_purge.Prelude.{
  ℕ, ◌+◌, ◌≡◌, ◌⊎◌, ◌≤◌, refl, sym, ap, ◌∙◌, inl, inr, Bool, true, List, [], ◌∷◌, ◌++◌, Option,
  none, some, ◌==◌, if◌then◌else◌, length, arith, Bool-cases, Option-cases,
}
use ngx_cache_purge.Ngx.{Text, Slab, SlabLaws, ok, error}
use ngx_cache_purge.Queue.State.{Queue, Entry}
use ngx_cache_purge.Queue.Task.{Task}
use ngx_cache_purge.Queue.Paths.{Registered}
use ngx_cache_purge.Queue.Counts.{IsCounted}
use ngx_cache_purge.Queue.Index.{Held, IsIndexed}
use ngx_cache_purge.Queue.Attach.{
  Attached, OldConf, ShmZone, Attachment, shm_version, fresh_queue, protection_get,
  bind_queue_status, bind_zone, check_zone, init_shm_zone,
}
use ngx_cache_purge.Queue.Attach.Kept.{
  Keeps, Keeps-trans, protection_get-Keeps, bind_queue_status-Keeps,
}

module _ {S : Type 0} (text : Text) (caseless : Bool) (slab : Slab S) (sizeof_path sizeof_str : ℕ)
    (sizeof_protection : ℕ) (laws : SlabLaws slab) where
  open laws use {held, held-calloc}

  abbrev pub Sound : Queue S → Type 0
  Sound q = IsCounted q × IsIndexed held q

  Held-grown :
      (held held' : ℕ → Bool) (index : List Entry)
      → ((b : ℕ) → held b ≡ true → held' b ≡ true)
      → Held held index
      → Held held' index
  Held-grown held held' [] grown h = tt
  Held-grown held held' (e ∷ index) grown h =
      (grown e.addr h.0, Held-grown held held' index grown h.1)

  Keeps-Sound : (q q' : Queue S) → Keeps held q q' → Sound q → Sound q'
  Keeps-Sound q q' k (c, i) = (
    record {
      size_lem = k.size ∙ (c.size_lem ∙ ap (λ ts. length ts) (sym k.pending));
      running_lem = k.running ∙ (c.running_lem ∙ ap (λ ts. length ts) (sym k.active));
      bounded = rw (k.size, k.running, k.max_size) c.bounded;
      waiting = rw k.pending c.waiting;
      running = rw k.active c.running;
    },
    record {
      tasks = rw (k.index, k.pending, k.active) i.tasks;
      keys = rw k.index i.keys;
      addrs = rw k.index i.addrs;
      in_use = rw k.index (Held-grown (held q.shpool) (held q'.shpool) q.index k.grown i.in_use);
    },
  )

  max_size-Sound :
      (q : Queue S) (n : ℕ) → q.size + q.running ≤ n → Sound q → Sound (record q { max_size = n })
  max_size-Sound q n e (c, i) = (
    record {
      size_lem = c.size_lem;
      running_lem = c.running_lem;
      bounded = e;
      waiting = c.waiting;
      running = c.running;
    },
    record { tasks = i.tasks; keys = i.keys; addrs = i.addrs; in_use = i.in_use },
  )

  abbrev pub SoundIn : Option (Attached S) → Type 0
  SoundIn none = Unit
  SoundIn (some a) = Sound a.queue

  -- A queue, if there is one, that is sound and within a capacity.
  abbrev pub Fits : ℕ → Option (Attached S) → Type 0
  Fits n none = Unit
  Fits n (some a) = Sound a.queue × (a.queue.size + a.queue.running ≤ n)

  abbrev pub tasks_of : Option (Attached S) → List Task
  tasks_of none = []
  tasks_of (some a) = a.queue.pending ++ a.queue.active

  -- What becomes of the tasks in the zone: an error, or a queue that has them.
  abbrev pub Carries : ℕ → List Task → Attachment S → Type 0
  Carries n tasks r =
      SoundIn r.queue
      × ((r.rc ≡ error)
          ⊎ ((r.rc ≡ ok)
              × (b : Attached S) × (r.queue ≡ some b)
              × (b.queue.max_size ≡ n)
              × (b.queue.pending ++ b.queue.active ≡ tasks)))

  bind_zone-Carries :
      (n : ℕ) (paths : List Registered) (names : List (List ℕ)) (a : Attached S)
      → Fits n (some a)
      → Carries n
          (tasks_of (some a))
          (bind_zone text caseless slab sizeof_path sizeof_str sizeof_protection n paths names a)
  unfolding bind_zone
  bind_zone-Carries n paths names a (h, e) =
      let got =
        protection_get text caseless slab sizeof_path sizeof_str sizeof_protection paths a in
      let q = got.1.queue in
      let bound =
        bind_queue_status text caseless slab sizeof_path sizeof_str sizeof_protection paths names
          q in
      let first =
        protection_get-Keeps text caseless slab sizeof_path sizeof_str sizeof_protection laws paths
          a in
      let both =
        Keeps-trans text caseless slab sizeof_path sizeof_str sizeof_protection laws a.queue q
          bound.1 first
          (bind_queue_status-Keeps text caseless slab sizeof_path sizeof_str sizeof_protection laws
            paths names q) in
      let sound = Keeps-Sound a.queue bound.1 both h in
      elim (Option-cases got.0) [
        | inl f ↦ rw (f, bind_zone) (Keeps-Sound a.queue q first h, inl refl)
        | inr (addr, f) ↦ elim (Option-cases bound.0) [
          | inl g ↦ rw (f, g, bind_zone) (sound, inl refl)
          | inr (addrs, g) ↦
              rw (f, g, bind_zone)
                (
                  max_size-Sound bound.1 n (rw (both.size, both.running) e) sound,
                  inr (refl, _, refl, refl, rw (both.pending, both.active) refl),
                )
        ]
      ]

  check_zone-Carries :
      (n : ℕ) (paths : List Registered) (names : List (List ℕ)) (o : Option (Attached S))
      → Fits n o
      → Carries n
          (tasks_of o)
          (check_zone text caseless slab sizeof_path sizeof_str sizeof_protection n paths names o)
  unfolding check_zone
  check_zone-Carries n paths names none h = (tt, inl refl)
  check_zone-Carries n paths names (some a) h = elim (Bool-cases (a.queue.version == shm_version)) [
    | inl e ↦ rw (e, check_zone) (bind_zone-Carries n paths names a h)
    | inr e ↦ rw (e, check_zone) (h.0, inl refl)
  ]

  fresh_queue-Sound : (pool : S) → Sound (fresh_queue pool)
  fresh_queue-Sound pool = (
    record {
      size_lem = refl;
      running_lem = refl;
      bounded = omega arith;
      waiting = tt;
      running = tt;
    },
    record { tasks = Perm.nil; keys = tt; addrs = tt; in_use = tt },
  )

  Fits-SoundIn : (n : ℕ) (o : Option (Attached S)) → Fits n o → SoundIn o
  Fits-SoundIn n none h = tt
  Fits-SoundIn n (some a) h = h.0

  -- The queue that a cycle finds: the one of the cycle before, or of the master.
  abbrev pub found : Option (OldConf S) → ShmZone S → Option (Attached S)
  found none zone = if zone.exists then zone.head else none
  found (some old) zone = old.queue

  abbrev pub capacity : ℕ → Option (OldConf S) → ℕ
  capacity n none = n
  capacity n (some old) = old.queue_size

  -- A start or a reload, with a queue that is sound and within the capacity of its cycle if there is
  -- one, leaves a sound queue also where it fails; where it succeeds, the queue has the configured
  -- capacity and exactly the tasks that it had.
  pub init_shm_zone-Carries :
      (sizeof_queue n : ℕ) (paths : List Registered) (names : List (List ℕ))
      (old : Option (OldConf S)) (zone : ShmZone S)
      → Fits (capacity n old) (found old zone)
      → Carries n (tasks_of (found old zone)) (
          init_shm_zone text caseless slab sizeof_path sizeof_str sizeof_protection sizeof_queue n
            paths names old zone)
  unfolding init_shm_zone
  init_shm_zone-Carries sizeof_queue n paths names (some old) zone h =
      elim (Bool-cases (n == old.queue_size)) [
        | inl e ↦
            let same : n ≡ old.queue_size = ground (arith, e) in
            let fits : Fits n old.queue = subst (λ x. Fits x old.queue) (sym same) h in
            rw (e, init_shm_zone) (check_zone-Carries n paths names old.queue fits)
        | inr e ↦ rw (e, init_shm_zone) (Fits-SoundIn old.queue_size old.queue h, inl refl)
      ]
  init_shm_zone-Carries sizeof_queue n paths names none zone h = elim (Bool-cases zone.exists) [
    | inl e ↦
        let fits : Fits n zone.head = rw e at h in
        rw (e, init_shm_zone) (check_zone-Carries n paths names zone.head fits)
    | inr e ↦ elim (Option-cases (slab.calloc sizeof_queue zone.pool)) [
      | inl f ↦ rw (e, f, init_shm_zone) (tt, inl refl)
      | inr ((addr, pool), f) ↦
          let fresh : Attached S = record { queue = fresh_queue pool; protections = [] } in
          rw (e, f, init_shm_zone)
            (check_zone-Carries n paths names (some fresh) (fresh_queue-Sound pool, omega arith))
    ]
  ]
