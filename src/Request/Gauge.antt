-- ===== src/Request/Gauge.antt =====
-- The gauge of waiting requests: what a deferred request adds is taken off again.
use mathlib.Core.Logic.{ite}
use ngx_cache_purge.Prelude.{
  ℕ, suc, ◌+◌, ◌%◌, ◌<◌, u64, ◌-◌, ◌≡◌, inl, inr, ◌≢◌, refl, Bool, true, false, ◌&&◌, Option, none,
  some, ◌==◌, if◌then◌else◌, ==_iff, Bool-cases, Option-cases, arith,
}
use ngx_cache_purge.Ngx.{Text, Slab, is_ok}
use ngx_cache_purge.Queue.Task.{
  Metric, Metric-discrete, enqueued, enqueued_full, deduplicated, invalidated, overflow, waiting,
}
use ngx_cache_purge.Queue.State.{Queue, stat_add, stat_wait}
use ngx_cache_purge.Queue.Paths.{find_path}
use ngx_cache_purge.Queue.Enqueue.{
  Request, Namespace, enqueue, enqueue_at, admit, deduplicate, invalidate_namespace, is_namespaced,
}

ite_yes : {P C : Type 0} (d : Dec P) (a b : C) → P → ite d a b ≡ a
ite_yes (yes p) a b h = refl
ite_yes (no n) a b h = absurd (n h)

ite_no : {P C : Type 0} (d : Dec P) (a b : C) → ¬ P → ite d a b ≡ b
ite_no (yes p) a b h = absurd (h p)
ite_no (no n) a b h = refl

-- The counters of all paths in all slots.
abbrev pub Stats : Type 0
Stats = ℕ → ℕ → Metric → ℕ

stat_wait_lem :
    (slot path : ℕ) (up : Bool) (stats : Stats) (p s : ℕ)
    → stat_wait (some slot) (some path) up stats p s waiting ≡ (
        if p == path && s == slot
        then (if up then suc (stats p s waiting) % u64 else stats p s waiting - 1)
        else stats p s waiting)
unfolding stat_wait
stat_wait_lem slot path up stats p s = elim (Bool-cases (p == path)) [
  | inr e ↦ rw e refl
  | inl e ↦ elim (Bool-cases (s == slot)) [
    | inr e' ↦ rw (e, e') (ground (arith, e))
    | inl e' ↦
        let ep : p ≡ path = (==_iff p path).0 e in
        let es : s ≡ slot = (==_iff s slot).0 e' in
        rw (e, e', ep, es) (ite_yes (Metric-discrete waiting waiting) _ _ refl)
  ]
]

-- A counter other than the gauge.
stat_add_lem :
    (slot path : Option ℕ) (field : Metric) (n : ℕ) (stats : Stats) (p s : ℕ)
    → waiting ≢ field
    → stat_add slot path field n stats p s waiting ≡ stats p s waiting
unfolding stat_add
stat_add_lem none path field n stats p s h = refl
stat_add_lem (some slot) none field n stats p s h = refl
stat_add_lem (some slot) (some path) field n stats p s h = elim (Bool-cases (p == path)) [
  | inr e ↦ rw e refl
  | inl e ↦ elim (Bool-cases (s == slot)) [
    | inr e' ↦ rw (e, e') (ground (arith, e))
    | inl e' ↦
        let ep : p ≡ path = (==_iff p path).0 e in
        let es : s ≡ slot = (==_iff s slot).0 e' in
        rw (e, e', ep, es) (ite_no (Metric-discrete waiting field) _ _ h)
  ]
]

pub up_down :
    (slot path : Option ℕ) (stats between : Stats) (p s : ℕ)
    → stats p s waiting + 1 < u64
    → ((i j : ℕ) → between i j waiting ≡ stat_wait slot path true stats i j waiting)
    → stat_wait slot path false between p s waiting ≡ stats p s waiting
unfolding stat_wait
up_down none path stats between p s lt h = h p s
up_down (some slot) none stats between p s lt h = h p s
up_down (some slot) (some path) stats between p s lt h = ground (
  arith,
  lt,
  h p s,
  stat_wait_lem slot path false between p s,
  stat_wait_lem slot path true stats p s,
)

enqueued_gauge :
    (slot path : Option ℕ) (n : ℕ) (stats : Stats) (p s : ℕ)
    → stat_add slot path enqueued n stats p s waiting ≡ stats p s waiting
enqueued_gauge slot path n stats p s =
    stat_add_lem slot path enqueued n stats p s (λ e. grind (arith, e))

enqueued_full_gauge :
    (slot path : Option ℕ) (n : ℕ) (stats : Stats) (p s : ℕ)
    → stat_add slot path enqueued_full n stats p s waiting ≡ stats p s waiting
enqueued_full_gauge slot path n stats p s =
    stat_add_lem slot path enqueued_full n stats p s (λ e. grind (arith, e))

deduplicated_gauge :
    (slot path : Option ℕ) (n : ℕ) (stats : Stats) (p s : ℕ)
    → stat_add slot path deduplicated n stats p s waiting ≡ stats p s waiting
deduplicated_gauge slot path n stats p s =
    stat_add_lem slot path deduplicated n stats p s (λ e. grind (arith, e))

invalidated_gauge :
    (slot path : Option ℕ) (n : ℕ) (stats : Stats) (p s : ℕ)
    → stat_add slot path invalidated n stats p s waiting ≡ stats p s waiting
invalidated_gauge slot path n stats p s =
    stat_add_lem slot path invalidated n stats p s (λ e. grind (arith, e))

pub overflow_gauge :
    (slot path : Option ℕ) (n : ℕ) (stats : Stats) (p s : ℕ)
    → stat_add slot path overflow n stats p s waiting ≡ stats p s waiting
overflow_gauge slot path n stats p s =
    stat_add_lem slot path overflow n stats p s (λ e. grind (arith, e))

-- The gauge in two queues.
abbrev pub SameGauge : {S : Type 0} → Queue S → Queue S → Type 0
SameGauge q q' = (p s : ℕ) → q'.stats p s waiting ≡ q.stats p s waiting

module _ {S T : Type 0} (text : Text) (caseless : Bool) (slab : Slab S) (ns_slab : Slab T) where
  deduplicate-gauge :
      (r : Request) (ns : Option (Namespace T)) (path addr : ℕ) (q : Queue S)
      → SameGauge q (deduplicate text caseless slab ns_slab r ns path addr q).queue
  unfolding deduplicate
  deduplicate-gauge r ns path addr q p s =
      elim (Bool-cases (is_ok (invalidate_namespace text caseless slab ns_slab r ns).0)) [
        | inr e ↦ rw (e, deduplicate) refl
        | inl e ↦ elim (Bool-cases (is_namespaced ns)) [
          | inl e' ↦ rw (e, e', deduplicate) (simp (deduplicated_gauge, invalidated_gauge))
          | inr e' ↦ rw (e, e', deduplicate) (simp deduplicated_gauge)
        ]
      ]

  admit-gauge :
      (r : Request) (ns : Option (Namespace T)) (path addr : ℕ) (pool : S) (q : Queue S)
      → SameGauge q (admit text caseless slab ns_slab r ns path addr pool q).queue
  unfolding admit
  admit-gauge r ns path addr pool q p s =
      elim (Bool-cases (is_ok (invalidate_namespace text caseless slab ns_slab r ns).0)) [
        | inr e ↦ rw (e, admit) refl
        | inl e ↦ elim (Bool-cases (is_namespaced ns)) [
          | inl e' ↦
              rw (e, e', admit) (simp (enqueued_gauge, enqueued_full_gauge, invalidated_gauge))
          | inr e' ↦ rw (e, e', admit) (simp (enqueued_gauge, enqueued_full_gauge))
        ]
      ]

  enqueue_at-gauge :
      (r : Request) (ns : Option (Namespace T)) (path : ℕ) (q : Queue S)
      → SameGauge q (enqueue_at text caseless slab ns_slab r ns path q).queue
  unfolding enqueue_at
  enqueue_at-gauge r ns path q p s = grind (arith, deduplicate-gauge, admit-gauge)

  pub enqueue-gauge :
      (r : Request) (ns : Option (Namespace T)) (q : Queue S)
      → SameGauge q (enqueue text caseless slab ns_slab r ns q).queue
  unfolding enqueue
  enqueue-gauge r ns q p s = elim (Option-cases (find_path text caseless r.cache_path q.paths)) [
    | inl e ↦ ground (arith, e)
    | inr (path, e) ↦ ground (arith, e, enqueue_at-gauge r ns path q p s)
  ]
