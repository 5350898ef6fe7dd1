-- ===== src/Queue/Probe.antt =====
-- `ngx_http_cache_purge_probe_credit`: at most 16 probes of a refresh run at once, over all workers.
use mathlib.Core.Path.{subst}
use ngx_cache_purge.Prelude.{
  ℕ, zero, suc, ◌+◌, ◌-◌, ◌≡◌, ◌≢◌, refl, Bool, true, Bool-cases, inl, inr, ◌&&◌, ◌||◌, not, leb,
  ◌==◌, if◌then◌else◌, arith,
}
use ngx_cache_purge.Ngx.{Rc, ok, again}
use ngx_cache_purge.Queue.State.{update}
use ngx_cache_purge.Queue.Status.{true_sum}

-- `NGX_CACHE_PURGE_REFRESH_PROBES`.
abbrev pub refresh_probes : ℕ
refresh_probes = 16

-- The outcome, and the probes of each slot.
pub record Credit : Type 0 where
  pub rc : Rc
  pub probes : ℕ → ℕ

module _ (max_processes : ℕ) (process_alive : ℕ → Bool) (owners : ℕ → ℕ) where
  -- A slot whose process is gone has no probes.
  unfoldable pub probes_of : ℕ → ℕ → ℕ
  probes_of slot probes =
      if not (probes == 0) && (owners slot == 0 || not (process_alive (owners slot)))
      then 0
      else probes

  -- The loop over the first `n` slots, which writes them; the others keep their values.
  unfoldable pub sweep : ℕ → (ℕ → ℕ) → ℕ → ℕ
  sweep zero probes = probes
  sweep (suc n) probes = update (sweep n probes) n (probes_of n (probes n))

  unfoldable pub give : ℕ → (ℕ → ℕ) → ℕ → ℕ
  give slot probes = update probes slot (probes slot - 1)

  -- `slot` is the worker's; `locked` says whether the `trylock` of a take succeeds.
  unfoldable pub probe_credit : Bool → Bool → ℕ → (ℕ → ℕ) → Credit
  probe_credit take locked slot probes =
      if not take
      then record { rc = ok; probes = give slot probes }
      else if not locked
      then record { rc = again; probes = probes }
      else (let swept = sweep max_processes probes in
          if leb refresh_probes (true_sum swept max_processes)
          then record { rc = again; probes = swept }
          else record { rc = ok; probes = update swept slot (swept slot + 1) })

module _ (max_processes : ℕ) (process_alive : ℕ → Bool) (owners : ℕ → ℕ) where
  probes_of_live :
      (slot p : ℕ)
      → owners slot ≢ 0
      → process_alive (owners slot) ≡ true
      → probes_of max_processes process_alive owners slot p ≡ p
  unfolding probes_of
  probes_of_live slot p owned alive = ground (arith, owned, alive)

  pub sweep_live :
      (n : ℕ) (probes : ℕ → ℕ) (j : ℕ)
      → owners j ≢ 0
      → process_alive (owners j) ≡ true
      → sweep max_processes process_alive owners n probes j ≡ probes j
  unfolding sweep
  sweep_live zero probes j owned alive = refl
  sweep_live (suc n) probes j owned alive = elim (Bool-cases (j == n)) [
    | inl same ↦
        let e : j ≡ n = ground (arith, same) in
        rw same (
          subst (λ x. probes_of max_processes process_alive owners x (probes x) ≡ probes j) e
            (probes_of_live j (probes j) owned alive))
    | inr apart ↦ rw apart (sweep_live n probes j owned alive)
  ]
