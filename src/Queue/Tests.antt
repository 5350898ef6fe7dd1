-- ===== src/Queue/Tests.antt =====
-- The theorems about the queue at one cache directory, over a pool of two addresses.
use ngx_cache_purge.Prelude.{◌≤◌, ◌≡◌, refl, true, false, none, some, arith}
use ngx_cache_purge.Ngx.{ok}
use ngx_cache_purge.Queue.Task.{Task}
use ngx_cache_purge.Queue.State.{find}
use ngx_cache_purge.Queue.Recover.{recover}
use ngx_cache_purge.Queue.State.{find, at_addr}
use ngx_cache_purge.Queue.Enqueue.{enqueue_at, deduplicate, invalidate_namespace, admit}
use ngx_cache_purge.Queue.Process.{settle, complete_task}
use ngx_cache_purge.Queue.Owners.{IsHeld, recover-IsHeld}
use ngx_cache_purge.Queue.Lifecycle.{init_worker, is_new}
use ngx_cache_purge.Queue.Background.{background_handler, is_stuck, background_handler_ends}
use ngx_cache_purge.Queue.Replay.{IsReplayOf, settle-retries, complete_task-deduplicate}
use ngx_cache_purge.Queue.Counts.{All}
use mathlib.Core.List.{Mem}
use ngx_cache_purge.Queue.Samples.{
  newcomer, pace, loop, plain, two_nodes, empty_queue, request, no_namespace, running_task,
  active_queue, active-IsCounted, all_dead, countdown, worker,
}

-- The request is accepted: there is memory and no namespace.
accepted : (enqueue_at plain false two_nodes two_nodes request no_namespace 7 empty_queue).rc ≡ ok
unfolding enqueue_at find admit invalidate_namespace
accepted = refl

deduplicated :
    (deduplicate plain false two_nodes two_nodes request no_namespace 7 100 active_queue).rc ≡ ok
unfolding deduplicate invalidate_namespace
deduplicated = refl

active_task : at_addr 100 active_queue.active ≡ some running_task
unfolding at_addr
active_task = refl

complete_task-deduplicate_example :
    let q' =
      (deduplicate plain false two_nodes two_nodes request no_namespace 7 100 active_queue).queue in
    (t1 : Task) × (at_addr 100 q'.active ≡ some t1)
    × ((t' : Task) × Mem t' (complete_task two_nodes countdown worker true (0, 1) t1 q').pending
        × IsReplayOf running_task 9 t')
complete_task-deduplicate_example =
    complete_task-deduplicate plain false two_nodes two_nodes countdown worker request no_namespace
      7 100 active_queue running_task true (0, 1) deduplicated active_task refl

settle-retries_example : (settle two_nodes countdown worker true (0, 1) running_task).1.retries ≤ 3
settle-retries_example =
    settle-retries two_nodes countdown worker true (0, 1) running_task (omega arith)

recover-IsHeld_example :
    All
      (IsHeld all_dead (some 0) 60 active_queue)
      (recover all_dead (some 0) 60 true active_queue).active
recover-IsHeld_example =
    recover-IsHeld all_dead (some 0) 60 active_queue active-IsCounted (omega arith)

started : (init_worker 1024 newcomer none active_queue).rc ≡ ok
unfolding init_worker is_new
started = refl

started_new : is_new 1024 newcomer none active_queue ≡ true
unfolding is_new
started_new = refl

background_handler_ends_example :
    is_stuck (
      background_handler two_nodes countdown pace
        (λ _. worker)
        (λ _. false)
        all_dead
        (some 0)
        60
        true
        4
        loop)
    ≡ false
background_handler_ends_example =
    background_handler_ends two_nodes countdown pace (λ _. worker) (λ _. false) all_dead (some 0) 60
      true 4 loop (omega arith) (omega arith)
