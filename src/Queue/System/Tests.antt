-- ===== src/Queue/System/Tests.antt =====
-- A request, a pass of a worker and the recovery after it, from an empty queue.
use ngx_cache_purge.Prelude.{true, false, some}
use ngx_cache_purge.Queue.Enqueue.{enqueue}
use ngx_cache_purge.Queue.Recover.{recover}
use ngx_cache_purge.Queue.Process.{process_queue}
use ngx_cache_purge.Queue.System.{admission, recovery, pass, here, next, IsSound, Reach-IsSound}
use ngx_cache_purge.Queue.Samples.{
  plain, two_nodes, two_nodes_laws, empty_queue, request, no_namespace, all_dead, countdown, worker,
  idle, empty-IsCounted, empty-IsIndexed,
}

Reach-IsSound_example :
    let q1 = (enqueue plain false two_nodes two_nodes request no_namespace empty_queue).queue in
    let q2 = (process_queue two_nodes countdown worker false q1 idle).queue in
    IsSound plain false two_nodes two_nodes_laws two_nodes countdown 1024
      (recover all_dead (some 0) 60 true q2)
Reach-IsSound_example =
    let q1 = (enqueue plain false two_nodes two_nodes request no_namespace empty_queue).queue in
    let q2 = (process_queue two_nodes countdown worker false q1 idle).queue in
    Reach-IsSound plain false two_nodes two_nodes_laws two_nodes countdown 1024
      (next
        (next (next here (admission request no_namespace empty_queue))
          (pass worker false q1 idle tt))
        (recovery all_dead (some 0) 60 true q2))
      (empty-IsCounted, empty-IsIndexed)
