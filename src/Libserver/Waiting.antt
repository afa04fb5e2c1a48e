-- ===== src/Libserver/Waiting.antt =====
-- A thread for a client that could not be created (libserver.cc): it stays counted.
use rpc_library.Common.{◌^◌, ◌<◌, ◌≤◌, ◌≡◌, true, arith}
use rpc_library.Libserver.Threads.{
  ServeState, Step, count_listeners, create_binder, create_clients, not_terminating,
  sees_terminating, still_busy, leave, cancel, join, answers, ignores, is_told, binder_ends,
  releases, counts, creates, fails_to_create, is_cancelled, client_ends, Reach, later,
}
use rpc_library.Libserver.Counting.{in_loop, threads, IsCounted, Reach-IsCounted}

-- Steps from one state to another, with fewer than 2 ^ 31 threads counted before each
pub data Run (s : ServeState) : ServeState → Type 0 where
  stay : Run s s
  go : {t u : ServeState} → Run s t → threads t < 2 ^ 31 → Step t u → Run s u

record IsStuck (s : ServeState) : Type 0 where
  lost_one : 1 ≤ s.lost
  loops : in_loop s.main ≡ true

Step-IsStuck :
    {s t : ServeState} → Step s t → IsCounted s → threads s < 2 ^ 31 → IsStuck s → IsStuck t
Step-IsStuck {s} (count_listeners at) c small k = ground (arith, k)
Step-IsStuck {s} (create_binder at) c small k = ground (arith, k)
Step-IsStuck {s} (create_clients at) c small k = ground (arith, k)
Step-IsStuck (not_terminating at h) c small k = k
Step-IsStuck {s} (sees_terminating at h) c small k = ground (arith, k)
Step-IsStuck (still_busy at h) c small k = ground (arith, k)
Step-IsStuck (leave at h) c small k = ground (arith, c, k)
Step-IsStuck (cancel at) c small k = ground (arith, k)
Step-IsStuck (join at h) c small k = ground (arith, k)
Step-IsStuck (answers sent at) c small k = ground (arith, k)
Step-IsStuck (ignores at) c small k = k
Step-IsStuck (is_told at) c small k = ground (arith, k)
Step-IsStuck (binder_ends at) c small k = ground (arith, k)
Step-IsStuck (releases at) c small k = ground (arith, k)
Step-IsStuck (counts at) c small k = ground (arith, k)
Step-IsStuck (creates at) c small k = ground (arith, k)
Step-IsStuck (fails_to_create at) c small k = ground (arith, k)
Step-IsStuck (is_cancelled at h) c small k = ground (arith, k)
Step-IsStuck (client_ends n at) c small k = ground (arith, k)

Run-IsStuck : {s t : ServeState} → Reach s → IsStuck s → Run s t → Reach t × IsStuck t
Run-IsStuck r k stay = (r, k)
Run-IsStuck r k (go run small step) =
    let (r', k') = Run-IsStuck r k run in
    (later r' step, Step-IsStuck step (Reach-IsCounted r') small k')

-- If the creation of a thread for a client has failed while `serve` is in its loop, then `serve` never
-- leaves the loop, whatever steps follow, with fewer than 2 ^ 31 threads counted: the server does not end
-- when the binder tells it to.
pub failed_thread_blocks_serve :
    {s t : ServeState}
    → Reach s
    → 1 ≤ s.lost
    → in_loop s.main ≡ true
    → Run s t
    → in_loop t.main ≡ true
failed_thread_blocks_serve r lost inside run =
    (Run-IsStuck r (record { lost_one = lost; loops = inside }) run).1.loops
