-- ===== src/Libserver/Counting.antt =====
-- What `total_threads` counts, and who is left when `serve` leaves its loop (libserver.cc).
use rpc_library.Common.{ℕ, ◌+◌, ◌*◌, ◌%◌, ◌^◌, ◌<◌, ◌≡◌, ◌≢◌, refl, Bool, true, false, arith}
use rpc_library.Libserver.Threads.{
  MainPc, starting, creating_binder, creating_clients, waiting, saw_terminating, BinderPc, unborn,
  stopping, gone, ListenerPc, not_created, counted, ServeState, initial, Step, count_listeners,
  create_binder, create_clients, not_terminating, sees_terminating, still_busy, leave, cancel, join,
  answers, ignores, is_told, binder_ends, releases, counts, creates, fails_to_create, is_cancelled,
  client_ends, Reach, start, later,
}

-- The threads that are counted for each part.
abbrev pub of_main : MainPc → ℕ
of_main starting = 0
of_main _ = 1

abbrev pub of_binder : BinderPc → ℕ
of_binder gone = 0
of_binder _ = 1

abbrev pub of_listener : ListenerPc → ℕ
of_listener counted = 1
of_listener _ = 0

-- The listener for clients is counted from the start and never uncounted.
abbrev pub threads : ServeState → ℕ
threads s = of_main s.main * (1 + of_binder s.binder) + of_listener s.listener + s.serving + s.lost

-- In the loop of `serve`
abbrev pub in_loop : MainPc → Bool
in_loop waiting = true
in_loop saw_terminating = true
in_loop _ = false

-- Behind a look at `terminating` that found it set.
abbrev pub has_seen : MainPc → Bool
has_seen starting = false
has_seen creating_binder = false
has_seen creating_clients = false
has_seen waiting = false
has_seen _ = true

abbrev has_stopped : BinderPc → Bool
has_stopped stopping = true
has_stopped gone = true
has_stopped _ = false

abbrev before_start : MainPc → Bool
before_start starting = true
before_start creating_binder = true
before_start _ = false

abbrev before_listener : MainPc → Bool
before_listener creating_clients = true
before_listener m = before_start m

pub record IsCounted (s : ServeState) : Type 0 where
  pub total : s.total_threads ≡ threads s % 2 ^ 32
  pub seen : has_seen s.main ≡ true → s.terminating ≡ true
  pub stopped : s.terminating ≡ true → has_stopped s.binder ≡ true
  pub unborn_before : before_start s.main ≡ true → s.binder ≡ unborn
  pub absent_before : before_listener s.main ≡ true → s.listener ≡ not_created

initial-IsCounted : IsCounted initial
initial-IsCounted = record {
  total = refl;
  seen = λ h. cc;
  stopped = λ h. cc;
  unborn_before = λ h. refl;
  absent_before = λ h. refl;
}

Step-IsCounted : {s t : ServeState} → Step s t → IsCounted s → IsCounted t
Step-IsCounted {s} (count_listeners at) c = ground (arith, c)
Step-IsCounted {s} (create_binder at) c = ground (arith, c)
Step-IsCounted {s} (create_clients at) c = ground (arith, c)
Step-IsCounted (not_terminating at h) c = c
Step-IsCounted {s} (sees_terminating at h) c = ground (arith, c)
Step-IsCounted (still_busy at h) c = ground (arith, c)
Step-IsCounted (leave at h) c = ground (arith, c)
Step-IsCounted (cancel at) c = ground (arith, c)
Step-IsCounted (join at h) c = ground (arith, c)
Step-IsCounted (answers sent at) c = ground (arith, c)
Step-IsCounted (ignores at) c = c
Step-IsCounted (is_told at) c = ground (arith, c)
Step-IsCounted (binder_ends at) c = ground (arith, c)
Step-IsCounted (releases at) c = ground (arith, c)
Step-IsCounted (counts at) c = ground (arith, c)
Step-IsCounted (creates at) c = ground (arith, c)
Step-IsCounted {s} (fails_to_create at) c = ground (arith, c)
Step-IsCounted (is_cancelled at h) c = ground (arith, c)
Step-IsCounted (client_ends n at) c = ground (arith, c)

pub Reach-IsCounted : {s : ServeState} → Reach s → IsCounted s
Reach-IsCounted start = initial-IsCounted
Reach-IsCounted (later r step) = Step-IsCounted step (Reach-IsCounted r)

-- If a step takes `serve` out of its loop, and fewer than 2 ^ 31 threads are counted before it, then the
-- listener for the binder has ended, no thread serves a client, none could not be created, and no thread
-- is counted for a client and yet to be created: of the counted threads only the listener for clients is
-- left. A connection that the listener has taken and not counted is not excluded.
pub only_listener_left :
    {s t : ServeState}
    → Reach s
    → Step s t
    → in_loop s.main ≡ true
    → in_loop t.main ≡ false
    → threads s < 2 ^ 31
    → (s.binder ≡ gone) × (s.listener ≢ counted) × (s.serving ≡ 0) × (s.lost ≡ 0)
only_listener_left {s} r (leave at few) inside out small = ground (arith, Reach-IsCounted r)
only_listener_left {s} r (count_listeners at) inside out small = ground arith
only_listener_left {s} r (create_binder at) inside out small = ground arith
only_listener_left {s} r (create_clients at) inside out small = ground arith
only_listener_left {s} r (not_terminating at h) inside out small = ground arith
only_listener_left {s} r (sees_terminating at h) inside out small = ground arith
only_listener_left {s} r (still_busy at h) inside out small = ground arith
only_listener_left {s} r (cancel at) inside out small = ground arith
only_listener_left {s} r (join at h) inside out small = ground arith
only_listener_left {s} r (answers sent at) inside out small = ground arith
only_listener_left {s} r (ignores at) inside out small = ground arith
only_listener_left {s} r (is_told at) inside out small = ground arith
only_listener_left {s} r (binder_ends at) inside out small = ground arith
only_listener_left {s} r (releases at) inside out small = ground arith
only_listener_left {s} r (counts at) inside out small = ground arith
only_listener_left {s} r (creates at) inside out small = ground arith
only_listener_left {s} r (fails_to_create at) inside out small = ground arith
only_listener_left {s} r (is_cancelled at h) inside out small = ground arith
only_listener_left {s} r (client_ends n at) inside out small = ground arith
