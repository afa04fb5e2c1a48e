-- ===== src/Libserver/Leaving.antt =====
-- Threads that start behind the loop of `serve` (libserver.cc): the listener for clients still accepts
-- when `serve` has read its variables for the last time.
use rpc_library.Common.{ℕ, zero, suc, ◌≡◌, refl, true, ap}
use rpc_library.Libserver.Threads.{
  left, returned, selecting, ServeState, count_listeners, create_binder, create_clients,
  sees_terminating, leave, cancel, join, answers, is_told, binder_ends, releases, counts, creates,
  is_cancelled, Reach, start, later,
}

-- A reachable state behind the loop, with `n` threads that serve clients.
pub record Left (n : ℕ) : Type 0 where
  pub state : ServeState
  pub reach : Reach state
  pub behind_loop : state.main ≡ left
  pub accepting : state.listener ≡ selecting
  pub serves : state.serving ≡ n

first_leave : Left 0
first_leave = record {
  state = _;
  reach =
      later
        (later
          (later
            (later
              (later (later (later start (count_listeners refl)) (create_binder refl))
                (create_clients refl))
              (is_told refl))
            (binder_ends refl))
          (sees_terminating refl refl))
        (leave refl refl);
  behind_loop = refl;
  accepting = refl;
  serves = refl;
}

one_more : (n : ℕ) → Left n → Left (suc n)
one_more n l = record {
  state = _;
  reach = later (later (later l.reach (releases l.accepting)) (counts refl)) (creates refl);
  behind_loop = l.behind_loop;
  accepting = refl;
  serves = ap suc l.serves;
}

leave_behind : (n : ℕ) → Left n
leave_behind zero = first_leave
leave_behind (suc n) = one_more n (leave_behind n)

-- For every number `n` there is an order of steps in which `serve` has returned 0 while `n` threads
-- still serve clients.
pub serve_may_abandon_clients :
    (n : ℕ) → (s : ServeState) × Reach s × (s.main ≡ returned 0) × (s.serving ≡ n)
serve_may_abandon_clients n =
    let l = leave_behind n in
    let cancelled_later = is_cancelled l.accepting refl in
    (
      _,
      later (later (later (later l.reach (cancel l.behind_loop)) cancelled_later) (join refl refl))
          (answers true refl),
      refl,
      l.serves,
    )
