-- ===== src/Examples/Libserver.antt =====
-- A server that serves one client and is told to terminate.
use rpc_library.Common.{true, ◌≡◌, ◌≢◌, refl, arith}
use rpc_library.Libserver.Threads.{
  count_listeners, create_binder, create_clients, sees_terminating, is_told, binder_ends, releases,
  counts, creates, fails_to_create, still_busy, leave, client_ends, Reach, start, later, ServeState,
  gone, counted, returned,
}
use rpc_library.Libserver.Counting.{in_loop, only_listener_left}
use rpc_library.Libserver.Waiting.{Run, stay, go, failed_thread_blocks_serve}
use rpc_library.Libserver.Leaving.{serve_may_abandon_clients}

record Told : Type 0 where
  state : ServeState
  reach : Reach state

abbrev told : Told
told = record {
  state = _;
  reach =
      later
        (later
          (later
            (later
              (later
                (later
                  (later
                    (later (later (later start (count_listeners refl)) (create_binder refl))
                      (create_clients refl))
                    (releases refl))
                  (counts refl))
                (creates refl))
              (is_told refl))
            (binder_ends refl))
          (client_ends 0 refl))
        (sees_terminating refl refl);
}

only_listener_left_example :
    (told.state.binder ≡ gone)
    × (told.state.listener ≢ counted)
    × (told.state.serving ≡ 0)
    × (told.state.lost ≡ 0)
only_listener_left_example = only_listener_left told.reach (leave refl refl) refl refl (omega arith)

serve_may_abandon_clients_example :
    (s : ServeState) × Reach s × (s.main ≡ returned 0) × (s.serving ≡ 3)
serve_may_abandon_clients_example = serve_may_abandon_clients 3

-- The creation of the first thread for a client fails.
abbrev bereft : Told
bereft = record {
  state = _;
  reach =
      later
        (later
          (later
            (later (later (later start (count_listeners refl)) (create_binder refl))
              (create_clients refl))
            (releases refl))
          (counts refl))
        (fails_to_create refl);
}

-- The binder tells the server to end, and `serve` looks at its variables.
record Looking : Type 0 where
  seen : ServeState
  run : Run bereft.state seen

abbrev looking : Looking
looking = record {
  seen = _;
  run =
      go
        (go (go (go stay (omega arith) (is_told refl)) (omega arith) (binder_ends refl))
          (omega arith) (sees_terminating refl refl))
        (omega arith) (still_busy refl refl);
}

failed_thread_blocks_serve_example : in_loop looking.seen.main ≡ true
failed_thread_blocks_serve_example =
    failed_thread_blocks_serve bereft.reach (omega arith) refl looking.run
