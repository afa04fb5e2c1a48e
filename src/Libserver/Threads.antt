-- ===== src/Libserver/Threads.antt =====
-- `serve` of libserver.cc: the main thread, the two listeners and the threads that serve clients, in any
-- order of their steps. `inc_threads` takes its lock, so it is one step; `total_threads` is an `int`.
use rpc_library.Common.{ℕ, suc, ◌-◌, ◌^◌, ◌≡◌, Bool, true, false}
use rpc_library.Message.{int_of_code, binder_connection_error}
use rpc_library.Common.Ints.{add32, int_ltb}

-- Where `serve` stands. It reads the two variables of its loop one after the other.
pub data MainPc : Type 0 where
  starting : MainPc  -- before inc_threads(2)
  creating_binder : MainPc  -- before the first pthread_create
  creating_clients : MainPc  -- before the second
  waiting : MainPc  -- before it reads `terminating`
  saw_terminating : MainPc  -- before it reads `total_threads`
  left : MainPc  -- behind the loop
  cancelling : MainPc  -- in pthread_join
  joined : MainPc  -- before it answers the binder
  returned : ℕ → MainPc

-- binder_listen_thread
pub data BinderPc : Type 0 where
  unborn : BinderPc
  listening : BinderPc
  stopping : BinderPc  -- between `terminating = true` and inc_threads(-1)
  gone : BinderPc

-- client_listen_thread
pub data ListenerPc : Type 0 where
  not_created : ListenerPc
  selecting : ListenerPc
  holding : ListenerPc  -- between releaseConnection and inc_threads(1)
  counted : ListenerPc  -- between inc_threads(1) and pthread_create
  cancelled : ListenerPc

-- The variables, how many threads serve a client, and how many were counted and could not be created
pub record ServeState : Type 0 where
  pub total_threads : ℕ
  pub terminating : Bool
  pub main : MainPc
  pub binder : BinderPc
  pub listener : ListenerPc
  pub serving : ℕ
  pub lost : ℕ

-- inc_threads(-1)
abbrev pub minus_one : ℕ
minus_one = 2 ^ 32 - 1

-- Whether the TerminateSuccess could be sent
abbrev pub status_of : Bool → ℕ
status_of true = 0
status_of false = int_of_code binder_connection_error

abbrev pub initial : ServeState
initial = record {
  total_threads = 0;
  terminating = false;
  main = starting;
  binder = unborn;
  listener = not_created;
  serving = 0;
  lost = 0;
}

pub data Step (s : ServeState) : ServeState → Type 0 where
  -- serve
  count_listeners :
      s.main ≡ starting
      → Step s (record s { total_threads = add32 s.total_threads 2; main = creating_binder })
  create_binder :
      s.main ≡ creating_binder → Step s (record s { main = creating_clients; binder = listening })
  create_clients :
      s.main ≡ creating_clients → Step s (record s { main = waiting; listener = selecting })
  not_terminating : s.main ≡ waiting → s.terminating ≡ false → Step s s
  sees_terminating :
      s.main ≡ waiting → s.terminating ≡ true → Step s (record s { main = saw_terminating })
  still_busy :
      s.main ≡ saw_terminating
      → int_ltb 1 s.total_threads ≡ true
      → Step s (record s { main = waiting })
  leave :
      s.main ≡ saw_terminating
      → int_ltb 1 s.total_threads ≡ false
      → Step s (record s { main = left })
  cancel : s.main ≡ left → Step s (record s { main = cancelling })
  join : s.main ≡ cancelling → s.listener ≡ cancelled → Step s (record s { main = joined })
  answers : (sent : Bool) → s.main ≡ joined → Step s (record s { main = returned (status_of sent) })
  -- binder_listen_thread: another message, and a TERMINATE or an error
  ignores : s.binder ≡ listening → Step s s
  is_told : s.binder ≡ listening → Step s (record s { terminating = true; binder = stopping })
  binder_ends :
      s.binder ≡ stopping
      → Step s (record s { total_threads = add32 s.total_threads minus_one; binder = gone })
  -- client_listen_thread. `select` is where it can be cancelled.
  releases : s.listener ≡ selecting → Step s (record s { listener = holding })
  counts :
      s.listener ≡ holding
      → Step s (record s { total_threads = add32 s.total_threads 1; listener = counted })
  creates :
      s.listener ≡ counted → Step s (record s { listener = selecting; serving = suc s.serving })
  -- The result of pthread_create is not read.
  fails_to_create :
      s.listener ≡ counted → Step s (record s { listener = selecting; lost = suc s.lost })
  is_cancelled :
      s.listener ≡ selecting → s.main ≡ cancelling → Step s (record s { listener = cancelled })
  -- serve_client_thread, at its end
  client_ends :
      (n : ℕ)
      → s.serving ≡ suc n
      → Step s (record s { total_threads = add32 s.total_threads minus_one; serving = n })

pub data Reach : ServeState → Type 0 where
  start : Reach initial
  later : {s t : ServeState} → Reach s → Step s t → Reach t
