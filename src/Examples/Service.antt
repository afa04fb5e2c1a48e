-- ===== src/Examples/Service.antt =====
-- A binder that accepts a connection and a registration over it, against the directory.
use mathlib.Core.Path.{subst}
use rpc_library.Common.{
  ℕ, ◌≡◌, refl, true, false, [], ◌∷◌, none, some, ok, ◌==◌, arith, Bool-cases, inl, inr,
  if◌then◌else◌,
}
use rpc_library.Binder.Terminating.{failed}
use rpc_library.Binder.Loop.{message, recv_error, delivered}
use rpc_library.Binder.Process.{
  Process, RoundInput, serve_sockets, accept_one, clients_of, binder_round, binder_main,
  new_process,
}
use rpc_library.Binder.Process.Answering.{Returns, IsReadable, AreReadable}
use rpc_library.Binder.Process.Total.{FitsSelect, IsServiceable, binder_main_total}
use rpc_library.TcpServer.{
  Socket, TcpServer, new_server, add_connection, accept_if_any, visit, visit_below,
  connections_with_data,
}
use rpc_library.Arg.{
  get_arg_type, get_arg_length, is_only_input, is_only_output, is_input_output, number_of_args,
}
use rpc_library.Signature.{
  signature_of_arg_types, arguments_of, argument_of, data_type_of, direction_of, dimension_of,
}
use rpc_library.Message.{raw_message, extract_message_type, type_of_byte}
use rpc_library.Messages.RegisterRoundTrip.{registration as register_message}
use rpc_library.Examples.Data.{host_a, name_f, two_args, sig_f}
use rpc_library.Binder.Service.{registration, Service, new_service}
use rpc_library.Examples.Requests.{register_bytes, register_bytes_read}

abbrev accepting : RoundInput
accepting = record {
  accepts = some (true, some 4);
  address = 7;
  ready = some (λ fd. false);
  traffic = λ s. (ok recv_error, delivered);
  replies = λ s. failed;
}

abbrev hearing : RoundInput
hearing = record {
  accepts = none;
  address = 0;
  ready = some (λ fd. fd == 4);
  traffic = λ s.
      if s.address == 7
      then (ok (message register_bytes), delivered)
      else (ok recv_error, delivered);
  replies = λ s. failed;
}

accepting-FitsSelect : FitsSelect accepting
accepting-FitsSelect fd h = let e : 4 ≡ fd = cc h in rw (← e) (omega arith)

hearing-FitsSelect : FitsSelect hearing
hearing-FitsSelect fd h = cc h

abbrev accepted_service : Service
accepted_service = record (new_service 3) { tcp_server = add_connection 4 7 (new_server 3) }

abbrev socket_4 : Socket
socket_4 = record { address = 7; fd = 4 }

abbrev once_accepted : Process
once_accepted = record {
  tcp_server = add_connection 4 7 (new_server 3);
  state = (new_process 3).state;
}

accepted_4 : binder_round accepting (new_process 3) ≡ ok once_accepted
unfolding binder_round clients_of accept_one serve_sockets connections_with_data visit_below visit
    accept_if_any add_connection
accepted_4 = refl

register_bytes-IsReadable :
    IsReadable (raw_message register_bytes).message_type (raw_message register_bytes)
unfolding raw_message extract_message_type type_of_byte signature_of_arg_types arguments_of
    argument_of data_type_of direction_of dimension_of number_of_args get_arg_type get_arg_length
    is_only_input is_only_output is_input_output
register_bytes-IsReadable =
    (register_message host_a 5000 name_f two_args, register_bytes_read, (sig_f, refl))

accepting-IsServiceable : IsServiceable accepting (new_process 3)
accepting-IsServiceable = record {
  fits = accepting-FitsSelect;
  reported = λ fd. false;
  answered = refl;
  asked = λ server a fd h. cc h;
  no_overflow = λ s. refl;
  readable = λ s. (recv_error, refl, tt);
}

hearing-AreReadable : AreReadable hearing.traffic
hearing-AreReadable s = elim (Bool-cases (s.address == 7)) [
  | inl own ↦ (message register_bytes, rw own refl, register_bytes-IsReadable)
  | inr other ↦ (recv_error, rw other refl, tt)
]

hearing-asked :
    (server : TcpServer)
    → accept_one hearing once_accepted.tcp_server ≡ ok server
    → (fd : ℕ) → (fd == 4) ≡ true
    → server.fd_master fd ≡ true
unfolding accept_one add_connection
hearing-asked server a fd h =
    let same : once_accepted.tcp_server ≡ server = cc a in
    subst (λ (st : TcpServer). st.fd_master fd ≡ true) same (ground (arith, h))

hearing-IsServiceable : (p : Process) → once_accepted ≡ p → IsServiceable hearing p
hearing-IsServiceable p same = subst (IsServiceable hearing) same (record {
  fits = hearing-FitsSelect;
  reported = λ fd. fd == 4;
  answered = refl;
  asked = hearing-asked;
  no_overflow = λ s. refl;
  readable = hearing-AreReadable;
})

binder_main_total_example : Returns (binder_main (accepting ∷ hearing ∷ []) (new_process 3))
binder_main_total_example =
    binder_main_total 3 (accepting ∷ hearing ∷ [])
      (accepting-IsServiceable, λ p h. (hearing-IsServiceable p (cc (accepted_4, h)), λ q h'. tt))
