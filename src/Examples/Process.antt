-- ===== src/Examples/Process.antt =====
-- A binder that accepts a connection and a registration over it.
use rpc_library.Common.{ℕ, ◌≡◌, refl, Bool, true, false, [], ◌∷◌, none, some, ok, ◌==◌}
use rpc_library.Examples.Data.{server_a, sig_f}
use rpc_library.Examples.Binder.{opened}
use rpc_library.Arg.{
  get_arg_type, get_arg_length, is_only_input, is_only_output, is_input_output, number_of_args,
}
use rpc_library.Signature.{
  signature_of_arg_types, arguments_of, argument_of, data_type_of, direction_of, dimension_of,
}
use rpc_library.Wire.{decode_string, decode_integer, decode_integers, check_num_args}
use rpc_library.Message
use rpc_library.Message.{raw_message, extract_message_type, type_of_byte}
use rpc_library.Messages.Fields.{read_message, decode_arg_types, copy_arg_types}
use rpc_library.Messages.Register.{read_register, new_register, deserialize_register}
use rpc_library.Messages.Status.{serialize_status}
use rpc_library.Binder.Database.{empty_database}
use rpc_library.Binder.Terminating.{failed}
use rpc_library.Binder.History.{registers, run}
use rpc_library.Binder.Loop.{
  message, delivered, dispatch, handle_register, respond, after_dispatch, serve_client,
}
use rpc_library.Binder.Process.{
  Process, RoundInput, serve_socket, serve_sockets, accept_one, clients_of, binder_round,
  binder_main, new_process,
}
use rpc_library.Binder.Process.Live.{AllStored}
use rpc_library.Binder.Process.Open.{IsOpen}
use rpc_library.Binder.Process.Sockets.{database_sockets-IsOpen}
use rpc_library.TcpServer.{
  new_server, add_connection, accept_if_any, visit, visit_below, connections_with_data,
}
use rpc_library.Examples.Requests.{register_bytes}

abbrev only_4 : ℕ → Bool
only_4 fd = fd == 4

abbrev accepts_4 : RoundInput
accepts_4 = record {
  accepts = some (true, some 4);
  address = 7;
  ready = some (λ fd. false);
  traffic = λ s. (ok (message []), delivered);
  replies = λ s. failed;
}

abbrev hears_4 : RoundInput
hears_4 = record {
  accepts = none;
  address = 0;
  ready = some only_4;
  traffic = λ s. (ok (message register_bytes), delivered);
  replies = λ s. failed;
}

abbrev registered_process : Process
registered_process = record {
  tcp_server = add_connection 4 7 (new_server 3);
  state = record {
    database = run empty_database (registers sig_f server_a ∷ []);
    running = true;
    sent = (7, serialize_status Message.register_success 0) ∷ [];
    forgotten = [];
  };
}

two_rounds : binder_main (accepts_4 ∷ hears_4 ∷ []) (new_process 3) ≡ ok registered_process
unfolding opened binder_main binder_round clients_of accept_one serve_sockets serve_socket
    serve_client after_dispatch respond dispatch handle_register connections_with_data visit_below
    visit accept_if_any add_connection deserialize_register read_register read_message decode_string
    decode_integer decode_integers decode_arg_types check_num_args new_register copy_arg_types
    number_of_args raw_message extract_message_type type_of_byte signature_of_arg_types arguments_of
    argument_of data_type_of direction_of dimension_of get_arg_type get_arg_length is_only_input
    is_only_output is_input_output
two_rounds = refl

database_sockets-IsOpen_example :
    AllStored
      (λ s. IsOpen registered_process.tcp_server s.server_socket)
      registered_process.state.database
database_sockets-IsOpen_example =
    database_sockets-IsOpen 3 (accepts_4 ∷ hears_4 ∷ []) registered_process two_rounds
