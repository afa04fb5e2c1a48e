-- ===== src/Examples/Data.antt =====
-- The inputs that the examples share.
use rpc_library.Common.{ℕ, List, [], ◌∷◌}
use rpc_library.Arg.Fields.{make_arg_type}
use rpc_library.Signature.{Signature, scalar, array, output, both, int, float}
use rpc_library.Binder.Server.{ServerData}

-- "a", "b", "f"
abbrev pub host_a : List ℕ
host_a = 97 ∷ []

abbrev pub host_b : List ℕ
host_b = 98 ∷ []

abbrev pub name_f : List ℕ
name_f = 102 ∷ []

-- An int that is only output, and an array of 42 floats that is both, as in signature_test.cc
abbrev pub out_int : ℕ
out_int = make_arg_type 1 3 0

abbrev pub both_floats : ℕ
both_floats = make_arg_type 3 6 42

abbrev pub two_args : List ℕ
two_args = out_int ∷ both_floats ∷ []

abbrev pub sig_f : Signature
sig_f = record {
  function_name = name_f;
  arguments =
      record { dimension = scalar; direction = output; data_type = int }
      ∷ record { dimension = array; direction = both; data_type = float }
      ∷ [];
}

abbrev pub server_a : ServerData
server_a = record { server_hostname = host_a; server_port = 5000; server_socket = 7 }

abbrev pub server_b : ServerData
server_b = record { server_hostname = host_b; server_port = 6000; server_socket = 8 }

-- The first server behind a restart, over a new connection
abbrev pub server_a_again : ServerData
server_a_again = record { server_hostname = host_a; server_port = 5000; server_socket = 9 }
