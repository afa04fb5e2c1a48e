-- ===== src/Examples/ServerFunctions.antt =====
-- The procedures of the sample server, and the call of f3 in client1.c.
use native.Mathlib.Decide.{ℕ_discrete}
use mathlib.Core.List.{Perm}
use rpc_library.Common.{
  zero, suc, ℕ, ◌≡◌, refl, true, false, List, [], ◌∷◌, ◌++◌, length, take, drop, All, none, some,
  ok, fault, arith,
}
use rpc_library.Examples.Data.{host_a, server_a}
use rpc_library.TcpServer.Creating.{
  bound, ListenerInput, new_tcp_server, listen_on, find_listener, name_listener,
}
use rpc_library.TcpClient.{connected, connect_create_socket}
use rpc_library.Rpc.Starting.{
  Environment, Hosts, connect_to_binder, keep_binder, keep_server, rpc_init, read_port, skip_space,
  read_digits,
}
use rpc_library.Rpc.Executing.{unstarted}
use rpc_library.Rpc.Registering.{registering}
use rpc_library.ServerFunctions.Program.{Skeletons, server_main}
use rpc_library.ServerFunctions.Offering.{Offer, IsOffered, five, server_main_offers}
use rpc_library.Examples.Binder.{opened, second_fails}
use rpc_library.Binder.Database.{BinderDatabase, empty_database, Signature-discrete}
use rpc_library.Binder.History.{Event, registers, run}
use rpc_library.Libserver.{Skeleton, ServerDatabase, skeleton_of}
use rpc_library.Rpc.{Network, RpcState, with_binder}
use rpc_library.Rpc.Peers.{asks_binder, asks_server}
use rpc_library.ServerFunctions.{f0, f1, f3, compare_swap, bubble, sort_from, rounds}
use rpc_library.ServerFunctions.Printing.{
  signed, integer_part, part_of_float, part_of_double, digits, decimal, print_into, f2,
}
use rpc_library.ServerFunctions.Texts.{c_string, read_long, f2_prints_parts}
use rpc_library.ServerFunctions.Skeletons.{
  Running, Implements, f0_skel, f1_skel, f2_skel, f3_skel, f4_skel,
}
use rpc_library.ServerFunctions.Client.{Variables, client_main, reports}
use rpc_library.ServerFunctions.Sorting.{IsDescending, f3_sorts}
use rpc_library.ServerFunctions.Results.{AreNamed, results, client_main-results}
use rpc_library.ServerFunctions.Fitting.{AreVariables, AreSkeletons}

abbrev a3 : List ℕ
a3 = 11 ∷ 109 ∷ 107 ∷ 105 ∷ 103 ∷ 101 ∷ 102 ∷ 104 ∷ 106 ∷ 108 ∷ 110 ∷ []

-- The returns that client1.c expects
f0_expected : f0 5 10 ≡ 15
unfolding f0
f0_expected = refl

f1_expected : f1 97 100 1000 10000 ≡ 90097
unfolding f1
f1_expected = refl

f3_expected : f3 a3 ≡ ok (110 ∷ 109 ∷ 108 ∷ 107 ∷ 106 ∷ 105 ∷ 104 ∷ 103 ∷ 102 ∷ 101 ∷ 11 ∷ [])
unfolding f3 sort_from bubble compare_swap
f3_expected = refl

-- A long that is moved and is not the value of an int loses its upper half.
long_cut : f3 (2 ∷ 4294967303 ∷ []) ≡ ok (7 ∷ 2 ∷ [])
unfolding f3 sort_from bubble compare_swap
long_cut = refl

f3_sorts_example :
    (s : List ℕ) × (f3 (2 ∷ 7 ∷ 9 ∷ []) ≡ ok (s ++ drop (rounds 2) (2 ∷ 7 ∷ 9 ∷ [])))
    × IsDescending s
    × Perm s (take (rounds 2) (2 ∷ 7 ∷ 9 ∷ []))
f3_sorts_example = f3_sorts 2 (7 ∷ 9 ∷ []) (omega arith) (refl, (refl, tt))

abbrev zeros : ℕ → List ℕ
zeros zero = []
zeros (suc n) = 0 ∷ zeros n

abbrev pub run_of : (List ℕ → List (List ℕ) → Running) → Skeleton
run_of g types args = elim (g types args) [ fault why ↦ (0, args) | ok r ↦ r ]

pub run_of-Implements : (g : List ℕ → List (List ℕ) → Running) → Implements g (run_of g)
run_of-Implements g types args r e = rw (run_of, e) refl

abbrev skeletons : Skeletons
skeletons = record {
  for_f0 = run_of f0_skel;
  for_f1 = run_of f1_skel;
  for_f2 = run_of (f2_skel (some (zeros 100)));
  for_f3 = run_of f3_skel;
  for_f4 = run_of f4_skel;
}

abbrev registers_five : List Offer → List Event
registers_five [] = []
registers_five (o ∷ os) = registers o.sig server_a ∷ registers_five os

abbrev one_server : BinderDatabase
one_server = run empty_database (registers_five (five skeletons))

abbrev database_of : List Offer → ServerDatabase
database_of [] = []
database_of (o ∷ os) = (o.sig, o.skeleton) ∷ database_of os

abbrev offers : ServerDatabase
offers = database_of (five skeletons)

abbrev reaches : Network
reaches host port = some (asks_server offers)

named : AreNamed server_a (λ i. one_server) 0 (five skeletons)
unfolding opened
named = (refl, (refl, (refl, (refl, (refl, tt)))))

offered : All (IsOffered offers) (five skeletons)
unfolding IsOffered skeleton_of Signature-discrete ℕ_discrete
offered = (refl, (refl, (refl, (refl, (refl, tt)))))

-- The variables of client1.c: 5, 10, 'a', 100, 1000, 10000; the bytes of the others do not matter.
abbrev variables : Variables
variables = record {
  return0 = zeros 4;
  a0 = 5;
  b0 = 10;
  return1 = zeros 8;
  a1 = 97;
  b1 = 100;
  c1 = 1000;
  d1 = 10000;
  return2 = zeros 100;
  a2 = 1078530000;
  b2 = 4653142445085509970;
  a3 = a3;
  a4 = zeros 28;
}

abbrev rest_of_a3 : List ℕ
rest_of_a3 = 109 ∷ 107 ∷ 105 ∷ 103 ∷ 101 ∷ 102 ∷ 104 ∷ 106 ∷ 108 ∷ 110 ∷ []

sized : AreVariables variables rest_of_a3
sized = record {
  return0 = refl;
  a0 = omega arith;
  b0 = omega arith;
  return1 = refl;
  a1 = omega arith;
  b1 = omega arith;
  c1 = omega arith;
  d1 = omega arith;
  return2 = refl;
  a2 = omega arith;
  b2 = omega arith;
  a3 = refl;
  rest_of_a3 = refl;
  ints = (refl, (refl, (refl, (refl, (refl, (refl, (refl, (refl, (refl, (refl, (refl, tt)))))))))));
  a4 = refl;
}

implemented : AreSkeletons skeletons (zeros 100)
implemented = record {
  f0_runs = run_of-Implements f0_skel;
  f1_runs = run_of-Implements f1_skel;
  f2_runs = run_of-Implements (f2_skel (some (zeros 100)));
  f3_runs = run_of-Implements f3_skel;
  f4_runs = run_of-Implements f4_skel;
}

-- 3.14159 and 1234.1001 have the integer parts 3 and 1234.
parts : (part_of_float variables.a2 ≡ ok 3) × (part_of_double variables.b2 ≡ ok 1234)
unfolding integer_part signed
parts = (refl, refl)

f2_prints_parts_example :
    (printed : List ℕ) × (f2 (some (zeros 100)) variables.a2 variables.b2 ≡ ok printed)
    × (length printed ≡ 100)
    × (c_string printed ≡ decimal 3 ++ decimal 1234)
    × (read_long (decimal 3) ≡ 3)
    × (read_long (decimal 1234) ≡ 1234)
f2_prints_parts_example =
    f2_prints_parts (zeros 100) variables.a2 variables.b2 3 1234 refl parts.0 parts.1

-- -2.5 and 0.75 print as "-2" and "0".
negative_part : f2 (some (zeros 100)) 3223322624 4604930618986332160 ≡ ok (45 ∷ 50 ∷ 48 ∷ zeros 97)
unfolding f2 integer_part signed print_into decimal digits
negative_part = refl

client_main-results_example :
    (text : List ℕ) × (a : List ℕ) × (client_main variables
        (λ n. asks_binder second_fails 12 one_server)
        none
        true
        reaches
        (unstarted [])
      ≡ ok (
        reports (results variables text a),
        results variables text a,
        with_binder true (unstarted []),
      ))
    × (c_string text ≡ decimal 3 ++ decimal 1234)
    × IsDescending a
    × Perm a a3
client_main-results_example =
    client_main-results variables rest_of_a3 skeletons (zeros 100) 3 1234 server_a offers reaches
      second_fails 12 (λ n. one_server) [] sized implemented refl parts.0 parts.1 offered named
      (omega arith) (omega arith) refl

abbrev pub environment : Environment
environment = record { binder_address = some host_a; binder_port = some (53 ∷ 48 ∷ []) }

abbrev pub hosts : Hosts
hosts host port = connected 50

abbrev pub kernel : ListenerInput
kernel = record {
  addresses = some (bound 4 ∷ []);
  listens = true;
  hostname = some host_a;
  port = some 6000;
}

pub started :
    rpc_init environment hosts kernel (unstarted []) []
    ≡ ok (0, registering host_a 6000 [], 4 ∷ 50 ∷ [])
unfolding read_port skip_space read_digits rpc_init connect_to_binder connect_create_socket
    keep_binder keep_server new_tcp_server listen_on find_listener name_listener
started = refl

server_main_offers_example :
    (st : RpcState) × (server_main environment hosts kernel skeletons
        (λ i. asks_binder second_fails 12 one_server)
        false
        0
        (unstarted [])
        []
      ≡ ok (0, st))
    × All (IsOffered st.database) (five skeletons)
server_main_offers_example =
    server_main_offers environment hosts kernel skeletons second_fails 12 (λ i. one_server) false 0
      [] (4 ∷ 50 ∷ []) host_a 6000 started (omega arith) (omega arith)
