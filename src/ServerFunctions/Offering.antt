-- ===== src/ServerFunctions/Offering.antt =====
-- What the sample server offers once it serves (server.c, rpc.cc).
use native.Mathlib.Decide.{ℕ_discrete}
use rpc_library.Common.{
  ℕ, ◌+◌, ◌*◌, ◌^◌, ◌<◌, ◌≡◌, refl, Bool, List, [], ◌∷◌, length, some, ok, ◌>>=◌, All, arith,
}
use rpc_library.Common.Ints.{IsInt}
use rpc_library.Arg.{
  AreArgTypes, terminated, get_arg_type, get_arg_length, is_only_input, is_only_output,
  is_input_output, number_of_args,
}
use rpc_library.Signature.{
  Signature, Argument, InOutBoth, DataType, scalar, array, input, output, both, char, short, int,
  long, double, float, signature_of_arg_types, arguments_of, argument_of, data_type_of,
  direction_of, dimension_of,
}
use rpc_library.Binder.Server.{ServerData}
use rpc_library.Binder.Database.{BinderDatabase, Signature-discrete}
use rpc_library.Binder.Terminating.{Reply}
use rpc_library.Libserver.{Skeleton, ServerDatabase, skeleton_of, set_skeleton}
use rpc_library.TcpServer.Creating.{Descriptors, ListenerInput}
use rpc_library.Rpc.{RpcState}
use rpc_library.Rpc.Peers.{asks_binder}
use rpc_library.Rpc.Starting.{Environment, Hosts, rpc_init, rpc_execute}
use rpc_library.Rpc.Executing.{unstarted}
use rpc_library.Rpc.Registering.{registering, register_stores_skeleton}
use rpc_library.ServerFunctions.Program.{
  name_of, arg_types_f0, arg_types_f1, arg_types_f2, arg_types_f3, arg_types_f4, Skeletons,
  Registration, registration, register_all, registrations, server_main,
}

-- A procedure with its signature
pub record Offer : Type 0 where
  pub name : List ℕ
  pub args : List ℕ
  pub sig : Signature
  pub skeleton : Skeleton

pub record IsOffer (o : Offer) : Type 0 where
  pub valid : AreArgTypes o.args
  pub short_enough : length o.name + 4 * length o.args < 1000
  pub signed : signature_of_arg_types o.name (terminated o.args) ≡ ok o.sig

abbrev stored : List Offer → ServerDatabase → ServerDatabase
stored [] db = db
stored (o ∷ os) db = stored os (set_skeleton o.sig o.skeleton db)

module _ (replies : ServerData → Reply) (client : ℕ) (binder : ℕ → BinderDatabase) where
  abbrev registrations_from : ℕ → List Offer → List Registration
  registrations_from i [] = []
  registrations_from i (o ∷ os) =
      registration o.name o.args o.skeleton (asks_binder replies client (binder i))
      ∷ registrations_from (i + 1) os

  register_all-stored :
      (host : List ℕ) (port : ℕ) (i : ℕ) (os : List Offer) (db : ServerDatabase)
      → IsInt port
      → length host < 2 ^ 30
      → All IsOffer os
      → register_all (registrations_from i os) (registering host port db)
        ≡ ok (registering host port (stored os db))
  unfolding register_all
  register_all-stored host port i [] db is_int fits h = refl
  register_all-stored host port i (o ∷ os) db is_int fits h =
      let small = h.0.short_enough in
      rw
        (
          (register_stores_skeleton host port o.name o.args h.0.valid is_int (omega arith) o.sig
              h.0.signed replies client (binder i) o.skeleton db).0,
          ◌>>=◌,
        )
        (register_all-stored host port (i + 1) os (set_skeleton o.sig o.skeleton db) is_int fits
          h.1)

-- The signatures that the five calls register
abbrev pub sig_of : ℕ → List Argument → Signature
sig_of i arguments = record { function_name = name_of i; arguments = arguments }

abbrev pub one : InOutBoth → DataType → Argument
one direction type = record { dimension = scalar; direction = direction; data_type = type }

abbrev pub many : InOutBoth → DataType → Argument
many direction type = record { dimension = array; direction = direction; data_type = type }

abbrev pub five : Skeletons → List Offer
five s =
    record {
      name = name_of 0;
      args = arg_types_f0;
      skeleton = s.for_f0;
      sig = sig_of 0 (one output int ∷ one input int ∷ one input int ∷ []);
    }
    ∷ record {
      name = name_of 1;
      args = arg_types_f1;
      skeleton = s.for_f1;
      sig = sig_of 1 (
          one output long ∷ one input char ∷ one input short ∷ one input int ∷ one input long ∷ []);
    }
    ∷ record {
      name = name_of 2;
      args = arg_types_f2;
      skeleton = s.for_f2;
      sig = sig_of 2 (many output char ∷ one input float ∷ one input double ∷ []);
    }
    ∷ record {
      name = name_of 3;
      args = arg_types_f3;
      skeleton = s.for_f3;
      sig = sig_of 3 (many both long ∷ []);
    }
    ∷ record {
      name = name_of 4;
      args = arg_types_f4;
      skeleton = s.for_f4;
      sig = sig_of 4 (many input char ∷ []);
    }
    ∷ []

pub is_offer :
    (name args : List ℕ) (sig : Signature) (skeleton : Skeleton)
    → AreArgTypes args
    → length name + 4 * length args < 1000
    → signature_of_arg_types name (terminated args) ≡ ok sig
    → IsOffer (record { name = name; args = args; sig = sig; skeleton = skeleton })
is_offer name args sig skeleton valid small signed = record {
  valid = valid;
  short_enough = small;
  signed = signed;
}

pub five-AreOffers : (s : Skeletons) → All IsOffer (five s)
unfolding signature_of_arg_types arguments_of argument_of data_type_of direction_of dimension_of
    get_arg_type number_of_args is_only_input is_only_output is_input_output get_arg_length
five-AreOffers s = (
  is_offer _ _ _ _
      ((omega arith, omega arith), ((omega arith, omega arith), ((omega arith, omega arith), tt)))
      (omega arith) refl,
  (
    is_offer _ _ _ _
        (
          (omega arith, omega arith),
          (
            (omega arith, omega arith),
            (
              (omega arith, omega arith),
              ((omega arith, omega arith), ((omega arith, omega arith), tt)),
            ),
          ),
        )
        (omega arith) refl,
    (
      is_offer _ _ _ _
          (
            (omega arith, omega arith),
            ((omega arith, omega arith), ((omega arith, omega arith), tt)),
          )
          (omega arith) refl,
      (
        is_offer _ _ _ _ ((omega arith, omega arith), tt) (omega arith) refl,
        (is_offer _ _ _ _ ((omega arith, omega arith), tt) (omega arith) refl, tt),
      ),
    ),
  ),
)

unfoldable pub IsOffered : ServerDatabase → Offer → Type 0
IsOffered db o = skeleton_of o.sig db ≡ some o.skeleton

five-AreOffered : (s : Skeletons) → All (IsOffered (stored (five s) [])) (five s)
unfolding IsOffered skeleton_of set_skeleton Signature-discrete ℕ_discrete
five-AreOffered s = (refl, (refl, (refl, (refl, (refl, tt)))))

-- If rpcInit of the sample server returns 0, and the binder answers the registrations, from whatever its
-- database is at each of them, then `main` comes to serve, and at that time the server has the skeletons
-- of f0 to f4 under the signatures of their argument types.
pub server_main_offers :
    (environment : Environment) (hosts : Hosts) (kernel : ListenerInput) (s : Skeletons)
    (replies : ServerData → Reply) (client : ℕ) (binder : ℕ → BinderDatabase) (connects : Bool)
    (served : ℕ) (opened opened' : Descriptors) (host : List ℕ) (port : ℕ)
    → rpc_init environment hosts kernel (unstarted []) opened
      ≡ ok (0, registering host port [], opened')
    → IsInt port
    → length host < 2 ^ 30
    → (st : RpcState) × (server_main environment hosts kernel s
          (λ i. asks_binder replies client (binder i))
          connects
          served
          (unstarted [])
          opened
        ≡ ok (served, st))
      × All (IsOffered st.database) (five s)
unfolding server_main registrations rpc_execute
server_main_offers environment hosts kernel s replies client binder connects served opened opened'
      host port started is_int fits =
    (
      registering host port (stored (five s) []),
      rw
          (
            started,
            ◌>>=◌,
            register_all-stored replies client binder host port 0 (five s) [] is_int fits
                (five-AreOffers s),
          )
          refl,
      five-AreOffered s,
    )
