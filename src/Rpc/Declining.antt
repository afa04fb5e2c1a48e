-- ===== src/Rpc/Declining.antt =====
-- A call whose skeleton reports an error (libserver.cc), from rpcCall of rpc.cc and back.
use rpc_library.Common.{
  ℕ, ◌+◌, ◌*◌, ◌^◌, ◌<◌, ◌≡◌, refl, Bool, true, List, length, some, ok, ◌>>=◌, arith, ◌≢◌, ◌==◌,
  false,
}
use rpc_library.Common.Ints.{IsInt, int_of_char, char_of_int}
use rpc_library.Arg.{AreArgTypes, terminated}
use rpc_library.Signature.{Signature, signature_of_arg_types}
use rpc_library.Message
use rpc_library.Message.{raw_message, byte_of_type, RawMessage, int_of_code, unexpected_message}
use rpc_library.Messages.Status.{serialize_status, deserialize_status}
use rpc_library.Messages.ExecuteRoundTrip.{BlocksFit, joined}
use rpc_library.Binder.Server.{ServerData}
use rpc_library.Binder.Database.{BinderDatabase, locate_server}
use rpc_library.Binder.Terminating.{Reply}
use rpc_library.Libserver.{
  Skeleton, ServerDatabase, skeleton_of, answer_execute, handle_execute, after_skeleton,
}
use rpc_library.Libserver.Serving.{execute_bytes, read_back}
use rpc_library.Rpc.{Network, RpcState, with_binder, rpc_call, execute_answer}
use rpc_library.Rpc.Peers.{asks_binder, asks_server}
use rpc_library.Rpc.Calling.{called}

module _ (name args : List ℕ) (blocks : List (List ℕ)) (valid : AreArgTypes args)
    (filled : BlocksFit args blocks)
    (fits : length name + 4 * length args + length (joined blocks) + 9 < 2 ^ 31) (sig : Signature)
    (database : ServerDatabase)
    (signed : signature_of_arg_types name (terminated args) ≡ ok sig) where
  answer_execute_fails :
      (f : Skeleton) (ret : ℕ) (outs : List (List ℕ))
      → skeleton_of sig database ≡ some f
      → f (terminated args) blocks ≡ (ret, outs)
      → ret ≢ 0
      → answer_execute (raw_message (execute_bytes name args blocks)) database
        ≡ ok (serialize_status Message.execute_failure ret).buffer
  unfolding answer_execute handle_execute after_skeleton
  answer_execute_fails f ret outs found ran bad =
      let nonzero : (ret == 0) ≡ false = ground (arith, bad) in
      rw (read_back name args blocks valid filled fits, signed, ◌>>=◌, found, ran, nonzero) refl

module _ (name args : List ℕ) (blocks : List (List ℕ)) (valid : AreArgTypes args) (sig : Signature)
    (signed : signature_of_arg_types name (terminated args) ≡ ok sig)
    (filled : BlocksFit args blocks)
    (fits : length name + 4 * length args + length (joined blocks) + 9 < 2 ^ 31)
    (db : BinderDatabase) (s : ServerData) (named : (locate_server sig db).0 ≡ some s)
    (port : IsInt s.server_port) (host : length s.server_hostname + 9 < 2 ^ 31)
    (database : ServerDatabase) (network : Network)
    (there : network s.server_hostname s.server_port ≡ some (asks_server database))
    (replies : ServerData → Reply) (client : ℕ) (connects : Bool) (st : RpcState)
    (connected : (with_binder connects st).binder ≡ true) where
  -- A call whose skeleton returns a status other than 0 returns that status, cut to a char and extended
  -- again, and leaves the arguments as they were, whatever the skeleton did to its own. The conditions are
  -- those of a call that succeeds.
  pub call_skeleton_fails :
      (f : Skeleton) (ret : ℕ) (outs : List (List ℕ))
      → skeleton_of sig database ≡ some f
      → f (terminated args) blocks ≡ (ret, outs)
      → ret ≢ 0
      → rpc_call name (terminated args) blocks connects (asks_binder replies client db) network st
        ≡ ok ((int_of_char (char_of_int ret), blocks), with_binder connects st)
  unfolding serialize_status raw_message byte_of_type execute_answer deserialize_status
  call_skeleton_fails f ret outs found returned bad =
      called name args valid sig signed blocks filled fits database replies client db network s port
        host named there _
        (answer_execute_fails name args blocks valid filled fits sig database signed f ret outs
          found returned bad)
        connects st connected
