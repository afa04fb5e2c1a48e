-- ===== src/Binder/Service/Answers.antt =====
-- What binder.cc makes of one message, against the directory: `dispatch`, `handleRegister` and
-- `handleLocate`.
use mathlib.Core.List.{map, Perm}
use rpc_library.Common.{
  ℕ, ◌+◌, ◌^◌, ◌<◌, ◌≡◌, refl, ap, true, false, [], Option, none, some, ok, ◌>>=◌, Both,
  Outcome-cases, Bool-cases, arith, inl, inr,
}
use rpc_library.Signature.{Signature, signature_of_arg_types}
use rpc_library.Message
use rpc_library.Message.{MessageType, RawMessage, raw_message}
use rpc_library.Messages.Status.{serialize_status, deserialize_status}
use rpc_library.Messages.Register.{Register, deserialize_register}
use rpc_library.Messages.Locate.{LocateRequest, deserialize_locate_request}
use rpc_library.Binder.Server.{ServerData}
use rpc_library.Binder.Database.{BinderDatabase}
use rpc_library.Binder.Directory.{Directory}
use rpc_library.Binder.Refinement.{view, register_server-enrol, locate_server-name_next}
use rpc_library.Binder.Farewell.{farewell, terminate_reaches_everyone, any_overflow-view}
use rpc_library.Binder.Terminating.{Reply, any_overflow, handle_terminate-last_failure}
use rpc_library.Binder.Loop.{
  handle_register, handle_locate, locate_response, Handled, handled, dispatch,
}
use rpc_library.Binder.Service.{
  Request, registration, inquiry, request_of, Effect, answers, stops, passes, server_at, effect_of,
}
use rpc_library.Binder.Service.{IsAlone, IsOrderlyRequest}
use rpc_library.Binder.Service.Kept.{
  IsAlone-IsUnclaimed, Kept, register_server-Kept, locate_server-Kept, Kept-later,
}

-- What the program makes of a message is what the directory's answer says.
pub record IsAnswered (n : ℕ) (h : Handled) (m : RawMessage) (d : Directory) : Type 0 where
  pub responds : h.response ≡ m
  pub alone : h.to_servers ≡ []
  pub goes_on : h.running ≡ true
  pub stands : view h.database ≡ d
  pub kept : Kept n h.database

pub record IsStopped (n : ℕ) (h : Handled) (d : Directory) : Type 0 where
  pub ends : h.running ≡ false
  pub stands : view h.database ≡ d
  pub kept : Kept n h.database
  pub tells : Perm h.to_servers (map farewell d.line)

abbrev pub Takes : ℕ → Directory → Option Handled → Effect → Type 0
Takes n d (some h) (answers m d') = IsAnswered n h m d'
Takes n d (some h) stops = IsStopped n h d
Takes n d none passes = Unit {0}
Takes n d _ _ = ⊥

abbrev pub AsAsked : ℕ → ℕ → BinderDatabase → Option Handled → Request → Type 0
AsAsked n client db h q = Takes (n + 1) (view db) h (effect_of client (view db) q)

module _ (n client : ℕ) (db : BinderDatabase) (small : n + 1 < 2 ^ 32) (k : Kept n db) where
  handle_register-AsAsked :
      (m : Register)
      → ((sig : Signature)
          → signature_of_arg_types m.function_name m.arg_types ≡ ok sig
          → IsAlone (server_at m.server_hostname m.server_port client) (view db).line)
      → Both (AsAsked n client db) (handle_register m client db >>= handled) (
          signature_of_arg_types m.function_name m.arg_types >>= λ sig.
          ok (registration sig m.server_hostname m.server_port))
  unfolding handle_register effect_of
  handle_register-AsAsked m own =
      elim (Outcome-cases (signature_of_arg_types m.function_name m.arg_types)) [
        | inr (why, e) ↦ rw e refl
        | inl (sig, e) ↦
            let s = server_at m.server_hostname m.server_port client in
            let (code, after) = register_server-enrol sig s db k.valid in
            rw e (record {
              responds = ap (serialize_status Message.register_success) code;
              alone = refl;
              goes_on = refl;
              stands = after;
              kept = register_server-Kept n db small k sig s (IsAlone-IsUnclaimed s db (own sig e));
            })
      ]

  handle_locate-AsAsked :
      (m : LocateRequest)
      → Both
          (AsAsked n client db)
          (handle_locate m db >>= handled)
          (signature_of_arg_types m.function_name m.arg_types >>= λ sig. ok (inquiry sig))
  unfolding handle_locate effect_of
  handle_locate-AsAsked m =
      elim (Outcome-cases (signature_of_arg_types m.function_name m.arg_types)) [
        | inr (why, e) ↦ rw e refl
        | inl (sig, e) ↦
            let (who, after) = locate_server-name_next sig db k.valid in
            rw e (record {
              responds = ap locate_response who;
              alone = refl;
              goes_on = refl;
              stands = after;
              kept = locate_server-Kept n db small k sig;
            })
      ]

  pub dispatch-AsAsked :
      (type : MessageType) (replies : ServerData → Reply) (raw : RawMessage)
      → ((request : Request)
          → request_of replies (view db).line type raw ≡ ok request
          → IsOrderlyRequest client (view db) request)
      → Both
          (AsAsked n client db)
          (dispatch type replies client raw db)
          (request_of replies (view db).line type raw)
  unfolding dispatch request_of effect_of
  dispatch-AsAsked Message.register replies raw own =
      elim (Outcome-cases (deserialize_register raw)) [
        | inr (why, e) ↦ rw e refl
        | inl (m, e) ↦ rw e (
            handle_register-AsAsked m (λ sig signed.
              own (registration sig m.server_hostname m.server_port) (rw (e, ◌>>=◌, signed) refl)))
      ]
  dispatch-AsAsked Message.locate_request replies raw own =
      elim (Outcome-cases (deserialize_locate_request raw)) [
        | inr (why, e) ↦ rw e refl
        | inl (m, e) ↦ rw e (handle_locate-AsAsked m)
      ]
  dispatch-AsAsked Message.terminate replies raw own =
      elim (Outcome-cases (deserialize_status raw)) [
        | inr (why, e) ↦ rw e refl
        | inl (m, e) ↦
            rw
              (
                e,
                ◌>>=◌,
                handle_terminate-last_failure replies db,
                any_overflow-view replies db k.valid,
              )
              (elim (Bool-cases (any_overflow replies (view db).line)) [
                | inl over ↦ rw over refl
                | inr fine ↦ rw fine (record {
                  ends = refl;
                  stands = refl;
                  kept = Kept-later n (n + 1) db (omega arith) k;
                  tells = terminate_reaches_everyone db k.valid;
                })
              ])
      ]
  dispatch-AsAsked _ replies raw own = tt
