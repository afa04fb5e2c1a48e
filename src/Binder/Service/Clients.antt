-- ===== src/Binder/Service/Clients.antt =====
-- The body of the loop of binder.cc over the clients with data, against the directory.
use mathlib.Core.Path.{subst}
use mathlib.Core.List.{Perm}
use rpc_library.Common.{
  ℕ, ◌+◌, ◌^◌, ◌<◌, ◌≤◌, ◌≡◌, refl, sym, ◌∙◌, ap, true, List, [], ◌∷◌, ◌++◌, append-nil, Option,
  none, some, ok, Both, Both-bind, arith,
}
use rpc_library.Message.{RawMessage, raw_message}
use rpc_library.Binder.Server.{ServerData}
use rpc_library.Binder.Database.{BinderDatabase, remove_if_server}
use rpc_library.Binder.Directory.{Directory}
use rpc_library.Binder.Refinement.{view, remove_if_server-dismiss}
use rpc_library.Binder.Terminating.{Reply}
use rpc_library.Binder.Loop.{
  Handled, dispatch, Received, message, closed, recv_error, Sent, delivered, send_closed,
  send_error, BinderState, respond, after_dispatch, serve_client,
}
use rpc_library.Binder.Service.{
  Request, IsOrderlyRequest, request_of, Effect, answers, stops, passes, effect_of, Service,
  departing, apply_effect, serve_received,
}
use rpc_library.Binder.Service.Kept.{Kept, remove_if_server-Kept, Kept-later}
use rpc_library.TcpServer.{TcpServer}
use rpc_library.Binder.Service.Answers.{IsAnswered, IsStopped, Takes, AsAsked, dispatch-AsAsked}

-- Both have sent the same, up to what the program sends when it stops: to servers, and as an answer.
abbrev pub SameSent : BinderState → Service → Type 0
SameSent st s =
    (to_servers : List (ℕ × RawMessage)) × (answer : List (ℕ × RawMessage)) × (st.sent
      ≡ s.sent ++ (to_servers ++ answer))
    × Perm to_servers s.notified
    × (st.running ≡ true → to_servers ++ answer ≡ [])

append-eq-nil : {A : Type 0} (xs ys : List A) → xs ++ ys ≡ [] → xs ≡ []
append-eq-nil [] ys h = refl
append-eq-nil (x ∷ xs) ys h = cc h

-- The loop's variables stand for those of the service.
pub record Stands (n : ℕ) (st : BinderState) (s : Service) : Type 0 where
  pub kept : Kept n st.database
  pub same_view : view st.database ≡ s.directory
  pub same_run : st.running ≡ s.running
  pub same_sent : SameSent st s

pub sent_so_far :
    (n : ℕ) (st : BinderState) (s : Service) → Stands n st s → st.running ≡ true → st.sent ≡ s.sent
sent_so_far n st s r on =
    let (to_servers, answer, sent, told, none_left) = r.same_sent in
    sent ∙ ap (λ (l : List (ℕ × RawMessage)). s.sent ++ l) (none_left on) ∙ append-nil s.sent

pub Stands-later :
    (n m : ℕ) (st : BinderState) (s : Service) (server : TcpServer)
    → n ≤ m
    → Stands n st s
    → Stands m st (record s { tcp_server = server })
Stands-later n m st s server le r = record {
  kept = Kept-later n m st.database le r.kept;
  same_view = r.same_view;
  same_run = r.same_run;
  same_sent = r.same_sent;
}

departed : Sent → ℕ → BinderDatabase → BinderDatabase
departed send_closed client db = remove_if_server client db
departed delivered client db = db
departed send_error client db = db

respond-departed :
    (client : ℕ) (outcome : Sent) (h : Handled) (st : BinderState)
    → respond client outcome h st ≡ record st {
      database = departed outcome client h.database;
      running = h.running;
      sent = st.sent ++ (h.to_servers ++ (client, h.response) ∷ []);
    }
unfolding respond departed
respond-departed client send_closed h st = refl
respond-departed client delivered h st = refl
respond-departed client send_error h st = refl

departed-departing :
    (outcome : Sent) (client : ℕ) (n : ℕ) (db : BinderDatabase) (d : Directory)
    → Kept n db
    → view db ≡ d
    → Kept n (departed outcome client db)
      × (view (departed outcome client db) ≡ departing outcome client d)
unfolding departed
departed-departing send_closed client n db d k same = (
  remove_if_server-Kept n client db k,
  remove_if_server-dismiss client db k.valid ∙ ap (departing send_closed client) same,
)
departed-departing delivered client n db d k same = (k, same)
departed-departing send_error client n db d k same = (k, same)

module _ (n client : ℕ) (outcome : Sent) (st : BinderState) (s : Service) (r : Stands n st s)
    (on : st.running ≡ true) where
  nobody_told : Perm [] s.notified
  nobody_told =
      let (to_servers, answer, sent, told, none_left) = r.same_sent in
      subst (λ (l : List (ℕ × RawMessage)). Perm l s.notified)
        (append-eq-nil to_servers answer (none_left on)) told

  after_answer :
      (h : Handled) (m : RawMessage) (d : Directory)
      → IsAnswered (n + 1) h m d
      → Stands (n + 1) (respond client outcome h st) (apply_effect client outcome (answers m d) s)
  unfolding apply_effect
  after_answer h m d a =
      let (k, v) = departed-departing outcome client (n + 1) h.database d a.kept a.stands in
      rw (respond-departed client outcome h st) (record {
        kept = k;
        same_view = v;
        same_run = a.goes_on ∙ sym on ∙ r.same_run;
        same_sent = (
          [],
          [],
          rw (a.alone, a.responds, sent_so_far n st s r on) (sym (append-nil _)),
          nobody_told,
          λ h. refl,
        );
      })

  after_stop :
      (h : Handled)
      → IsStopped (n + 1) h s.directory
      → Stands (n + 1) (respond client outcome h st) (apply_effect client outcome stops s)
  unfolding apply_effect
  after_stop h a =
      let (k, v) =
        departed-departing outcome client (n + 1) h.database s.directory a.kept a.stands in
      rw (respond-departed client outcome h st) (record {
        kept = k;
        same_view = v;
        same_run = a.ends;
        same_sent = (
          h.to_servers,
          (client, h.response) ∷ [],
          rw (sent_so_far n st s r on) refl,
          a.tells,
          λ goes_on. cc (a.ends, goes_on),
        );
      })

  later : Stands (n + 1) st s
  later = Stands-later n (n + 1) st s s.tcp_server (omega arith) r

  after_dispatch-Stands :
      (o : Option Handled) (e : Effect)
      → Takes (n + 1) s.directory o e
      → Stands (n + 1) (after_dispatch client outcome st o) (apply_effect client outcome e s)
  unfolding after_dispatch apply_effect
  after_dispatch-Stands (some h) (answers m d) t = after_answer h m d t
  after_dispatch-Stands (some h) stops t = after_stop h t
  after_dispatch-Stands (some h) passes t = absurd t
  after_dispatch-Stands none passes t = later
  after_dispatch-Stands none stops t = absurd t
  after_dispatch-Stands none (answers m d) t = absurd t

  -- The body of the loop
  pub serve_client-Stands :
      (replies : ServerData → Reply) (received : Received)
      → n + 1 < 2 ^ 32
      → ((bytes : List ℕ) (request : Request)
          → received ≡ message bytes
          → request_of replies s.directory.line (raw_message bytes).message_type (raw_message bytes)
            ≡ ok request
          → IsOrderlyRequest client s.directory request)
      → Both
          (Stands (n + 1))
          (serve_client replies client received outcome st)
          (serve_received replies client received outcome s)
  unfolding serve_client serve_received
  serve_client-Stands replies closed small own = record {
    kept = remove_if_server-Kept (n + 1) client st.database later.kept;
    same_view =
        remove_if_server-dismiss client st.database r.kept.valid
        ∙ ap (departing send_closed client) r.same_view;
    same_run = r.same_run;
    same_sent = r.same_sent;
  }
  serve_client-Stands replies recv_error small own = later
  serve_client-Stands replies (message []) small own = later
  serve_client-Stands replies (message (c ∷ cs)) small own =
      let raw = raw_message (c ∷ cs) in
      Both-bind (AsAsked n client st.database) (Stands (n + 1))
        (dispatch raw.message_type replies client raw st.database)
        (request_of replies s.directory.line raw.message_type raw) _ _
        (subst
          (λ (d : Directory).
            Both (AsAsked n client st.database)
              (dispatch raw.message_type replies client raw st.database)
              (request_of replies d.line raw.message_type raw))
          r.same_view
          (dispatch-AsAsked n client st.database small r.kept raw.message_type replies raw (λ q e.
            rw r.same_view (
              own (c ∷ cs) q refl (
                ap (λ (d : Directory). request_of replies d.line raw.message_type raw)
                  (sym r.same_view)
                ∙ e)))))
        (λ o q t asked.
          after_dispatch-Stands o (effect_of client s.directory q) (rw (← r.same_view) t))
