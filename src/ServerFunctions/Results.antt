-- ===== src/ServerFunctions/Results.antt =====
-- The sample client (client1.c) against the sample server (server.c), through the binder.
use mathlib.Core.Path.{subst}
use mathlib.Core.List.{Perm}
use rpc_library.Common.{
  ℕ, ◌+◌, ◌^◌, ◌<◌, ◌≡◌, ◌≢◌, refl, sym, ◌∙◌, ap, true, List, [], ◌∷◌, ◌++◌, length, none, some, ok,
  ◌>>=◌, All, arith,
}
use rpc_library.Common.Ints.{IsInt, int_of_char, char_of_int, pattern_of, negsuc}
use rpc_library.Arg.{terminated, is_only_output, is_input_output}
use rpc_library.Messages.ExecuteRoundTrip.{BlocksFit}
use rpc_library.Binder.Server.{ServerData}
use rpc_library.Binder.Database.{BinderDatabase, locate_server}
use rpc_library.Binder.Terminating.{Reply}
use rpc_library.Libserver.{ServerDatabase}
use rpc_library.Rpc.{Network, RpcState, Returned, with_binder, rpc_call}
use rpc_library.Rpc.Peers.{asks_binder, asks_server}
use rpc_library.Rpc.CopyingBack.{merged}
use rpc_library.Rpc.Calling.{call_reaches_skeleton}
use rpc_library.Rpc.Declining.{call_skeleton_fails}
use rpc_library.Rpc.Executing.{unstarted}
use rpc_library.ServerFunctions.{f0, f1}
use rpc_library.ServerFunctions.Printing.{part_of_float, part_of_double, decimal, f2}
use rpc_library.ServerFunctions.Texts.{c_string, f2_prints_parts}
use rpc_library.ServerFunctions.Skeletons.{bytes_of, bytes_of_longs, f3_skel, f4_skel}
use rpc_library.ServerFunctions.Sorting.{IsDescending}
use rpc_library.ServerFunctions.Calling.{f0_skel-f0, f1_skel-f1, f2_skel-f2, f3_skel-IsSorted}
use rpc_library.ServerFunctions.Program.{Skeletons}
use rpc_library.ServerFunctions.Offering.{Offer, IsOffer, IsOffered, five, five-AreOffers}
use rpc_library.ServerFunctions.Client.{
  arg_types0, arg_types1, arg_types2, arg_types3, Variables, args0, args1, args2, args3, args4,
  call_all, calls, maybe_terminate, client_main, reports,
}
use rpc_library.ServerFunctions.Fitting.{
  AreVariables, AreSkeletons, sizes, joined-sizes, fit0, fit1, fit2, fit3, fit4, light,
}

module _ (s : ServerData) (port : IsInt s.server_port)
    (host : length s.server_hostname + 9 < 2 ^ 31) (database : ServerDatabase) (network : Network)
    (there : network s.server_hostname s.server_port ≡ some (asks_server database))
    (replies : ServerData → Reply) (client : ℕ) where
  module _ (o : Offer) (offer : IsOffer o) (offered : IsOffered database o) (db : BinderDatabase)
      (named : (locate_server o.sig db).0 ≡ some s) (blocks : List (List ℕ))
      (fit : BlocksFit o.args blocks) (light : sizes o.args < 2 ^ 20) (st : RpcState)
      (connected : (with_binder true st).binder ≡ true) where
    pub offer_called :
        (outs : List (List ℕ))
        → o.skeleton (terminated o.args) blocks ≡ (0, outs)
        → BlocksFit o.args outs
        → rpc_call o.name (terminated o.args) blocks true (asks_binder replies client db) network st
          ≡ ok ((0, merged o.args outs blocks), with_binder true st)
    unfolding IsOffered
    offer_called outs ran kept =
        let short = offer.short_enough in
        let before = joined-sizes o.args blocks fit in
        let behind = joined-sizes o.args outs kept in
        call_reaches_skeleton o.name o.args blocks offer.valid o.sig offer.signed fit (omega arith)
          db s named port host database network there replies client true st connected o.skeleton
          outs offered ran kept (omega arith)

    offer_declined :
        (ret : ℕ) (outs : List (List ℕ))
        → o.skeleton (terminated o.args) blocks ≡ (ret, outs)
        → ret ≢ 0
        → rpc_call o.name (terminated o.args) blocks true (asks_binder replies client db) network st
          ≡ ok ((int_of_char (char_of_int ret), blocks), with_binder true st)
    unfolding IsOffered
    offer_declined ret outs ran bad =
        let short = offer.short_enough in
        let before = joined-sizes o.args blocks fit in
        call_skeleton_fails o.name o.args blocks offer.valid o.sig offer.signed fit (omega arith) db
          s named port host database network there replies client true st connected o.skeleton ret
          outs offered ran bad

-- Each inquiry is answered with the server.
abbrev pub AreNamed : ServerData → (ℕ → BinderDatabase) → ℕ → List Offer → Type 0
AreNamed s binder i [] = Unit {0}
AreNamed s binder i (o ∷ os) =
    ((locate_server o.sig (binder i)).0 ≡ some s) × AreNamed s binder (i + 1) os

-- What the calls return, where f2 leaves `text` and f3 `a`
abbrev pub results : Variables → List ℕ → List ℕ → List Returned
results v text a =
    (0, bytes_of 4 (f0 v.a0 v.b0) ∷ bytes_of 4 v.a0 ∷ bytes_of 4 v.b0 ∷ [])
    ∷ (
      0,
      bytes_of 8 (f1 v.a1 v.b1 v.c1 v.d1)
          ∷ bytes_of 1 v.a1
          ∷ bytes_of 2 v.b1
          ∷ bytes_of 4 v.c1
          ∷ bytes_of 8 v.d1
          ∷ [],
    )
    ∷ (0, text ∷ bytes_of 4 v.a2 ∷ bytes_of 8 v.b2 ∷ [])
    ∷ (0, bytes_of_longs a ∷ [])
    ∷ (pattern_of (negsuc 0), args4 v)
    ∷ []

module _ (v : Variables) (rest : List ℕ) (k : Skeletons) (fresh : List ℕ) (s : ServerData)
    (database : ServerDatabase) (network : Network) (replies : ServerData → Reply) (client : ℕ)
    (binder : ℕ → BinderDatabase) (own : ServerDatabase) where
  called :
      (text a : List ℕ)
      → AreVariables v rest
      → AreSkeletons k fresh
      → All (IsOffered database) (five k)
      → AreNamed s binder 0 (five k)
      → IsInt s.server_port
      → length s.server_hostname + 9 < 2 ^ 31
      → network s.server_hostname s.server_port ≡ some (asks_server database)
      → f3_skel (terminated arg_types3) (bytes_of_longs v.a3 ∷ []) ≡ ok (0, bytes_of_longs a ∷ [])
      → f2 (some fresh) v.a2 v.b2 ≡ ok text
      → length text ≡ 100
      → length v.a3 ≡ 11
      → length a ≡ 11
      → client_main v (λ i. asks_binder replies client (binder i)) none true network (unstarted own)
        ≡ ok (reports (results v text a), results v text a, with_binder true (unstarted own))
  unfolding client_main calls call_all maybe_terminate is_only_output is_input_output f4_skel
  called text a sized skel offered named port host there sorts printed whole l l' =
      let (o0, (o1, (o2, (o3, (o4, u))))) = five-AreOffers k in
      let (d0, (d1, (d2, (d3, (d4, u'))))) = offered in
      let (n0, (n1, (n2, (n3, (n4, u''))))) = named in
      let st : RpcState = unstarted own in
      let on : RpcState = with_binder true st in
      let (b0, k0) = fit0 v rest sized (f0 v.a0 v.b0) in
      let (b1, k1) = fit1 v rest sized (f1 v.a1 v.b1 v.c1 v.d1) in
      let runs0 =
        skel.f0_runs _ _ _ (
          f0_skel-f0 (terminated arg_types0) v.return0 v.a0 v.b0 sized.return0 sized.a0 sized.b0) in
      let runs1 = skel.f1_runs _ _ _ (
        f1_skel-f1 (terminated arg_types1) v.return1 v.a1 v.b1 v.c1 v.d1 sized.return1 sized.a1
          sized.b1 sized.c1 sized.d1) in
      let (b2, k2) = fit2 v rest sized text whole in
      let runs2 = skel.f2_runs _ _ _ (
        f2_skel-f2 (terminated arg_types2) v.return2 fresh text v.a2 v.b2 sized.a2 sized.b2
          printed) in
      rw
        (
          offer_called s port host database network there replies client _ o0 d0 (binder 0) n0
              (args0 v) b0 light.0 st refl _ runs0 k0,
          ◌>>=◌,
          offer_called s port host database network there replies client _ o1 d1 (binder 1) n1
              (args1 v) b1 light.1 on refl _ runs1 k1,
          ◌>>=◌,
          offer_called s port host database network there replies client _ o2 d2 (binder 2) n2
              (args2 v) b2 light.2 on refl _ runs2 k2,
          ◌>>=◌,
          offer_called s port host database network there replies client _ o3 d3 (binder 3) n3
              (args3 v) (fit3 v.a3 l) light.3 on refl _ (skel.f3_runs _ _ _ sorts) (fit3 a l'),
          ◌>>=◌,
          offer_declined s port host database network there replies client _ o4 d4 (binder 4) n4
              (args4 v) (fit4 v rest sized) light.4 on refl _ _ (skel.f4_runs _ _ _ refl)
              (λ e. omega arith),
          ◌>>=◌,
        )
        refl

-- The sample client against a server that offers f0 to f4 with the skeletons of the sample server, where
-- the binder names that server to each inquiry and both can be reached, malloc gives f2 a block, and the
-- integer parts of a2 and b2 are the long longs i and j: the calls of f0 and f1 return 0 and their values,
-- that of f2 0 and a block with the texts of i and j, that of f3 0 and the elements of a3, values of ints,
-- in descending order, and that of f4 -1; these are printed. No argument that is only input changes.
pub client_main-results :
    (v : Variables) (rest : List ℕ) (k : Skeletons) (fresh : List ℕ) (i j : ℕ) (s : ServerData)
    (database : ServerDatabase) (network : Network) (replies : ServerData → Reply) (client : ℕ)
    (binder : ℕ → BinderDatabase) (own : ServerDatabase)
    → AreVariables v rest
    → AreSkeletons k fresh
    → length fresh ≡ 100
    → part_of_float v.a2 ≡ ok i
    → part_of_double v.b2 ≡ ok j
    → All (IsOffered database) (five k)
    → AreNamed s binder 0 (five k)
    → IsInt s.server_port
    → length s.server_hostname + 9 < 2 ^ 31
    → network s.server_hostname s.server_port ≡ some (asks_server database)
    → (text : List ℕ) × (a : List ℕ) × (client_main v
          (λ n. asks_binder replies client (binder n))
          none
          true
          network
          (unstarted own)
        ≡ ok (reports (results v text a), results v text a, with_binder true (unstarted own)))
      × (c_string text ≡ decimal i ++ decimal j)
      × IsDescending a
      × Perm a v.a3
client_main-results v rest k fresh i j s database network replies client binder own sized skel size
      ai bj offered named port host there =
    let types : List ℕ = terminated arg_types3 in
    let (text, printed, whole, shown, back_i, back_j) =
      f2_prints_parts fresh v.a2 v.b2 i j size ai bj in
    let (a, ran, sorted) = f3_skel-IsSorted types rest sized.rest_of_a3 sized.ints in
    let l : length (11 ∷ rest) ≡ 11 = ground (arith, sized.rest_of_a3) in
    let e = sym sized.a3 in
    (
      text,
      a,
      called v rest k fresh s database network replies client binder own text a sized skel offered
          named port host there
          (subst
            (λ (x : List ℕ). f3_skel types (bytes_of_longs x ∷ []) ≡ ok (0, bytes_of_longs a ∷ []))
            e ran)
          printed whole (ap length sized.a3 ∙ l) (sorted.long_as ∙ l),
      shown,
      sorted.descending,
      subst (Perm a) e sorted.moved,
    )
