-- ===== src/ServerFunctions/Fitting.antt =====
-- The variables of client1.c and the skeletons of the sample server, with the sizes of their blocks.
use rpc_library.Common.{
  ℕ, ◌+◌, ◌*◌, ◌^◌, ◌<◌, ◌≡◌, refl, ◌∙◌, ap, List, [], ◌∷◌, length, length-append, some, All, arith,
}
use rpc_library.Arg.{size_in_bytes, get_size_of_arg_type, get_arg_type, get_arg_length}
use rpc_library.Messages.ExecuteRoundTrip.{BlocksFit, joined}
use rpc_library.ServerFunctions.Skeletons.{
  bytes_of, bytes_of_longs, f0_skel, f1_skel, f2_skel, f3_skel, f4_skel, Implements,
}
use rpc_library.ServerFunctions.Sorting.{FitsInt}
use rpc_library.ServerFunctions.Calling.{bytes_of_longs-length}
use rpc_library.ServerFunctions.Program.{Skeletons}
use rpc_library.ServerFunctions.Client.{
  arg_types0, arg_types1, arg_types2, arg_types3, arg_types4, Variables, args0, args1, args2, args4,
}

-- The variables have the sizes of their types, and a3 begins with the number of its elements.
pub record AreVariables (v : Variables) (rest : List ℕ) : Type 0 where
  pub return0 : length v.return0 ≡ 4
  pub a0 : v.a0 < 2 ^ 32
  pub b0 : v.b0 < 2 ^ 32
  pub return1 : length v.return1 ≡ 8
  pub a1 : v.a1 < 2 ^ 8
  pub b1 : v.b1 < 2 ^ 16
  pub c1 : v.c1 < 2 ^ 32
  pub d1 : v.d1 < 2 ^ 64
  pub return2 : length v.return2 ≡ 100
  pub a2 : v.a2 < 2 ^ 32
  pub b2 : v.b2 < 2 ^ 64
  pub a3 : v.a3 ≡ 11 ∷ rest
  pub rest_of_a3 : length rest ≡ 10
  pub ints : All FitsInt (11 ∷ rest)
  pub a4 : length v.a4 ≡ 28

-- A skeleton for each procedure, where malloc gives that of f2 the block `fresh`
pub record AreSkeletons (k : Skeletons) (fresh : List ℕ) : Type 0 where
  pub f0_runs : Implements f0_skel k.for_f0
  pub f1_runs : Implements f1_skel k.for_f1
  pub f2_runs : Implements (f2_skel (some fresh)) k.for_f2
  pub f3_runs : Implements f3_skel k.for_f3
  pub f4_runs : Implements f4_skel k.for_f4

abbrev pub sizes : List ℕ → ℕ
sizes [] = 0
sizes (t ∷ ts) = size_in_bytes t + sizes ts

pub joined-sizes :
    (ts : List ℕ) (blocks : List (List ℕ)) → BlocksFit ts blocks → length (joined blocks) ≡ sizes ts
joined-sizes [] [] fit = refl
joined-sizes [] (b ∷ bs) fit = absurd fit
joined-sizes (t ∷ ts) [] fit = absurd fit
joined-sizes (t ∷ ts) (b ∷ bs) fit =
    length-append b (joined bs) ∙ omega (arith, fit.0, joined-sizes ts bs fit.1)

module _ (v : Variables) (rest : List ℕ) (sized : AreVariables v rest) where
  pub fit0 :
      (sum : ℕ)
      → BlocksFit arg_types0 (args0 v)
        × BlocksFit arg_types0 (bytes_of 4 sum ∷ bytes_of 4 v.a0 ∷ bytes_of 4 v.b0 ∷ [])
  unfolding bytes_of size_in_bytes get_size_of_arg_type get_arg_type get_arg_length
  fit0 sum = ((sized.return0, (refl, (refl, tt))), (refl, (refl, (refl, tt))))

  pub fit1 :
      (value : ℕ)
      → BlocksFit arg_types1 (args1 v)
        × BlocksFit arg_types1 (
            bytes_of 8 value
            ∷ bytes_of 1 v.a1
            ∷ bytes_of 2 v.b1
            ∷ bytes_of 4 v.c1
            ∷ bytes_of 8 v.d1
            ∷ [])
  unfolding bytes_of size_in_bytes get_size_of_arg_type get_arg_type get_arg_length
  fit1 value = (
    (sized.return1, (refl, (refl, (refl, (refl, tt))))),
    (refl, (refl, (refl, (refl, (refl, tt))))),
  )

  pub fit2 :
      (text : List ℕ)
      → length text ≡ 100
      → BlocksFit arg_types2 (args2 v)
        × BlocksFit arg_types2 (text ∷ bytes_of 4 v.a2 ∷ bytes_of 8 v.b2 ∷ [])
  unfolding bytes_of size_in_bytes get_size_of_arg_type get_arg_type get_arg_length
  fit2 text l = ((sized.return2, (refl, (refl, tt))), (l, (refl, (refl, tt))))

  pub fit4 : BlocksFit arg_types4 (args4 v)
  unfolding size_in_bytes get_size_of_arg_type get_arg_type get_arg_length
  fit4 = (sized.a4, tt)

pub fit3 : (a : List ℕ) → length a ≡ 11 → BlocksFit arg_types3 (bytes_of_longs a ∷ [])
unfolding size_in_bytes get_size_of_arg_type get_arg_type get_arg_length
fit3 a l = (bytes_of_longs-length a ∙ ap (λ (n : ℕ). 8 * n) l, tt)

pub light :
    (sizes arg_types0 < 2 ^ 20)
    × (sizes arg_types1 < 2 ^ 20)
    × (sizes arg_types2 < 2 ^ 20)
    × (sizes arg_types3 < 2 ^ 20)
    × (sizes arg_types4 < 2 ^ 20)
unfolding size_in_bytes get_size_of_arg_type get_arg_type get_arg_length
light = (omega arith, omega arith, omega arith, omega arith, omega arith)
