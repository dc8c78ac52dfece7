-- ===== src/Utils/Hash.antt =====
-- The two hashes of a function type agree.
use wembed.Base.{ℕ, false, ◌≡◌, refl, List, [], ◌∷◌}
use wembed.Lang.Types.{Ty}
use wembed.Llvm.{Llvm}
use wembed.Utils.{hash_type, hash_args, hash_fn_type, typehash_combine, hash_fn_ctype}

module _ ⦃L : Llvm⦄ where
  hash_args-typehash_combine :
      (seed : ℕ) (first : Ty) (rest : List Ty)
      → hash_args seed (first ∷ rest) ≡ typehash_combine seed first rest
  unfolding hash_args typehash_combine
  hash_args-typehash_combine seed first [] = refl
  hash_args-typehash_combine seed first (second ∷ rest) =
      hash_args-typehash_combine (L.hash_combine seed (hash_type first false)) second rest

  -- The hash that the compiler gives to a function of a module is the one that a C++ program computes
  -- for a function of the same result and parameters, whatever `hash_combine` does.
  pub hash_fn_type-hash_fn_ctype :
      (ret : Ty) (params : List Ty)
      → hash_fn_type (record { ret = ret; params = params }) ≡ hash_fn_ctype ret params
  unfolding hash_fn_type hash_fn_ctype hash_args
  hash_fn_type-hash_fn_ctype ret params = hash_args-typehash_combine 1 ret params
