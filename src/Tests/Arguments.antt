-- ===== src/Tests/Arguments.antt =====
-- The arguments of an option on a concrete command line.
use proxy_verifier.Base.{Bytes, true, List, [], ◌∷◌, ◌++◌, ◌≡◌, refl, codes, arith}
use proxy_verifier.Arguments.Handling.{handle_args}
use proxy_verifier.Arguments.Taking.{Taken, handle_args-Taken}

abbrev before : List Bytes
before = codes "verifier" ∷ codes "run" ∷ []

abbrev keys : List Bytes
keys = codes "a" ∷ codes "b" ∷ []

handle_args_example : Taken (codes "keys") before keys (codes "replay" ∷ []) (
    handle_args []
      (before ++ (codes "--keys" ∷ (keys ++ (codes "replay" ∷ []))))
      (codes "keys")
      2
      2)
handle_args_example =
    handle_args-Taken [] before (codes "--keys") (codes "keys") keys (codes "replay" ∷ [])
      (omega arith) ((λ e. cc), ((λ e. cc), tt))

-- One value too few.
too_few :
    (handle_args [] (before ++ (codes "--keys" ∷ codes "a" ∷ [])) (codes "keys") 2 2).failed ≡ true
unfolding handle_args
too_few = refl
