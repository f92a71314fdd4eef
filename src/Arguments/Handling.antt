-- ===== src/Arguments/Handling.antt =====
-- `handle_args` of local/src/core/ArgParser.cc.
use proxy_verifier.Base.{
  ℕ, zero, suc, ◌+◌, ◌-◌, ◌%◌, ◌^◌, Bytes, Bool, true, false, ◌&&◌, ◌||◌, List, [], ◌∷◌, ◌++◌, ltb,
  leb, ◌==◌, length, take, drop, is_empty, if◌then◌else◌,
}
use proxy_verifier.Arguments.Data.{Arguments, empty_data, append_data, append_arg}

-- `MORE_THAN_ZERO_ARG_N` and `MORE_THAN_ONE_ARG_N`
abbrev pub more_than_zero_arg_n : ℕ
more_than_zero_arg_n = 4294967295

abbrev pub more_than_one_arg_n : ℕ
more_than_one_arg_n = 4294967294

-- `args[i]`; the code asks for elements that are there.
abbrev pub arg_at : List Bytes → ℕ → Bytes
arg_at [] i = []
arg_at (a ∷ args) zero = a
arg_at (a ∷ args) (suc i) = arg_at args i

-- Whether there is a message, and the variables that are passed by reference.
pub record Handled : Type 0 where
  pub failed : Bool
  pub ret : Arguments
  pub args : List Bytes
  pub index : ℕ

-- The loop over infinitely many arguments.
unfoldable pub append_all : Bytes → List Bytes → Arguments → Arguments
unfolding append_arg
append_all name [] ret = ret
append_all name (a ∷ args) ret = append_all name args (append_arg name a ret)

-- The loop over a number of arguments, from `j` on.
unfoldable pub take_args : List Bytes → Bytes → ℕ → ℕ → ℕ → Arguments → Bool × Arguments
unfolding append_arg
take_args args name index zero j ret = (false, ret)
take_args args name index (suc k) j ret =
    let value = arg_at args ((index + j + 1) % 2 ^ 32) in
    let onward = take_args args name index k (suc j) (append_arg name value ret) in
    if ltb (length args) ((index + j + 2) % 2 ^ 32) || is_empty value then (true, ret) else onward

-- `handle_args`, with 32-bit indices.
unfoldable pub handle_args : Arguments → List Bytes → Bytes → ℕ → ℕ → Handled
unfolding append_data append_all take_args
handle_args ret args name num_args index =
    let ret' = append_data name empty_data ret in
    let (failed, taken) = take_args args name index num_args 0 ret' in
    if num_args == more_than_zero_arg_n || num_args == more_than_one_arg_n
    then (if num_args == more_than_one_arg_n && leb (length args) ((index + 1) % 2 ^ 32)
        then record { failed = true; ret = ret'; args = args; index = index }
        else record {
          failed = false;
          ret = append_all name (drop (suc index) args) ret';
          args = take index args;
          index = index;
        })
    else if failed
    then record { failed = true; ret = taken; args = args; index = index }
    else record {
      failed = false;
      ret = taken;
      args = take index args ++ drop (index + num_args + 1) args;
      index = (index + (2 ^ 32 - 1)) % 2 ^ 32;
    }
