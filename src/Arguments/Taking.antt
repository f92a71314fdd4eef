-- ===== src/Arguments/Taking.antt =====
-- What `handle_args` takes for an option with a number of arguments.
use proxy_verifier.Base.{
  ℕ, suc, ◌+◌, ◌%◌, ◌^◌, ◌<◌, Bytes, false, List, [], ◌∷◌, ◌++◌, some, ltb, ◌==◌, ◌≡◌, ◌≢◌, refl,
  sym, ap, subst, ◌∙◌, append-nil, append_assoc, length, length-append, drop, take-append,
  drop-append, All, is_empty, arith,
}
use proxy_verifier.Arguments.Data.{
  ArgumentData, empty_data, Arguments, find_data, update_data, append_data, append_arg, or_empty,
  find_data-update_data,
}
use proxy_verifier.Arguments.Handling.{
  more_than_zero_arg_n, more_than_one_arg_n, arg_at, Handled, append_all, take_args, handle_args,
}

arg_at-append :
    (front : List Bytes) (a : Bytes) (back : List Bytes)
    → arg_at (front ++ (a ∷ back)) (length front) ≡ a
arg_at-append [] a back = refl
arg_at-append (b ∷ front) a back = arg_at-append front a back

is_empty-false : (a : Bytes) → a ≢ [] → is_empty a ≡ false
is_empty-false [] ne = absurd (ne refl)
is_empty-false (c ∷ a) ne = refl

-- The loop appends the values that follow.
take_args-append_all :
    (front values rest : List Bytes) (name : Bytes) (index j : ℕ) (ret : Arguments)
    → length front ≡ index + j + 1
    → length front + length values + 1 < 2 ^ 32
    → All (λ v. v ≢ []) values
    → take_args (front ++ (values ++ rest)) name index (length values) j ret
      ≡ (false, append_all name values ret)
unfolding take_args append_all
take_args-append_all front [] rest name index j ret at small full = refl
take_args-append_all front (v ∷ values) rest name index j ret at small full =
    let args = front ++ (v ∷ (values ++ rest)) in
    let place : (index + j + 1) % 2 ^ 32 ≡ length front = omega (arith, at, small) in
    let value : arg_at args ((index + j + 1) % 2 ^ 32) ≡ v =
      ap (arg_at args) place ∙ arg_at-append front v (values ++ rest) in
    let there : ltb (length args) ((index + j + 2) % 2 ^ 32) ≡ false =
      ground (arith, length-append front (v ∷ (values ++ rest)), at, small) in
    rw (value, there, is_empty-false v full.0)
      (subst
        (λ a.
          take_args a name index (length values) (suc j) (append_arg name v ret)
          ≡ (false, append_all name values (append_arg name v ret)))
        (append_assoc front (v ∷ []) (values ++ rest))
        (take_args-append_all (front ++ (v ∷ [])) values rest name index (suc j)
          (append_arg name v ret) (omega (arith, length-append front (v ∷ []), at))
          (omega (arith, length-append front (v ∷ []), small)) full.1))

-- The values behind appending some.
append_all-values :
    (name : Bytes) (values : List Bytes) (ret : Arguments) (d : ArgumentData)
    → find_data name ret ≡ some d
    → find_data name (append_all name values ret) ≡ some (record d { values = d.values ++ values })
unfolding append_all append_arg
append_all-values name [] ret d e =
    e ∙ ap (λ vs. some (record d { values = vs })) (sym (append-nil d.values))
append_all-values name (v ∷ values) ret d e =
    append_all-values name values (append_arg name v ret)
      (record d { values = d.values ++ (v ∷ []) })
      (find_data-update_data name (λ x. record x { values = x.values ++ (v ∷ []) }) ret
        ∙ ap (λ o. some (record (or_empty o) { values = (or_empty o).values ++ (v ∷ []) })) e)
    ∙ ap (λ vs. some (record d { values = vs })) (append_assoc d.values (v ∷ []) values)

-- What is left of the arguments, and what is kept.
pub record Taken (name : Bytes) (front values rest : List Bytes) (r : Handled) : Type 0 where
  pub no_message : r.failed ≡ false
  pub others_left : r.args ≡ front ++ rest
  pub step_back : (r.index + 1) % 2 ^ 32 ≡ length front
  pub kept : find_data name r.ret ≡ some (record empty_data { values = values })

-- For an option at a place of the arguments, with as many values behind it as it takes, none of them
-- empty, and fewer than 2^32 - 2 arguments in all, `handle_args` gives no message, keeps exactly
-- these values under its name, takes the option and them out of the arguments, and leaves the index
-- so that the next turn of the caller's loop is at what followed them.
pub handle_args-Taken :
    (ret : Arguments) (front : List Bytes) (option name : Bytes) (values rest : List Bytes)
    → length (front ++ (option ∷ (values ++ rest))) < more_than_one_arg_n
    → All (λ v. v ≢ []) values
    → Taken name front values rest
        (handle_args ret (front ++ (option ∷ (values ++ rest))) name (length values) (length front))
unfolding handle_args append_data
handle_args-Taken ret front option name values rest small full =
    let args = front ++ (option ∷ (values ++ rest)) in
    let sizes : length args ≡ length front + suc (length values + length rest) =
      omega (arith, length-append front (option ∷ (values ++ rest)), length-append values rest) in
    let start = update_data name (λ d. empty_data) ret in
    let behind : (front ++ (option ∷ [])) ++ (values ++ rest) ≡ args =
      append_assoc front (option ∷ []) (values ++ rest) in
    let size_front : length (front ++ (option ∷ [])) ≡ length front + 1 =
      length-append front (option ∷ []) in
    let taken : take_args args name (length front) (length values) 0 start
        ≡ (false, append_all name values start) =
      subst
        (λ a.
          take_args a name (length front) (length values) 0 start
          ≡ (false, append_all name values start))
        behind
        (take_args-append_all (front ++ (option ∷ [])) values rest name (length front) 0 start
          (omega (arith, size_front)) (omega (arith, size_front, sizes, small)) full) in
    let finite : (length values == more_than_zero_arg_n) ≡ false = ground (arith, sizes, small) in
    let finite' : (length values == more_than_one_arg_n) ≡ false = ground (arith, sizes, small) in
    let dropped : drop (length front + length values + 1) args ≡ rest =
      ap (drop (length front + length values + 1))
        (sym behind ∙ sym (append_assoc (front ++ (option ∷ [])) values rest))
      ∙ drop-append (length front + length values + 1) ((front ++ (option ∷ [])) ++ values) rest
          (omega (arith, length-append (front ++ (option ∷ [])) values, size_front)) in
    rw (finite, finite', taken)
      (record {
        no_message = refl;
        others_left =
            ap (λ v. v ++ drop (length front + length values + 1) args)
              (take-append (length front) front (option ∷ (values ++ rest)) refl)
            ∙ ap (λ v. front ++ v) dropped;
        step_back = omega (arith, sizes, small);
        kept =
            append_all-values name values start empty_data
              (find_data-update_data name (λ d. empty_data) ret);
      })
