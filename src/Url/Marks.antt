-- ===== src/Url/Marks.antt =====
-- Where `parse_url` finds the marks in the text of a URL.
use proxy_verifier.Base.{
  ℕ, suc, ◌+◌, ◌<◌, Bytes, not, ◌&&◌, [], ◌∷◌, ◌++◌, Option, none, some, ltb, ◌==◌, ◌≡◌, ◌≢◌, refl,
  inl, inr, Bool-cases, sym, ap, subst, ◌∙◌, codes, All-append, append_assoc, append-nil, length,
  length-append, drop, drop-append, arith,
}
use proxy_verifier.Rules.Search.{find_text}
use proxy_verifier.Url.Find.{
  Avoids, find_text-mark, find_text-Avoids, find_text-append, further, find_text-scheme,
}
use proxy_verifier.Url.Parse.{npos, find, position, colon_before}
use proxy_verifier.Url.Printed.{
  Url, IsPlain, marked, authority_of, path_of, tail_of, front_of, scheme_text, IsSchemePlain, print,
}

-- The position of the authority.
abbrev pub start_of : Url → ℕ
start_of u = length (front_of u)

-- A mark's position where the part is there.
abbrev pub mark_at : ℕ → Option Bytes → ℕ
mark_at at none = npos
mark_at at (some text) = at

-- A colon behind the path is none.
colon_behind :
    (at start n : ℕ) (o : Option ℕ)
    → at < start + n
    → at < npos
    → colon_before at (position start (further n o)) ≡ npos
colon_behind at start n none h fits = elim (Bool-cases (ltb at npos && not (at == npos))) [
  | inl t ↦ rw t refl
  | inr f ↦ rw f refl
]
colon_behind at start n (some i) h fits = ground arith

some_not_none : {text : Bytes} → some text ≢ none
some_not_none e = ground (arith, e)

abbrev pub scheme_end : Option Bytes → ℕ
scheme_end none = npos
scheme_end (some text) = length text

find-scheme_text :
    (o : Option Bytes) (rest : Bytes)
    → IsSchemePlain o (scheme_text o ++ rest)
    → find (scheme_text o ++ rest) (codes "://") 0 ≡ scheme_end o
unfolding find
find-scheme_text none rest h = ap (position 0) h
find-scheme_text (some text) rest h =
    ap (λ v. position 0 (find_text v (codes "://"))) (append_assoc text (codes "://") rest)
    ∙ ap (position 0) (find_text-scheme text rest h)
    ∙ omega arith

module _ (u : Url) (plain : IsPlain u) where
  drop_start : drop (start_of u) (print u) ≡ authority_of u ++ (path_of u ++ tail_of u)
  drop_start = drop-append (start_of u) (front_of u) _ refl

  pub find_scheme : find (print u) (codes "://") 0 ≡ scheme_end u.scheme
  find_scheme = find-scheme_text u.scheme _ plain.scheme_plain

  pub find_path : find (print u) (b'/' ∷ []) (start_of u) ≡ start_of u + length (authority_of u)
  unfolding find
  find_path =
      ap (λ v. position (start_of u) (find_text v (b'/' ∷ []))) drop_start
      ∙ ap (position (start_of u)) (find_text-mark b'/' (authority_of u) _ plain.authority_slash)

  find-marked :
      (c : ℕ) (front : Bytes) (o : Option Bytes) (rest : Bytes)
      → drop (start_of u) (print u) ≡ front ++ (marked c o ++ rest)
      → Avoids c front
      → (o ≡ none → Avoids c rest)
      → find (print u) (c ∷ []) (start_of u) ≡ mark_at (start_of u + length front) o
  unfolding find
  find-marked c front none rest e h behind =
      ap (λ v. position (start_of u) (find_text v (c ∷ []))) e
      ∙ ap (position (start_of u)) (
          find_text-append c front rest h
          ∙ ap (further (length front)) (find_text-Avoids c rest (behind refl)))
  find-marked c front (some text) rest e h behind =
      ap (λ v. position (start_of u) (find_text v (c ∷ []))) e
      ∙ ap (position (start_of u)) (find_text-mark c front (text ++ rest) h)

  pub find_query :
      find (print u) (b'?' ∷ []) (start_of u)
      ≡ mark_at (start_of u + length (authority_of u ++ path_of u)) u.query
  find_query =
      find-marked b'?' (authority_of u ++ path_of u) u.query (marked b'#' u.fragment)
        (drop_start ∙ sym (append_assoc (authority_of u) (path_of u) (tail_of u)))
        (All-append _ (authority_of u) (path_of u) plain.authority_query (refl, plain.path_query))
        plain.fragment_query

  pub find_fragment :
      find (print u) (b'#' ∷ []) (start_of u)
      ≡ mark_at
          (start_of u + length (authority_of u ++ (path_of u ++ marked b'?' u.query)))
          u.fragment
  find_fragment =
      find-marked b'#' (authority_of u ++ (path_of u ++ marked b'?' u.query)) u.fragment []
        (drop_start ∙ simp (append_assoc, append-nil) refl)
        (All-append _ (authority_of u) _ plain.authority_fragment
          (All-append _ (path_of u) _ (refl, plain.path_fragment) plain.query_fragment))
        (λ e. tt)

  pub length-print :
      length (print u)
      ≡ start_of u
        + (length (authority_of u)
            + (suc (length u.path)
                + (length (marked b'?' u.query) + length (marked b'#' u.fragment))))
  length-print = omega (
    arith,
    length-append (front_of u) (authority_of u ++ (path_of u ++ tail_of u)),
    length-append (authority_of u) (path_of u ++ tail_of u),
    length-append u.path (tail_of u),
    length-append (marked b'?' u.query) (marked b'#' u.fragment),
  )

  pub start_fits : start_of u + length (authority_of u) < npos
  start_fits = omega (arith, plain.fits, length-print)

  pub find_colon :
      (o : Option Bytes)
      → u.port ≡ o
      → colon_before
          (start_of u + length (authority_of u))
          (find (print u) (b':' ∷ []) (start_of u))
        ≡ mark_at (start_of u + length u.host) o
  unfolding find
  find_colon none e =
      let at = start_of u + length (authority_of u) in
      let before_path = authority_of u ++ (b'/' ∷ []) in
      let view = u.path ++ tail_of u in
      let no_port : Avoids b':' (marked b':' u.port) =
        subst (λ o. Avoids b':' (marked b':' o)) (sym e) tt in
      let no_colon : Avoids b':' before_path =
        All-append _ (authority_of u) _ (All-append _ u.host _ plain.host_colon no_port)
          (refl, tt) in
      ap (λ v. colon_before at (position (start_of u) (find_text v (b':' ∷ []))))
        (drop_start ∙ sym (append_assoc (authority_of u) (b'/' ∷ []) view))
      ∙ ap (λ r. colon_before at (position (start_of u) r))
          (find_text-append b':' before_path view no_colon)
      ∙ colon_behind at (start_of u) (length before_path) (find_text view (b':' ∷ []))
          (omega (arith, length-append (authority_of u) (b'/' ∷ []))) start_fits
  find_colon (some text) e =
      let at = start_of u + length (authority_of u) in
      let colon : find (print u) (b':' ∷ []) (start_of u) ≡ start_of u + length u.host =
        find-marked b':' u.host u.port (path_of u ++ tail_of u)
          (drop_start ∙ append_assoc u.host (marked b':' u.port) _) plain.host_colon
          (λ none_of. absurd (some_not_none (sym e ∙ none_of)))
        ∙ ap (mark_at (start_of u + length u.host)) e in
      ap (colon_before at) colon ∙ ground (arith, length-append u.host (marked b':' u.port))
