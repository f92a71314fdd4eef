-- ===== src/Url/Cuts.antt =====
-- The positions at which `parse_url` cuts the text of a URL.
use proxy_verifier.Base.{
  ℕ, suc, ◌+◌, ◌≤◌, ◌<◌, Bytes, [], ◌∷◌, ◌++◌, Option, none, some, min, ◌==◌, ◌≡◌, refl, ap, ◌∙◌,
  codes, length, length-append, arith, if◌then◌else◌,
}
use proxy_verifier.Url.Marks.{
  mark_at, scheme_end, start_of, find_scheme, find_path, find_query, find_fragment, find_colon,
  length-print, start_fits,
}
use proxy_verifier.Url.Parse.{npos, find, behind_scheme, or_length, Cuts, cut_url}
use proxy_verifier.Url.Printed.{Url, IsPlain, marked, authority_of, path_of, scheme_text, print}

mark_at_above : (a b : ℕ) (o : Option Bytes) → a ≤ b → a ≤ npos → a ≤ mark_at b o
mark_at_above a b none h fits = fits
mark_at_above a b (some text) h fits = h

-- The end of the data where no mark follows.
end_of_query :
    (view : Bytes) (at c : ℕ) (f : Option Bytes)
    → length view ≡ at + length (marked c f)
    → length view < npos
    → or_length view (mark_at at f) ≡ at
end_of_query view at c none e fits = ground arith
end_of_query view at c (some text) e fits = ground arith

end_of_path :
    (view : Bytes) (at c d : ℕ) (q f : Option Bytes)
    → length view ≡ at + (length (marked c q) + length (marked d f))
    → length view < npos
    → or_length view (min (mark_at at q) (mark_at (at + length (marked c q)) f)) ≡ at
end_of_path view at c d none none e fits = ground arith
end_of_path view at c d none (some text) e fits = ground arith
end_of_path view at c d (some t) none e fits = ground arith
end_of_path view at c d (some t) (some text) e fits = ground arith

abbrev pub path_at : Url → ℕ
path_at u = start_of u + length (authority_of u)

abbrev pub tail_at : Url → ℕ
tail_at u = path_at u + suc (length u.path)

abbrev pub fragment_at : Url → ℕ
fragment_at u = tail_at u + length (marked b'?' u.query)

abbrev pub port_at : ℕ → Option Bytes → ℕ
port_at at none = npos
port_at at (some text) = suc at

abbrev pub cuts : Url → Cuts
cuts u = record {
  scheme_end = scheme_end u.scheme;
  host_start = start_of u;
  host_end = start_of u + length u.host;
  port_start = port_at (start_of u + length u.host) u.port;
  port_end = path_at u;
  authority_end = path_at u;
  path_start = path_at u;
  path_end = tail_at u;
  query_start = mark_at (tail_at u) u.query;
  query_end = fragment_at u;
  fragment_start = mark_at (fragment_at u) u.fragment;
}

-- The colon of a port ends the host, and the end of the authority where there is none.
host_ends :
    (at path c : ℕ) (o : Option Bytes)
    → path ≡ at + length (marked c o)
    → path < npos
    → (if mark_at at o == npos then path else mark_at at o) ≡ at
host_ends at path c none e fits = omega (arith, e)
host_ends at path c (some text) e fits = ground arith

port_starts :
    (at path : ℕ) (o : Option Bytes)
    → at < npos
    → (if mark_at at o == npos then npos else suc (mark_at at o)) ≡ port_at at o
port_starts at path none fits = refl
port_starts at path (some text) fits = ground arith

port_ends :
    (at path c : ℕ) (o : Option Bytes)
    → path ≡ at + length (marked c o)
    → path < npos
    → (if mark_at at o == npos then at else path) ≡ path
port_ends at path c none e fits = omega (arith, e)
port_ends at path c (some text) e fits = ground arith

behind_scheme_text :
    (o : Option Bytes)
    → length (scheme_text o) < npos
    → behind_scheme (scheme_end o) ≡ length (scheme_text o)
behind_scheme_text none fits = refl
behind_scheme_text (some text) fits = ground (arith, length-append text (codes "://"))

module _ (u : Url) (plain : IsPlain u) where
  pub authority_ends :
      min (path_at u) (min (mark_at (tail_at u) u.query) (mark_at (fragment_at u) u.fragment))
      ≡ path_at u
  authority_ends = omega (
    arith,
    start_fits u plain,
    mark_at_above (path_at u) (tail_at u) u.query (omega arith) (omega (arith, start_fits u plain)),
    mark_at_above (path_at u) (fragment_at u) u.fragment (omega arith)
        (omega (arith, start_fits u plain)),
  )

  pub behind_scheme_lem : behind_scheme (scheme_end u.scheme) ≡ start_of u
  behind_scheme_lem = behind_scheme_text u.scheme (omega (arith, start_fits u plain))

  pub find-query_at : find (print u) (b'?' ∷ []) (start_of u) ≡ mark_at (tail_at u) u.query
  find-query_at =
      find_query u plain
      ∙ ap (λ n. mark_at n u.query) (omega (arith, length-append (authority_of u) (path_of u)))

  pub find-fragment_at :
      find (print u) (b'#' ∷ []) (start_of u) ≡ mark_at (fragment_at u) u.fragment
  find-fragment_at =
      find_fragment u plain
      ∙ ap (λ n. mark_at n u.fragment)
          (omega (
            arith,
            length-append (authority_of u) (path_of u ++ marked b'?' u.query),
            length-append u.path (marked b'?' u.query),
          ))

  pub print-cuts : cut_url (print u) ≡ cuts u
  unfolding cut_url
  print-cuts =
      let host_at = start_of u + length u.host in
      let port_long : path_at u ≡ host_at + length (marked b':' u.port) =
        omega (arith, length-append u.host (marked b':' u.port)) in
      let long : length (print u)
          ≡ tail_at u + (length (marked b'?' u.query) + length (marked b'#' u.fragment)) =
        omega (arith, length-print u plain) in
      let host_end = host_ends host_at (path_at u) b':' u.port port_long (start_fits u plain) in
      rw
        (
          find_scheme u plain,
          behind_scheme_lem,
          find_path u plain,
          find-query_at,
          find-fragment_at,
          authority_ends,
          find_colon u plain u.port refl,
          end_of_path (print u) (tail_at u) b'?' b'#' u.query u.fragment long plain.fits,
          end_of_query (print u) (fragment_at u) b'#' u.fragment (omega (arith, long)) plain.fits,
          host_end,
          port_starts host_at (path_at u) u.port (omega (arith, port_long, start_fits u plain)),
          port_ends host_at (path_at u) b':' u.port port_long (start_fits u plain),
        )
        refl
