-- ===== src/Url/Printed.antt =====
-- A URL with a path, and its text.
use proxy_verifier.Base.{ℕ, ◌<◌, Bytes, [], ◌∷◌, ◌++◌, Option, none, some, ◌≡◌, codes, length}
use proxy_verifier.Rules.Search.{find_text}
use proxy_verifier.Url.Find.{Avoids}
use proxy_verifier.Url.Parse.{UrlMembers, npos}

-- The path is what follows its slash.
pub record Url : Type 0 where
  pub scheme : Option Bytes
  pub host : Bytes
  pub port : Option Bytes
  pub path : Bytes
  pub query : Option Bytes
  pub fragment : Option Bytes

-- A part behind its mark.
abbrev pub marked : ℕ → Option Bytes → Bytes
marked c none = []
marked c (some text) = c ∷ text

abbrev pub authority_of : Url → Bytes
authority_of u = u.host ++ marked b':' u.port

abbrev pub path_of : Url → Bytes
path_of u = b'/' ∷ u.path

abbrev pub tail_of : Url → Bytes
tail_of u = marked b'?' u.query ++ marked b'#' u.fragment

abbrev pub scheme_text : Option Bytes → Bytes
scheme_text none = []
scheme_text (some text) = text ++ codes "://"

abbrev pub front_of : Url → Bytes
front_of u = scheme_text u.scheme

abbrev pub print : Url → Bytes
print u = front_of u ++ (authority_of u ++ (path_of u ++ tail_of u))

-- A scheme has no colon; a URL without one has no "://".
abbrev pub IsSchemePlain : Option Bytes → Bytes → Type 0
IsSchemePlain none view = find_text view (codes "://") ≡ none
IsSchemePlain (some text) view = Avoids b':' text

-- No part has a mark that starts a later one. A fragment may have a question mark if there is a
-- query.
pub record IsPlain (u : Url) : Type 0 where
  pub scheme_plain : IsSchemePlain u.scheme (print u)
  pub host_colon : Avoids b':' u.host
  pub authority_slash : Avoids b'/' (authority_of u)
  pub authority_query : Avoids b'?' (authority_of u)
  pub authority_fragment : Avoids b'#' (authority_of u)
  pub path_query : Avoids b'?' u.path
  pub path_fragment : Avoids b'#' u.path
  pub query_fragment : Avoids b'#' (marked b'?' u.query)
  pub fragment_query : u.query ≡ none → Avoids b'?' (marked b'#' u.fragment)
  pub fits : length (print u) < npos

abbrev pub or_former : Bytes → Option Bytes → Bytes
or_former former none = former
or_former former (some text) = text

-- The members that hold the parts; one without a part keeps its former value.
abbrev pub with_parts : UrlMembers → Url → UrlMembers
with_parts m u = record {
  uri_scheme = or_former m.uri_scheme u.scheme;
  uri_host = u.host;
  uri_port = or_former m.uri_port u.port;
  uri_authority = authority_of u;
  uri_path = path_of u;
  uri_query = or_former m.uri_query u.query;
  uri_fragment = or_former m.uri_fragment u.fragment;
  pseudo_scheme = or_former m.pseudo_scheme u.scheme;
  pseudo_authority = authority_of u;
  pseudo_path = path_of u ++ tail_of u;
}
