-- ===== src/Url/Parse.antt =====
-- `HttpHeader::parse_url`: positions are 64-bit numbers, and `npos` is the largest of them.
use proxy_verifier.Base.{
  ℕ, suc, ◌+◌, ◌-◌, ◌%◌, ◌^◌, Bytes, not, ◌&&◌, [], ◌∷◌, Option, none, some, min, ltb, ◌==◌, codes,
  length, take, drop, if◌then◌else◌,
}
use proxy_verifier.Fields.Defs.{HttpFields}
use proxy_verifier.Rules.Defs.{UrlPart, scheme, host, port, authority, path, query, fragment, error}
use proxy_verifier.Rules.Search.{find_text}

abbrev pub npos : ℕ
npos = 18446744073709551615

-- Subtraction of two `size_t`.
abbrev pub minus : ℕ → ℕ → ℕ
minus a b = (a + (2 ^ 64 - b)) % 2 ^ 64

abbrev pub position : ℕ → Option ℕ → ℕ
position pos none = npos
position pos (some i) = pos + i

-- `find(text, pos)` of a string view, from a position inside it.
unfoldable pub find : Bytes → Bytes → ℕ → ℕ
find view text pos = position pos (find_text (drop pos view) text)

-- `substr(pos, count)` of a string view, from a position inside it.
abbrev pub substr : Bytes → ℕ → ℕ → Bytes
substr view pos count = take count (drop pos view)

-- The members that `parse_url` sets: `uri_scheme` and its kin, and `_scheme`, `_authority` and
-- `_path`, which are the pseudo headers of HTTP/2.
pub record UrlMembers : Type 0 where
  pub uri_scheme : Bytes
  pub uri_host : Bytes
  pub uri_port : Bytes
  pub uri_authority : Bytes
  pub uri_path : Bytes
  pub uri_query : Bytes
  pub uri_fragment : Bytes
  pub pseudo_scheme : Bytes
  pub pseudo_authority : Bytes
  pub pseudo_path : Bytes

-- The local variables of the function, as they stand where the members are set, but for the starts
-- of the query and the fragment, which are the positions of their marks.
pub record Cuts : Type 0 where
  pub scheme_end : ℕ
  pub host_start : ℕ
  pub host_end : ℕ
  pub port_start : ℕ
  pub port_end : ℕ
  pub authority_end : ℕ
  pub path_start : ℕ
  pub path_end : ℕ
  pub query_start : ℕ
  pub query_end : ℕ
  pub fragment_start : ℕ

-- `_fields_rules->_url_parts` behind the call, from the former ones; `ERROR` names none.
unfoldable pub part_of : UrlMembers → (UrlPart → Bytes) → UrlPart → Bytes
part_of m former scheme = m.uri_scheme
part_of m former host = m.uri_host
part_of m former port = m.uri_port
part_of m former authority = m.uri_authority
part_of m former path = m.uri_path
part_of m former query = m.uri_query
part_of m former fragment = m.uri_fragment
part_of m former error = former error

-- Where the authority starts: behind "://", if that is found.
abbrev pub behind_scheme : ℕ → ℕ
behind_scheme scheme_end = if scheme_end == npos then 0 else scheme_end + 3

-- The start of the port behind the tests: a colon behind the path is none.
abbrev pub colon_before : ℕ → ℕ → ℕ
colon_before path_start colon =
    if ltb path_start colon && not (path_start == npos) then npos else colon

abbrev pub or_length : Bytes → ℕ → ℕ
or_length url at = if at == npos then length url else at

unfoldable pub cut_url : Bytes → Cuts
cut_url url =
    let scheme_end = find url (codes "://") 0 in
    let host_start = behind_scheme scheme_end in
    let path_start = find url (b'/' ∷ []) host_start in
    let query_start = find url (b'?' ∷ []) host_start in
    let fragment_start = find url (b'#' ∷ []) host_start in
    let authority_end = min path_start (min query_start fragment_start) in
    let colon = colon_before path_start (find url (b':' ∷ []) host_start) in
    let host_end = if colon == npos then authority_end else colon in
    record {
      scheme_end = scheme_end;
      host_start = host_start;
      host_end = host_end;
      port_start = if colon == npos then npos else suc colon;
      port_end = if colon == npos then host_end else authority_end;
      authority_end = authority_end;
      path_start = path_start;
      path_end = or_length url (min query_start fragment_start);
      query_start = query_start;
      query_end = or_length url fragment_start;
      fragment_start = fragment_start;
    }

-- The part of the function under "URI parsing".
unfoldable pub set_uri : UrlMembers → Bytes → Cuts → UrlMembers
set_uri m url k = record m {
  uri_scheme = if k.scheme_end == npos then m.uri_scheme else substr url 0 k.scheme_end;
  uri_host = substr url k.host_start (minus k.host_end k.host_start);
  uri_port =
      if k.port_start == npos
      then m.uri_port
      else substr url k.port_start (minus k.port_end k.port_start);
  uri_authority = substr url k.host_start (minus k.port_end k.host_start);
  uri_path =
      if k.path_start == npos
      then m.uri_path
      else substr url k.path_start (minus k.path_end k.path_start);
  uri_query =
      if k.query_start == npos
      then m.uri_query
      else substr url (suc k.query_start) (minus k.query_end (suc k.query_start));
  uri_fragment =
      if k.fragment_start == npos
      then m.uri_fragment
      else substr url (suc k.fragment_start) (minus (length url) (suc k.fragment_start));
}

-- The part of the function under "Non-URI parsing".
unfoldable pub set_pseudo : UrlMembers → Bytes → UrlMembers
set_pseudo m url =
    let end_scheme = find url (codes "://") 0 in
    let start_auth = behind_scheme end_scheme in
    let next_slash = find url (b'/' ∷ []) start_auth in
    let next_query = find url (b'?' ∷ []) start_auth in
    let next_fragment = find url (b'#' ∷ []) start_auth in
    let end_host = or_length url (min next_slash (min next_query next_fragment)) in
    record m {
      pseudo_scheme = if end_scheme == npos then m.pseudo_scheme else substr url 0 end_scheme;
      pseudo_authority = substr url start_auth (minus end_host start_auth);
      pseudo_path = if end_host == length url then m.pseudo_path else drop end_host url;
    }

-- The members behind the call, and the fields with the parts of the URL.
unfoldable pub parse_url : UrlMembers → HttpFields → Bytes → UrlMembers × HttpFields
unfolding cut_url set_uri set_pseudo part_of
parse_url m h url =
    let m' = set_uri m url (cut_url url) in
    (set_pseudo m' url, record h { url_parts = part_of m' h.url_parts })
