-- ===== src/Url/Inverse.antt =====
-- `parse_url` takes the text of a URL apart into the parts it was written from.
use proxy_verifier.Base.{◌++◌}
use proxy_verifier.Rules.Defs.{scheme, host, port, query, fragment}
use proxy_verifier.Url.Parse.{UrlMembers}
use proxy_verifier.Url.Printed.{Url, IsPlain, authority_of, path_of, tail_of, or_former}

module _ (u : Url) (plain : IsPlain u) (m : UrlMembers) where
  -- The members under "URI parsing".
  abbrev with_uri : UrlMembers
  with_uri = record m {
    uri_scheme = or_former m.uri_scheme u.scheme;
    uri_host = u.host;
    uri_port = or_former m.uri_port u.port;
    uri_authority = authority_of u;
    uri_path = path_of u;
    uri_query = or_former m.uri_query u.query;
    uri_fragment = or_former m.uri_fragment u.fragment;
  }

  abbrev with_pseudo : UrlMembers → UrlMembers
  with_pseudo m' = record m' {
    pseudo_scheme = or_former m'.pseudo_scheme u.scheme;
    pseudo_authority = authority_of u;
    pseudo_path = path_of u ++ tail_of u;
  }
