-- ===== src/Tests/Url.antt =====
-- Parsing of URLs, with the inputs on which a part comes out wrong.
use proxy_verifier.Message.Defs.{no_members}
use proxy_verifier.Base.{
  ℕ, Bytes, Bool, true, not, ◌&&◌, [], ◌∷◌, none, some, ◌==◌, ◌≡◌, refl, codes,
}
use proxy_verifier.Fields.Defs.{no_fields}
use proxy_verifier.Rules.Search.{find_text, matches_front}
use proxy_verifier.Url.Printed.{Url}
use proxy_verifier.Url.Parse.{UrlMembers, parse_url, cut_url, set_uri, set_pseudo, find}

abbrev of_parts : Bytes → Bytes → Bytes → Bytes → Bytes → Bytes → UrlMembers
of_parts s h p a path q = record no_members {
  uri_scheme = s;
  uri_host = h;
  uri_port = p;
  uri_authority = a;
  uri_path = path;
  uri_query = q;
  pseudo_scheme = s;
  pseudo_authority = a;
}

unfoldable parsed : Bytes → UrlMembers
parsed url = record (parse_url no_members no_fields url).0 { pseudo_path = [] }

all_parts :
    parsed (codes "https://example.com:443/a/b?q=1")
    ≡ of_parts
        (codes "https")
        (codes "example.com")
        (codes "443")
        (codes "example.com:443")
        (codes "/a/b")
        (codes "q=1")
unfolding parsed parse_url cut_url set_uri set_pseudo find find_text matches_front
all_parts = refl

path_alone : parsed (codes "/a/b?q=1") ≡ of_parts [] [] [] [] (codes "/a/b") (codes "q=1")
unfolding parsed parse_url cut_url set_uri set_pseudo find find_text matches_front
path_alone = refl

-- A URL in the query of a path is taken for the whole.
url_in_query : (parsed (codes "/to?u=http://x/y")).uri_host ≡ codes "x"
unfolding parsed parse_url cut_url set_uri set_pseudo find find_text matches_front
url_in_query = refl

-- A colon in the query of a URL without a path is taken for the start of a port.
colon_in_query : (parsed (codes "http://h?t=1:2")).uri_host ≡ codes "h?t=1"
unfolding parsed parse_url cut_url set_uri set_pseudo find find_text matches_front
colon_in_query = refl

-- A slash in the query of a URL without a path is taken for the start of a path.
slash_in_query : (parsed (codes "http://h?t=/2")).uri_path ≡ codes "/2"
unfolding parsed parse_url cut_url set_uri set_pseudo find find_text matches_front
slash_in_query = refl

unfoldable avoids : ℕ → Bytes → Bool
avoids c [] = true
avoids c (b ∷ text) = not (b == c) && avoids c text

abbrev a_url : Url
a_url = record {
  scheme = some (codes "https");
  host = codes "example.com";
  port = some (codes "443");
  path = codes "a/b";
  query = some (codes "t=1:2");
  fragment = none;
}
