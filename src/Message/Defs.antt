-- ===== src/Message/Defs.antt =====
-- The members of `HttpHeader` and the operations that read the framing of the body from its fields.
use proxy_verifier.Base.{
  ℕ, Bytes, Bool, true, false, ◌||◌, [], ◌∷◌, Option, none, some, ◌==◌, is_eq, codes, if◌then◌else◌,
}
use proxy_verifier.Fields.Defs.{HttpFields, no_fields}
use proxy_verifier.Multimap.Ops.{Multimap, equal_range}
use proxy_verifier.Swoc.{TextOps}
use proxy_verifier.Url.Parse.{UrlMembers}

-- `uri_scheme` and its kin are in `members`; of `stream_id`, an `int32_t`, these are the bits.
pub record HttpHeader : Type 0 where
  pub is_request : Bool
  pub status : ℕ
  pub status_string : Bytes
  pub reason : Bytes
  pub content_data : Option Bytes
  pub content_size : ℕ
  pub recorded_content_size : ℕ
  pub method : Bytes
  pub http_version : Bytes
  pub url : Bytes
  pub send_continue : Bool
  pub members : UrlMembers
  pub fields_rules : HttpFields
  pub chunked_p : Bool
  pub has_transfer_encoding_chunked : Bool
  pub content_length_p : Bool
  pub key : Bytes
  pub stream_id : ℕ
  pub contains_pseudo_headers : Bool
  pub verify_strictly : Bool

-- `TRANSACTION_KEY_NOT_SET`
abbrev pub transaction_key_not_set : Bytes
transaction_key_not_set = codes "*N/A*"

abbrev pub no_members : UrlMembers
no_members = record {
  uri_scheme = [];
  uri_host = [];
  uri_port = [];
  uri_authority = [];
  uri_path = [];
  uri_query = [];
  uri_fragment = [];
  pseudo_scheme = [];
  pseudo_authority = [];
  pseudo_path = [];
}

-- The constructor.
abbrev pub new_header : HttpHeader
new_header = record {
  is_request = false;
  status = 0;
  status_string = [];
  reason = [];
  content_data = none;
  content_size = 0;
  recorded_content_size = 0;
  method = [];
  http_version = [];
  url = [];
  send_continue = false;
  members = no_members;
  fields_rules = no_fields;
  chunked_p = false;
  has_transfer_encoding_chunked = false;
  content_length_p = false;
  key = transaction_key_not_set;
  stream_id = 4294967295;
  contains_pseudo_headers = false;
  verify_strictly = false;
}

-- `STATUS_NO_CONTENT[status]` behind `global_init`
abbrev pub status_no_content : ℕ → Bool
status_no_content status = status == 100 || status == 204 || status == 304

-- `hdr._status && STATUS_NO_CONTENT[hdr._status]`
abbrev pub has_no_content : HttpHeader → Bool
has_no_content h = if h.status == 0 then false else status_no_content h.status

abbrev pub first_value : Multimap Bytes → Option Bytes
first_value [] = none
first_value ((name, value) ∷ rest) = some value

module _ (ops : TextOps) (svtou : Bytes → ℕ) where
  -- `_fields.find(name)`: the first of equal names.
  abbrev pub find_field : HttpHeader → Bytes → Option Bytes
  find_field h name = first_value (equal_range ops name h.fields_rules.fields)

  unfoldable pub update_content_length : HttpHeader → Bytes → HttpHeader
  update_content_length h method =
      if is_eq (ops.strcasecmp method (codes "HEAD"))
      then record h { content_size = 0; content_length_p = true }
      else (elim (find_field h (codes "content-length")) [
        | some value ↦ record h { content_size = svtou value; content_length_p = true }
        | none ↦ record h { content_length_p = false }
      ])

  unfoldable pub update_transfer_encoding : HttpHeader → HttpHeader
  update_transfer_encoding h = elim (find_field h (codes "transfer-encoding")) [
    | some value ↦
        if is_eq (ops.strcasecmp (codes "chunked") value)
        then record h { chunked_p = true; has_transfer_encoding_chunked = true }
        else record h { chunked_p = false }
    | none ↦ record h { chunked_p = false }
  ]
