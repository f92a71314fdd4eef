-- ===== src/Replay/Pseudo.antt =====
-- `YamlParser::process_pseudo_headers`.
use proxy_verifier.Base.{
  ℕ, ◌+◌, Bytes, Bool, true, false, ◌&&◌, [], ◌∷◌, ◌++◌, Option, none, some, codes, ltb, leb, ◌==◌,
  is_empty, length, if◌then◌else◌,
}
use proxy_verifier.Message.Codec.{MessageOps}
use proxy_verifier.Message.Defs.{HttpHeader, find_field}
use proxy_verifier.Session.Errata.{Errata, Severity, info}

-- The message, the messages for the user, and the number of pseudo headers.
pub record Pseudo : Type 0 where
  pub message : HttpHeader
  pub errata : Errata
  pub number : ℕ

-- A pseudo header of a request, where another node may have set its member.
abbrev pub request_pseudo : Bool → HttpHeader → Pseudo → Pseudo
request_pseudo unset message p = record {
  message = record message { is_request = true };
  errata = if unset then p.errata else p.errata ++ (Severity.error ∷ []);
  number = p.number + 1;
}

unfoldable pub pseudo_method : Option Bytes → Pseudo → Pseudo
pseudo_method none p = p
pseudo_method (some value) p =
    request_pseudo (is_empty p.message.method) (record p.message { method = value }) p

unfoldable pub pseudo_scheme : Option Bytes → Pseudo → Pseudo
pseudo_scheme none p = p
pseudo_scheme (some value) p =
    request_pseudo (is_empty p.message.members.pseudo_scheme)
      (record p.message { members = record p.message.members { pseudo_scheme = value } }) p

-- With a host field the authority is no error.
abbrev pub note_authority : Option Bytes → Pseudo → Pseudo
note_authority (some host) p = record p { errata = p.errata ++ (info ∷ []) }
note_authority none p =
    if is_empty p.message.members.pseudo_authority
    then p
    else record p { errata = p.errata ++ (Severity.error ∷ []) }

unfoldable pub pseudo_authority : Option Bytes → Option Bytes → Pseudo → Pseudo
pseudo_authority host none p = p
pseudo_authority host (some value) p =
    request_pseudo true
      (record p.message { members = record p.message.members { pseudo_authority = value } })
      (note_authority host p)

unfoldable pub pseudo_path : Option Bytes → Pseudo → Pseudo
pseudo_path none p = p
pseudo_path (some value) p =
    request_pseudo (is_empty p.message.members.pseudo_path)
      (record p.message { members = record p.message.members { pseudo_path = value } }) p

-- The last checks, if there is a pseudo header.
unfoldable pub check_pseudos : Pseudo → Pseudo
check_pseudos p =
    let expected = if p.message.is_request then 4 else 1 in
    if p.number == 0 then p else record {
      message = record p.message { http_version = codes "2"; contains_pseudo_headers = true };
      errata = if p.number == expected then p.errata else p.errata ++ (Severity.error ∷ []);
      number = p.number;
    }

module _ (ops : MessageOps) (parsed : Bytes → Bytes) where
  -- A status that is a number in [1..599]; `parsed` is the text that `svtou` has read.
  abbrev pub is_status_text : Bytes → Bool
  is_status_text text =
      length (parsed text) == length text && (ltb 0 (ops.svtou text) && leb (ops.svtou text) 599)

  abbrev pub with_status : Bytes → HttpHeader → HttpHeader
  with_status text h = record h {
    status = ops.svtou text;
    status_string = ops.decimal (ops.svtou text);
  }

  unfoldable pub pseudo_status : Option Bytes → Pseudo → Pseudo
  pseudo_status none p = p
  pseudo_status (some value) p =
      let noted = if p.message.status == 0 then p.errata else p.errata ++ (Severity.error ∷ []) in
      let message = if is_status_text value then with_status value p.message else p.message in
      record {
        message = record message { is_request = false };
        errata = if is_status_text value then noted else noted ++ (Severity.error ∷ []);
        number = p.number + 1;
      }

  -- The five lookups in turn, for what each of them finds, and the host field.
  unfoldable pub pseudo_fields :
      Option Bytes
      → Option Bytes
      → Option Bytes
      → Option Bytes
      → Option Bytes
      → Option Bytes
      → HttpHeader
      → Pseudo
  unfolding pseudo_method pseudo_scheme pseudo_authority pseudo_path pseudo_status check_pseudos
  pseudo_fields method scheme host authority path status h = check_pseudos (
      pseudo_status status (
        pseudo_path path (
          pseudo_authority host authority (
            pseudo_scheme scheme
              (pseudo_method method (record { message = h; errata = []; number = 0 }))))))

  -- `YamlParser::process_pseudo_headers`
  unfoldable pub process_pseudo_headers : HttpHeader → Pseudo
  unfolding pseudo_fields
  process_pseudo_headers h =
      let field = find_field ops.text ops.svtou h in
      pseudo_fields (field (codes ":method")) (field (codes ":scheme")) (field (codes "host"))
        (field (codes ":authority")) (field (codes ":path")) (field (codes ":status")) h
