-- ===== src/Transaction/Receiving.antt =====
-- `Session::read_and_parse_request` of local/src/core/http.cc, which the server calls.
use proxy_verifier.Base.{
  ℕ, zero, suc, Bytes, Bool, true, false, ◌&&◌, [], ◌∷◌, ◌++◌, Option, none, some, ◌≡◌, refl, take,
  arith, if◌then◌else◌,
}
use proxy_verifier.Message.Codec.{Parsing, parse_request}
use proxy_verifier.Message.Defs.{HttpHeader, new_header}
use proxy_verifier.Session.Errata.{
  error_stays, Errata, Rv, Severity, diag, error, is_ok, is_ok-append, is_ok-append_front,
}
use proxy_verifier.Session.Headers.{HeadersRead, read_headers}
use proxy_verifier.Session.Run.{Run, returned, blocked, unfinished, aborted, out_of_bounds}
use proxy_verifier.Session.Socket.{Session}
use proxy_verifier.Transaction.Running.{Setting, then_run, is_parsed}

-- The request, if there is one, with the session and the contents of the buffer.
abbrev pub Received : Type 0
Received = Rv (Option HttpHeader) × Session × Bytes

-- Behind `parse_request`.
unfoldable pub request_parsed : Errata → Parsing → Session → Bytes → Received
request_parsed notes p s w =
    let all = notes ++ p.errata in
    let malformed = all ++ (error ∷ diag ∷ []) in
    let kept = if is_parsed p.result && is_ok all then all else malformed in
    ((some p.header, kept ++ (diag ∷ [])), s, w)

module _ (e : Setting) where
  -- Behind `read_headers`, which has an error wherever it has no number.
  unfoldable pub headers_received : HeadersRead → Run Received
  unfolding parse_request request_parsed
  headers_received ((none, notes), s, w) = returned ((none, notes ++ (error ∷ [])), s, w)
  headers_received ((some zero, notes), s, w) =
      if is_ok notes
      then returned ((none, notes), record s { body_offset = 0 }, w)
      else returned ((none, notes ++ (error ∷ [])), s, w)
  headers_received ((some (suc n), notes), s, w) =
      let s' = record s { body_offset = suc n } in
      let parsed = elim (parse_request e.ops new_header (take (suc n) w)) as (λ o. Run Received) [
        | none ↦ unfinished
        | some p ↦ returned (request_parsed notes p s' w)
      ] in
      if is_ok notes then parsed else returned ((none, notes ++ (error ∷ [])), s, w)

  -- `Session::read_and_parse_request`, with the capacity and the contents of the buffer.
  unfoldable pub read_and_parse_request : ℕ → Session → Bytes → Run Received
  unfolding read_headers headers_received
  read_and_parse_request capacity s w =
      then_run (read_headers capacity e.commit_error capacity s w) headers_received

  -- A header that was parsed, whole and without an error, from the bytes up to the body.
  pub record IsRequest (h : HttpHeader) (s : Session) (w : Bytes) : Type 0 where
    pub parsing : Parsing
    pub parsed : parse_request e.ops new_header (take s.body_offset w) ≡ some parsing
    pub complete : is_parsed parsing.result ≡ true
    pub no_error : is_ok parsing.errata ≡ true
    pub header : parsing.header ≡ h

  abbrev pub ReceivedIf : Run Received → Type 0
  ReceivedIf (returned ((none, errata), s, w)) = is_ok errata ≡ true → s.body_offset ≡ 0
  ReceivedIf (returned ((some h, errata), s, w)) = is_ok errata ≡ true → IsRequest h s w
  ReceivedIf blocked = Unit
  ReceivedIf unfinished = Unit
  ReceivedIf aborted = Unit
  ReceivedIf out_of_bounds = Unit

  request_parsed-ReceivedIf :
      (notes : Errata) (p : Parsing) (s : Session) (w : Bytes)
      → parse_request e.ops new_header (take s.body_offset w) ≡ some p
      → ReceivedIf (returned (request_parsed notes p s w))
  unfolding request_parsed
  request_parsed-ReceivedIf notes p s w parsed =
      by_test (is_parsed p.result) (is_ok (notes ++ p.errata)) refl refl
    where
      all : Errata
      all = notes ++ p.errata

      by_test :
          (b c : Bool)
          → is_parsed p.result ≡ b
          → is_ok all ≡ c
          → is_ok ((if b && c then all else all ++ (Severity.error ∷ diag ∷ [])) ++ (diag ∷ []))
            ≡ true
          → IsRequest p.header s w
      by_test true true complete fine ok = record {
        parsing = p;
        parsed = parsed;
        complete = complete;
        no_error = is_ok-append notes p.errata fine;
        header = refl;
      }
      by_test true false complete fine ok =
          let bad : is_ok all ≡ true =
            is_ok-append_front all (Severity.error ∷ diag ∷ [])
              (is_ok-append_front (all ++ (Severity.error ∷ diag ∷ [])) (diag ∷ []) ok) in
          ground (arith, fine, bad)
      by_test false c complete fine ok =
          let bad : is_ok (Severity.error ∷ diag ∷ []) ≡ true =
            is_ok-append all (Severity.error ∷ diag ∷ [])
              (is_ok-append_front (all ++ (Severity.error ∷ diag ∷ [])) (diag ∷ []) ok) in
          ground (arith, bad)

  headers_received-ReceivedIf : (r : HeadersRead) → ReceivedIf (headers_received r)
  unfolding headers_received
  headers_received-ReceivedIf ((none, notes), s, w) = λ ok. error_stays notes ok
  headers_received-ReceivedIf ((some zero, notes), s, w) = by_test (is_ok notes)
    where
      by_test :
          (b : Bool)
          → ReceivedIf (
              if b
              then returned ((none, notes), record s { body_offset = 0 }, w)
              else returned ((none, notes ++ (Severity.error ∷ [])), s, w))
      by_test true = λ ok. refl
      by_test false = λ ok. error_stays notes ok
  headers_received-ReceivedIf ((some (suc n), notes), s, w) =
      by_test (is_ok notes) (parse_request e.ops new_header (take (suc n) w)) refl
    where
      s' : Session
      s' = record s { body_offset = suc n }

      by_test :
          (b : Bool) (o : Option Parsing)
          → parse_request e.ops new_header (take (suc n) w) ≡ o
          → ReceivedIf (
              if b
              then (elim o as (λ o'. Run Received) [
                | none ↦ unfinished
                | some p ↦ returned (request_parsed notes p s' w)
              ])
              else returned ((none, notes ++ (Severity.error ∷ [])), s, w))
      by_test true none parsed = tt
      by_test true (some p) parsed = request_parsed-ReceivedIf notes p s' w parsed
      by_test false o parsed = λ ok. error_stays notes ok

  -- Where `read_and_parse_request` comes back without an error, it has a header that `parse_request`
  -- has made, whole and without an error, of the bytes up to the body; or there is none, and the
  -- offset of the body is 0.
  pub read_and_parse_request_lem :
      (capacity : ℕ) (s : Session) (w : Bytes) → ReceivedIf (read_and_parse_request capacity s w)
  unfolding read_and_parse_request
  read_and_parse_request_lem capacity s w =
      by_run (read_headers capacity e.commit_error capacity s w)
    where
      by_run : (run : Run HeadersRead) → ReceivedIf (then_run run headers_received)
      by_run (returned r) = headers_received-ReceivedIf r
      by_run blocked = tt
      by_run unfinished = tt
      by_run aborted = tt
      by_run out_of_bounds = tt
