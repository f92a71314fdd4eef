-- ===== src/Transaction/Running.antt =====
-- `Session::run_transaction` and the loop of `Session::run_transactions`.
use proxy_verifier.Base.{
  ℕ, Bytes, Bool, true, false, not, ◌&&◌, ◌||◌, [], ◌∷◌, ◌++◌, none, some, ◌==◌, take,
  if◌then◌else◌,
}
use proxy_verifier.Chunk.Codex.{ChunkOps}
use proxy_verifier.Drain.Body.{Drained, drain_body_internal}
use proxy_verifier.Fields.Verify.{verify_headers}
use proxy_verifier.Message.Codec.{
  MessageOps, ParseResult, parse_ok, parse_error, parse_incomplete, Parsing, parse_response,
}
use proxy_verifier.Message.Defs.{HttpHeader, new_header}
use proxy_verifier.Session.Errata.{Errata, diag, error, is_ok}
use proxy_verifier.Session.Headers.{HeadersRead, read_headers}
use proxy_verifier.Session.Run.{Run, returned, blocked, unfinished, aborted, out_of_bounds}
use proxy_verifier.Session.Socket.{Session}
use proxy_verifier.Transaction.Sending.{max_hdr_size, write_message}

-- `Txn`, without its times.
pub record Txn : Type 0 where
  pub req : HttpHeader
  pub rsp : HttpHeader

-- What stays the same: the libraries, the generated content, what the buffer of the header keeps of a
-- failed `commit`, and a bound on the rounds of the loops over bodies.
pub record Setting : Type 0 where
  pub ops : MessageOps
  pub chunk_ops : ChunkOps
  pub generated : Bytes
  pub commit_error : Bytes → Bytes
  pub fuel : ℕ

-- The messages and the session behind a call.
abbrev pub Ended : Type 0
Ended = Errata × Session

-- What follows a call, unless it has not ended.
abbrev pub then_run {ℓ κ} : {A : Type ℓ} {B : Type κ} → Run A → (A → Run B) → Run B
then_run (returned a) next = next a
then_run blocked next = blocked
then_run unfinished next = unfinished
then_run aborted next = aborted
then_run out_of_bounds next = out_of_bounds

-- The status is not the expected one, and not the other one of 200 and 304.
unfoldable pub is_violation : ℕ → ℕ → Bool
is_violation expected got =
    not (expected == 0)
    && not (got == expected)
    && (not (got == 200) || not (expected == 304))
    && (not (got == 304) || not (expected == 200))

abbrev pub is_parsed : ParseResult → Bool
is_parsed parse_ok = true
is_parsed parse_error = false
is_parsed parse_incomplete = false

module _ (e : Setting) where
  unfoldable pub read_response : Session → Run HeadersRead
  unfolding read_headers
  read_response s = read_headers max_hdr_size e.commit_error max_hdr_size s []

  -- `drain_body_internal` on the contents of the buffer.
  unfoldable pub drain_response : Txn → HttpHeader → Session → Bytes → Run Drained
  unfolding drain_body_internal
  drain_response txn h s w =
      drain_body_internal e.chunk_ops e.ops.text e.ops.svtou e.fuel h txn.req.method
        txn.rsp.content_size s w

  abbrev pub after_drain : Errata → Drained → Run Ended
  after_drain errata ((n, notes), s) =
      let all = errata ++ notes in returned (if is_ok all then all else all ++ (error ∷ []), s)

  -- The response is there: its status, its fields and its body.
  unfoldable pub check_response : Txn → Errata → HttpHeader → Session → Bytes → Run Ended
  unfolding is_violation verify_headers drain_response
  check_response txn errata h s w =
      let noted = errata ++ (diag ∷ []) in
      let drained = drain_response txn h s w in
      if is_violation txn.rsp.status h.status
      then then_run drained (λ d. returned (noted ++ (error ∷ []) ++ d.0.1, d.1))
      else if verify_headers e.ops.text h.fields_rules txn.rsp.fields_rules
      then then_run drained (after_drain (noted ++ (error ∷ [])))
      else then_run drained (after_drain noted)

  -- The header behind a response with the status 100; a header that is not complete is not noticed.
  unfoldable pub after_continue : Txn → Errata → HeadersRead → Run Ended
  unfolding parse_response check_response
  after_continue txn errata ((none, notes), s, w) = returned (errata ++ (error ∷ []), s)
  after_continue txn errata ((some n, notes), s, w) =
      let s' = record s { body_offset = n } in
      let parsed = elim (parse_response e.ops new_header (take n w)) as (λ o. Run Ended) [
        | none ↦ unfinished
        | some p ↦
            if is_ok p.errata
            then check_response txn errata p.header s' w
            else returned (errata ++ (error ∷ []), s')
      ] in
      if is_ok notes then parsed else returned (errata ++ (error ∷ []), s)

  -- Behind `parse_response` of the first header.
  unfoldable pub after_parse : Txn → Errata → Parsing → Session → Bytes → Run Ended
  unfolding read_response after_continue check_response
  after_parse txn errata p s w =
      let all = errata ++ p.errata in
      if not (is_ok p.errata)
      then returned (all ++ (error ∷ []), s)
      else if not (is_parsed p.result)
      then returned (all ++ (error ∷ []), s)
      else if p.header.status == 100
      then then_run (read_response s) (after_continue txn (all ++ (diag ∷ [])))
      else check_response txn all p.header s w

  -- Behind the first call of `read_headers`, which has an error wherever it has no number.
  unfoldable pub after_headers : Txn → Errata → HeadersRead → Run Ended
  unfolding parse_response after_parse
  after_headers txn errata ((none, notes), s, w) = returned (errata ++ notes ++ (error ∷ []), s)
  after_headers txn errata ((some n, notes), s, w) =
      let s' = record s { body_offset = n } in
      let h = record new_header { key = txn.req.key } in
      let parsed = elim (parse_response e.ops h (take n w)) as (λ o. Run Ended) [
        | none ↦ unfinished
        | some p ↦ after_parse txn (errata ++ notes) p s' w
      ] in
      if is_ok notes then parsed else returned (errata ++ notes ++ (error ∷ []), s)

  -- `Session::run_transaction`
  unfoldable pub run_transaction : Txn → Session → Run Ended
  unfolding write_message read_response after_headers
  run_transaction txn s =
      then_run (write_message e.chunk_ops e.generated e.ops e.fuel txn.req s) (λ ((n, errata), s').
        let noted = errata ++ (diag ∷ []) in
        if is_ok noted
        then then_run (read_response s') (after_headers txn (noted ++ (diag ∷ [])))
        else returned (noted, s'))
