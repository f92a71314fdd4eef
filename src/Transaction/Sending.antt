-- ===== src/Transaction/Sending.antt =====
-- `Session::write_body` and `Session::write` of a message.
use proxy_verifier.Base.{
  ℕ, ◌+◌, Bytes, Bool, not, ◌&&◌, ◌||◌, [], ◌∷◌, ◌++◌, Option, none, some, ltb, leb, ◌==◌, length,
  take, if◌then◌else◌,
}
use proxy_verifier.Chunk.Codex.{ChunkOps}
use proxy_verifier.Chunk.Transmit.{Writer, transmit}
use proxy_verifier.Message.Codec.{MessageOps, serialize}
use proxy_verifier.Message.Defs.{HttpHeader, status_no_content}
use proxy_verifier.Session.Errata.{Errata, Rv, diag, error}
use proxy_verifier.Session.Run.{Run, returned, blocked, unfinished, aborted, out_of_bounds}
use proxy_verifier.Session.Socket.{Session, close, write}

-- `MAX_HDR_SIZE`
abbrev pub max_hdr_size : ℕ
max_hdr_size = 131072

-- What `transmit` writes to; `none` is a session whose system call has not come back.
abbrev pub session_writer : Writer (Option Session)
session_writer = record {
  write = λ s view. elim s [
    | none ↦ (none, 0)
    | some s' ↦ (elim (write s' view) [
      | none ↦ (none, 0)
      | some ((n, errata), s'') ↦ (some s'', n)
    ])
  ];
}

-- `hdr._status && !STATUS_NO_CONTENT[hdr._status]`
abbrev pub status_permits : HttpHeader → Bool
status_permits h = not (h.status == 0) && not (status_no_content h.status)

-- The data of the message, or else the generated content.
abbrev pub data_of : Bytes → HttpHeader → Bytes
data_of generated h = elim h.content_data [ none ↦ generated | some text ↦ text ]

-- The view of the body lies in its data; nothing in the code sees to that.
abbrev pub is_inside : Bytes → HttpHeader → Bool
is_inside generated h = leb h.content_size (length (data_of generated h))

-- The body, where its view lies in the data.
abbrev pub content_of : Bytes → HttpHeader → Bytes
content_of generated h = take h.content_size (data_of generated h)

-- Behind a body: the number of bytes is one of the two sizes, or there is an error.
unfoldable pub body_written : HttpHeader → ℕ → Errata → Session → Rv ℕ × Session
body_written h n errata s = (
  (
    n,
    if n == h.content_size || n == h.recorded_content_size then errata else errata ++ (error ∷ []),
  ),
  s,
)

-- Neither the length nor the coding tells where the body ends.
abbrev pub is_open_ended : HttpHeader → Bool
is_open_ended h = not h.content_length_p && not h.has_transfer_encoding_chunked

-- Behind the header.
abbrev pub with_header : ℕ → Errata → Run (Rv ℕ × Session) → Run (Rv (Option ℕ) × Session)
with_header n errata (returned ((m, more), s)) = returned ((some (n + m), errata ++ more), s)
with_header n errata blocked = blocked
with_header n errata unfinished = unfinished
with_header n errata aborted = aborted
with_header n errata out_of_bounds = out_of_bounds

module _ (chunk_ops : ChunkOps) (generated : Bytes) where
  unfoldable pub write_chunked : ℕ → HttpHeader → Session → Run (Rv ℕ × Session)
  unfolding transmit write body_written
  write_chunked fuel h s =
      elim (transmit chunk_ops session_writer fuel (some s) (content_of generated h) 4096 0)
        as (λ o. Run (Rv ℕ × Session)) [
          | none ↦ unfinished
          | some (none, total, failed) ↦ blocked
          | some (some s', total, failed) ↦ returned (body_written h total (diag ∷ []) s')
        ]

  unfoldable pub write_plain : HttpHeader → Session → Run (Rv ℕ × Session)
  unfolding write close body_written
  write_plain h s = elim (write s (content_of generated h)) as (λ o. Run (Rv ℕ × Session)) [
    | none ↦ blocked
    | some ((n, errata), s') ↦
        if is_open_ended h
        then returned (body_written h n (diag ∷ errata ++ (diag ∷ [])) (close s'))
        else returned (body_written h n (diag ∷ errata) s')
  ]

  -- `Session::write_body`; a body whose view goes on behind its data is out of bounds.
  unfoldable pub write_body : ℕ → HttpHeader → Session → Run (Rv ℕ × Session)
  unfolding write_chunked write_plain close
  write_body fuel h s =
      if (h.is_request || status_permits h) && (ltb 0 h.content_size || h.chunked_p)
      then (if not (is_inside generated h)
          then out_of_bounds
          else if h.chunked_p
          then write_chunked fuel h s
          else write_plain h s)
      else if status_permits h && not h.chunked_p && not h.content_length_p
      then returned ((0, diag ∷ diag ∷ []), close s)
      else returned ((0, diag ∷ []), s)

  -- `Session::write` of a message; the buffer of the header keeps a front of it.
  unfoldable pub write_message :
      MessageOps → ℕ → HttpHeader → Session → Run (Rv (Option ℕ) × Session)
  unfolding serialize write write_body
  write_message ops fuel h s =
      let text = take max_hdr_size (serialize ops h) in
      elim (write s text) as (λ o. Run (Rv (Option ℕ) × Session)) [
        | none ↦ blocked
        | some ((n, errata), s') ↦
            if n == length text
            then with_header n errata (write_body fuel h s')
            else returned ((none, errata ++ (error ∷ [])), s')
      ]
