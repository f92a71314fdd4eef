-- ===== src/Drain/Body.antt =====
-- `Session::drain_body`. The stored bytes are only printed, so of `body` the model keeps the size.
use proxy_verifier.Base.{
  ℕ, zero, suc, ◌+◌, ◌-◌, ◌*◌, ◌%◌, ◌^◌, Bytes, Bool, true, false, not, ◌&&◌, [], ◌∷◌, ◌++◌, Option,
  none, some, min, ltb, leb, ◌==◌, length, drop, if◌then◌else◌,
}
use proxy_verifier.Chunk.Codex.{
  ChunkOps, Codex, new_codex, Result, continue, done, error, Parsed, parse,
}
use proxy_verifier.Chunk.Turns.{bytes_of, turns}
use proxy_verifier.Message.Defs.{
  HttpHeader, has_no_content, update_content_length, update_transfer_encoding,
}
use proxy_verifier.Session.Errata.{Errata, Rv, diag, Severity}
use proxy_verifier.Session.Reading.{bytes_read}
use proxy_verifier.Session.Run.{Run, returned, blocked, unfinished, aborted, out_of_bounds}
use proxy_verifier.Session.Socket.{Session, Received, read}
use proxy_verifier.Swoc.{TextOps}
use proxy_verifier.Url.Parse.{minus}

-- `MAX_DRAIN_BUFFER_SIZE`
abbrev pub max_drain_buffer_size : ℕ
max_drain_buffer_size = 1048576

-- The number of body bytes and the messages, with the session behind the call.
abbrev pub Drained : Type 0
Drained = Rv ℕ × Session

-- `note` of further messages.
abbrev pub with_notes : Errata → Run Drained → Run Drained
with_notes notes (returned ((n, errata), s)) = returned ((n, notes ++ errata), s)
with_notes notes blocked = blocked
with_notes notes unfinished = unfinished
with_notes notes aborted = aborted
with_notes notes out_of_bounds = out_of_bounds

-- Behind the loop for a body with a length.
unfoldable pub length_drained : ℕ → ℕ → Session → Drained
length_drained expected num s =
    ((num, if ltb expected num then Severity.error ∷ diag ∷ [] else diag ∷ []), s)

-- What follows a call of `read`: the loop again, or the end of a closed session.
unfoldable pub length_read :
    ℕ → ℕ → ℕ → (ℕ → ℕ → Session → Run Drained) → Option (Rv Received × Session) → Run Drained
unfolding length_drained
length_read expected num old_size again none = blocked
length_read expected num old_size again (some ((out, dropped), s)) =
    let n = length (bytes_read out) in
    let (rv, s') = length_drained expected (num + n) s in
    if s.is_open
    then again (num + n) (old_size + n) s
    else returned ((rv.0, Severity.error ∷ rv.1), s')

-- The loop for a body with a length, with a bound on its rounds; a span may begin behind the end of
-- its buffer.
unfoldable pub drain_length : ℕ → ℕ → ℕ → Session → ℕ → ℕ → Run Drained
unfolding length_drained length_read
drain_length zero expected buff s num stored =
    if ltb num expected then unfinished else returned (length_drained expected num s)
drain_length (suc fuel) expected buff s num stored =
    let full = leb buff stored in
    let old_size = if full then 0 else stored in
    let more =
      length_read expected num old_size
        (λ num' stored' s'. drain_length fuel expected buff s' num' stored')
        (read s (minus buff old_size)) in
    let kept = if ltb buff old_size then out_of_bounds else more in
    if ltb num expected
    then with_notes (if full then diag ∷ [] else []) kept
    else returned (length_drained expected num s)

-- Behind the loop for a chunked body.
unfoldable pub chunked_drained : ℕ → Result → ℕ → Session → Drained
chunked_drained expected done num s = ((num, diag ∷ []), s)
chunked_drained expected result num s =
    ((num, if num == expected then diag ∷ [] else Severity.error ∷ diag ∷ []), s)

-- The size of the buffer for the next call of `read`, and what it still holds.
unfoldable pub next_buffer : ℕ → ℕ → ℕ × ℕ
next_buffer buff stored =
    if leb buff stored
    then (if buff == max_drain_buffer_size
        then (buff, 0)
        else (min (buff * 2 % 2 ^ 64) max_drain_buffer_size, stored))
    else (buff, stored)

abbrev pub with_underrun : Bool → Drained → Drained
with_underrun true ((n, errata), s) = ((n, Severity.error ∷ errata), s)
with_underrun false d = d

-- The size that the buffer starts with.
abbrev pub buffer_size : Bool → ℕ → ℕ
buffer_size chunked expected =
    let size = if ltb max_drain_buffer_size expected then max_drain_buffer_size else expected in
    if chunked then size + 50 else size

-- A chunked body that is larger already than expected is taken to be twice as large.
abbrev pub expected_size : HttpHeader → ℕ → ℕ → ℕ
expected_size h expected size =
    if ltb expected size && h.chunked_p then size * 2 % 2 ^ 64 else expected

-- The messages before the loops.
abbrev pub truncated : ℕ → Errata
truncated expected = if ltb max_drain_buffer_size expected then diag ∷ [] else []

module _ (ops : ChunkOps) where
  -- `codex.parse`; a loop that has not ended does not end.
  abbrev pub parse_whole : Codex → Bytes → Option Parsed
  parse_whole k view = parse ops (turns k view) k view

  -- What `parse` gives for the bytes of a call of `read`; without bytes it is not called.
  abbrev pub parse_read : Codex → Bytes → Option Parsed
  parse_read k [] = some (continue, k, [])
  parse_read k (c ∷ cs) = parse_whole k (c ∷ cs)

  -- What follows a call of `parse`: the loop again, or the end of a closed session.
  unfoldable pub chunk_parsed :
      ℕ → ℕ → Session → (ℕ → Result → Codex → Run Drained) → Option Parsed → Run Drained
  unfolding chunked_drained
  chunk_parsed expected num s again none = unfinished
  chunk_parsed expected num s again (some (result, k, calls)) =
      let num' = num + length (bytes_of calls) in
      if s.is_open
      then again num' result k
      else returned (with_underrun (ltb num' expected) (chunked_drained expected result num' s))

  -- What follows a call of `read`.
  unfoldable pub chunk_read :
      ℕ
      → ℕ
      → ℕ
      → Codex
      → (ℕ → ℕ → Result → Codex → Session → Run Drained)
      → Option (Rv Received × Session)
      → Run Drained
  unfolding chunk_parsed
  chunk_read expected num old_size k again none = blocked
  chunk_read expected num old_size k again (some ((out, dropped), s)) =
      chunk_parsed expected num s
        (λ num' result k'. again num' (old_size + length (bytes_read out)) result k' s)
        (parse_read k (bytes_read out))

  -- The loop for a chunked body, with a bound on its rounds. A span that begins behind the end of its
  -- buffer has a size that wraps.
  unfoldable pub drain_chunked : ℕ → ℕ → ℕ → Result → Codex → Session → ℕ → ℕ → Run Drained
  unfolding chunked_drained next_buffer chunk_read
  drain_chunked fuel expected buff done k s num stored =
      returned (chunked_drained expected done num s)
  drain_chunked fuel expected buff error k s num stored =
      returned (chunked_drained expected error num s)
  drain_chunked zero expected buff continue k s num stored = unfinished
  drain_chunked (suc fuel) expected buff continue k s num stored =
      let (buff', old_size) = next_buffer buff stored in
      let more =
        chunk_read expected num old_size k
          (λ num' stored' result k' s'. drain_chunked fuel expected buff' result k' s' num' stored')
          (read s (buff' - old_size)) in
      let notes : Errata =
        if leb buff stored && buff == max_drain_buffer_size then diag ∷ [] else [] in
      if ltb buff' old_size then out_of_bounds else with_notes notes more

  -- Behind the assertion.
  unfoldable pub drain_open : ℕ → HttpHeader → ℕ → Session → Bytes → Run Drained
  unfolding drain_length drain_chunked
  drain_open fuel h expected s initial =
      let buff = buffer_size h.chunked_p expected in
      let stored = length initial in
      let chunked : Run Drained = elim (parse_whole new_codex initial) as (λ p. Run Drained) [
        | none ↦ unfinished
        | some (result, k, calls) ↦
            drain_chunked fuel expected buff result k s (length (bytes_of calls)) stored
      ] in
      if not s.is_open
      then returned ((stored, Severity.error ∷ []), s)
      else if h.chunked_p
      then chunked
      else drain_length fuel expected buff s stored stored

  -- `Session::drain_body`
  unfoldable pub drain_body : ℕ → HttpHeader → ℕ → Session → Bytes → Run Drained
  drain_body fuel h expected s read_bytes =
      let initial = drop s.body_offset read_bytes in
      let size = length initial in
      let expected' = expected_size h expected size in
      if expected == size && not h.chunked_p
      then returned ((size, diag ∷ []), s)
      else if ltb expected size && not h.chunked_p
      then returned ((size, Severity.error ∷ []), s)
      else if has_no_content h
      then returned ((size, []), s)
      else if ltb size expected'
      then with_notes (truncated expected') (drain_open fuel h expected' s initial)
      else aborted

  -- `Session::drain_body_internal`: what is expected, from the fields of the message or from the
  -- response of the replay file.
  unfoldable pub drain_body_internal :
      TextOps → (Bytes → ℕ) → ℕ → HttpHeader → Bytes → ℕ → Session → Bytes → Run Drained
  unfolding drain_body
  drain_body_internal text_ops svtou fuel h method recorded_size s read_bytes =
      let h' =
        update_transfer_encoding text_ops svtou (update_content_length text_ops svtou h method) in
      drain_body fuel h' (if h'.content_length_p then h'.content_size else recorded_size) s
        read_bytes
