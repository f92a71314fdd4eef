-- ===== src/Session/Socket.antt =====
-- `Session::read` and `Session::write` over a socket. What the system calls will give is a list of
-- outcomes for each of `read`, `poll` and `write`, in order; a list at its end is a call that has
-- not come back, and then the operation has no result.
use proxy_verifier.Base.{
  ℕ, ◌+◌, Bytes, Bool, false, List, [], ◌∷◌, ◌++◌, Option, none, some, min, ◌==◌, length, take,
  drop, is_empty, if◌then◌else◌,
}
use proxy_verifier.Session.Errata.{Rv, diag, error}

-- `::read`: bytes that wait at the socket, the end of the file, or an `errno`.
pub data ReadOutcome : Type 0 where
  bytes : Bytes → ReadOutcome
  end_of_file would_block connection_reset read_failed : ReadOutcome

-- `::poll`: positive, zero, negative.
pub data PollOutcome : Type 0 where
  ready timed_out poll_failed : PollOutcome

-- `::write`: as many bytes as the socket accepts, or an `errno`.
pub data WriteOutcome : Type 0 where
  accepts : ℕ → WriteOutcome
  write_would_block write_failed : WriteOutcome

-- The descriptor, open or not, `_body_offset`, what the calls will give, and what was sent.
pub record Session : Type 0 where
  pub is_open : Bool
  pub body_offset : ℕ
  pub reads : List ReadOutcome
  pub polls : List PollOutcome
  pub writes : List WriteOutcome
  pub sent : Bytes

-- `Session::close`
unfoldable pub close : Session → Session
close s = record s { is_open = false }

-- What `read` puts into its span; `none` is -1.
abbrev pub Received : Type 0
Received = Option Bytes

-- A call of `read` with room for `size` bytes takes the first of them.
abbrev pub put_back : Bytes → List ReadOutcome → List ReadOutcome
put_back [] rest = rest
put_back (c ∷ cs) rest = bytes (c ∷ cs) ∷ rest

-- `Session::read` on an open descriptor.
unfoldable pub read_loop :
    List ReadOutcome → List PollOutcome → Session → ℕ → Option (Rv Received × Session)
unfolding close
read_loop [] polls s size = none
read_loop (bytes view ∷ rest) polls s size =
    let s' = record s { reads = put_back (drop size view) rest; polls = polls } in
    if is_empty (take size view)
    then some ((some [], []), close s')
    else some ((some (take size view), []), s')
read_loop (end_of_file ∷ rest) polls s size =
    some ((some [], []), close (record s { reads = rest; polls = polls }))
read_loop (would_block ∷ rest) [] s size = none
read_loop (would_block ∷ rest) (ready ∷ polls) s size = read_loop rest polls s size
read_loop (would_block ∷ rest) (timed_out ∷ polls) s size =
    some ((none, error ∷ []), close (record s { reads = rest; polls = polls }))
read_loop (would_block ∷ rest) (poll_failed ∷ polls) s size =
    some ((none, diag ∷ []), record s { reads = rest; polls = polls })
read_loop (connection_reset ∷ rest) polls s size =
    some ((none, diag ∷ []), close (record s { reads = rest; polls = polls }))
read_loop (read_failed ∷ rest) polls s size =
    some ((none, error ∷ []), close (record s { reads = rest; polls = polls }))

-- A closed descriptor is -1, on which the system call fails.
unfoldable pub read : Session → ℕ → Option (Rv Received × Session)
unfolding read_loop
read s size = if s.is_open then read_loop s.reads s.polls s size else some ((none, error ∷ []), s)

-- The loop of `Session::write`, with the number of bytes written so far.
unfoldable pub write_loop :
    List WriteOutcome → List PollOutcome → Session → Bytes → ℕ → Option (Rv ℕ × Session)
write_loop ws ps s [] n = some ((n, []), record s { writes = ws; polls = ps })
write_loop [] ps s (c ∷ cs) n = none
write_loop (accepts m ∷ ws) ps s (c ∷ cs) n =
    let k = min m (length (c ∷ cs)) in
    let onward =
      write_loop ws ps (record s { sent = s.sent ++ take k (c ∷ cs) }) (drop k (c ∷ cs)) (n + k) in
    if k == 0 then some ((n, error ∷ []), record s { writes = ws; polls = ps }) else onward
write_loop (write_would_block ∷ ws) [] s (c ∷ cs) n = none
write_loop (write_would_block ∷ ws) (ready ∷ ps) s (c ∷ cs) n = write_loop ws ps s (c ∷ cs) n
write_loop (write_would_block ∷ ws) (timed_out ∷ ps) s (c ∷ cs) n =
    some ((n, error ∷ []), record s { writes = ws; polls = ps })
write_loop (write_would_block ∷ ws) (poll_failed ∷ ps) s (c ∷ cs) n =
    some ((n, diag ∷ []), record s { writes = ws; polls = ps })
write_loop (write_failed ∷ ws) ps s (c ∷ cs) n =
    some ((n, error ∷ []), record s { writes = ws; polls = ps })

-- Nothing in the loop closes the session, so its test counts where there is something to write.
unfoldable pub write : Session → Bytes → Option (Rv ℕ × Session)
unfolding write_loop
write s view =
    if s.is_open
    then write_loop s.writes s.polls s view 0
    else if is_empty view
    then some ((0, []), s)
    else some ((0, diag ∷ []), s)
