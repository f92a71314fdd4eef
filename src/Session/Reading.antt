-- ===== src/Session/Reading.antt =====
-- No byte is lost or invented between the socket and the callers of `read`.
use proxy_verifier.Base.{
  ℕ, ◌≤◌, Bytes, Bool, true, false, List, [], ◌∷◌, ◌++◌, Option, none, some, ◌≡◌, ◌≢◌, refl, sym,
  ap, ◌∙◌, inl, inr, Bool-cases, append_assoc, length, take, drop, length-take, take-append-drop,
  arith, is_empty, All, if◌then◌else◌,
}
use proxy_verifier.Session.Errata.{Rv, error}
use proxy_verifier.Session.Socket.{
  ReadOutcome, bytes, end_of_file, would_block, connection_reset, read_failed, PollOutcome, ready,
  timed_out, poll_failed, Session, close, Received, put_back, read_loop, read,
}

-- The bytes that `read` can still give.
abbrev pub pending : List ReadOutcome → Bytes
pending [] = []
pending (bytes view ∷ rest) = view ++ pending rest
pending (end_of_file ∷ rest) = pending rest
pending (would_block ∷ rest) = pending rest
pending (connection_reset ∷ rest) = pending rest
pending (read_failed ∷ rest) = pending rest

abbrev pub bytes_read : Received → Bytes
bytes_read none = []
bytes_read (some view) = view

pending-put_back :
    (view : Bytes) (rest : List ReadOutcome) → pending (put_back view rest) ≡ view ++ pending rest
pending-put_back [] rest = refl
pending-put_back (c ∷ cs) rest = refl

-- What a call of `read` with room for so many bytes has done, if it came back.
pub record Reads (s : Session) (size : ℕ) (out : Received) (s' : Session) : Type 0 where
  pub in_order : pending s.reads ≡ bytes_read out ++ pending s'.reads
  pub fits : length (bytes_read out) ≤ size
  pub empty_closes : out ≡ some [] → s'.is_open ≡ false
  pub keeps_sent : s'.sent ≡ s.sent

abbrev pub ReadsSome : Session → ℕ → Option (Rv Received × Session) → Type 0
ReadsSome s size none = Unit
ReadsSome s size (some ((out, errata), s')) = Reads s size out s'

-- The bytes of a span, taken from those that wait.
Reads-bytes :
    (view taken : Bytes) (rest : List ReadOutcome) (ps : List PollOutcome) (s : Session) (size : ℕ)
    → pending s.reads ≡ view ++ pending rest
    → take size view ≡ taken
    → (let s' : Session = record s { reads = put_back (drop size view) rest; polls = ps } in
        ReadsSome s size
          (if is_empty taken then some ((some [], []), close s') else some ((some taken, []), s')))
unfolding close
Reads-bytes view [] rest ps s size e t =
    let all : drop size view ≡ view =
      ap (λ front. front ++ drop size view) (sym t) ∙ take-append-drop size view in
    record {
      in_order = e ∙ sym (pending-put_back (drop size view) rest ∙ ap (λ v. v ++ pending rest) all);
      fits = omega arith;
      empty_closes = λ h. refl;
      keeps_sent = refl;
    }
Reads-bytes view (c ∷ cs) rest ps s size e t = record {
  in_order =
      e
      ∙ ap (λ v. v ++ pending rest) (sym (take-append-drop size view))
      ∙ append_assoc (take size view) (drop size view) (pending rest)
      ∙ ap (λ v. v ++ (drop size view ++ pending rest)) t
      ∙ ap (λ v. (c ∷ cs) ++ v) (sym (pending-put_back (drop size view) rest));
  fits = omega (arith, length-take size view, ap length t);
  empty_closes = λ h. cc;
  keeps_sent = refl;
}

read_loop-Reads :
    (rs : List ReadOutcome) (ps : List PollOutcome) (s : Session) (size : ℕ)
    → pending s.reads ≡ pending rs
    → ReadsSome s size (read_loop rs ps s size)
unfolding read_loop
read_loop-Reads [] ps s size e = tt
read_loop-Reads (bytes view ∷ rest) ps s size e =
    Reads-bytes view (take size view) rest ps s size e refl
read_loop-Reads (end_of_file ∷ rest) ps s size e = ground arith
read_loop-Reads (would_block ∷ rest) [] s size e = tt
read_loop-Reads (would_block ∷ rest) (ready ∷ ps) s size e = read_loop-Reads rest ps s size e
read_loop-Reads (would_block ∷ rest) (timed_out ∷ ps) s size e = ground arith
read_loop-Reads (would_block ∷ rest) (poll_failed ∷ ps) s size e = ground arith
read_loop-Reads (connection_reset ∷ rest) ps s size e = ground arith
read_loop-Reads (read_failed ∷ rest) ps s size e = ground arith

-- Every call of `read` that comes back hands over the bytes of the socket in order and without a
-- gap, at most as many as there is room for; no bytes without an error code means a closed session.
pub read-Reads : (s : Session) (size : ℕ) → ReadsSome s size (read s size)
unfolding read
read-Reads s size = by_test s.is_open
  where
    by_test :
        (b : Bool)
        → ReadsSome s size
            (if b then read_loop s.reads s.polls s size else some ((none, error ∷ []), s))
    by_test true = read_loop-Reads s.reads s.polls s size refl
    by_test false = record {
      in_order = refl;
      fits = omega arith;
      empty_closes = λ h. ground (arith, h);
      keeps_sent = refl;
    }

-- No call of `poll` fails.
abbrev pub PollsWell : Session → Type 0
PollsWell s = All (λ p. p ≢ poll_failed) s.polls

abbrev pub WellRead : Option (Rv Received × Session) → Type 0
WellRead none = Unit
WellRead (some ((out, errata), s')) = (out ≡ none → s'.is_open ≡ false) × PollsWell s'

read_loop-WellRead :
    (rs : List ReadOutcome) (ps : List PollOutcome) (s : Session) (size : ℕ)
    → All (λ p. p ≢ poll_failed) ps
    → WellRead (read_loop rs ps s size)
unfolding read_loop close
read_loop-WellRead [] ps s size h = tt
read_loop-WellRead (bytes view ∷ rest) ps s size h = elim (Bool-cases (is_empty (take size view))) [
  | inl e ↦ rw e (λ none_read. refl, h)
  | inr e ↦ rw e (λ none_read. ground (arith, none_read), h)
]
read_loop-WellRead (end_of_file ∷ rest) ps s size h = (λ e. refl, h)
read_loop-WellRead (would_block ∷ rest) [] s size h = tt
read_loop-WellRead (would_block ∷ rest) (ready ∷ ps) s size h =
    read_loop-WellRead rest ps s size h.1
read_loop-WellRead (would_block ∷ rest) (timed_out ∷ ps) s size h = (λ e. refl, h.1)
read_loop-WellRead (would_block ∷ rest) (poll_failed ∷ ps) s size h = absurd (h.0 refl)
read_loop-WellRead (connection_reset ∷ rest) ps s size h = (λ e. refl, h)
read_loop-WellRead (read_failed ∷ rest) ps s size h = (λ e. refl, h)

pub read-WellRead : (s : Session) (size : ℕ) → PollsWell s → WellRead (read s size)
unfolding read
read-WellRead s size h = by_test s.is_open refl
  where
    by_test :
        (b : Bool)
        → s.is_open ≡ b
        → WellRead (if b then read_loop s.reads s.polls s size else some ((none, error ∷ []), s))
    by_test true e = read_loop-WellRead s.reads s.polls s size h
    by_test false e = (λ none_read. e, h)
