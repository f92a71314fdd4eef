-- ===== src/Session/Writing.antt =====
-- What `write` sends, and that it comes back.
use proxy_verifier.Base.{
  ℕ, suc, ◌+◌, ◌≤◌, ◌<◌, Bytes, Bool, true, false, List, [], ◌∷◌, ◌++◌, Option, none, some, min,
  ◌==◌, ◌≡◌, ◌≢◌, refl, sym, ap, subst, ◌∙◌, inl, inr, Bool-cases, append-nil, append_assoc, length,
  take, drop, length-drop, take-take-drop, ◌-◌, arith, is_empty, if◌then◌else◌,
}
use proxy_verifier.Session.Errata.{Errata, Rv, diag, error}
use proxy_verifier.Session.Socket.{
  PollOutcome, ready, timed_out, poll_failed, WriteOutcome, accepts, write_would_block,
  write_failed, Session, write_loop, write,
}

-- What a call of `write` has done, if it came back.
pub record Writes (s : Session) (view : Bytes) (n : ℕ) (errata : Errata) (s' : Session)
    : Type 0 where
  pub at_most : n ≤ length view
  pub sent_front : s'.sent ≡ s.sent ++ take n view
  pub complete_iff : (errata ≡ [] → n ≡ length view) × (n ≡ length view → errata ≡ [])
  pub keeps_open : s'.is_open ≡ s.is_open
  pub keeps_reads : s'.reads ≡ s.reads

-- The same of the loop, from `n` bytes on.
record WritesOn (s : Session) (view : Bytes) (n m : ℕ) (errata : Errata) (s' : Session)
    : Type 0 where
  more : ℕ
  counted : m ≡ n + more
  writes : Writes s view more errata s'

abbrev WritesOnSome : Session → Bytes → ℕ → Option (Rv ℕ × Session) → Type 0
WritesOnSome s view n none = Unit
WritesOnSome s view n (some ((m, errata), s')) = WritesOn s view n m errata s'

-- The session behind the loop, which keeps what it has not used of the outcomes.
abbrev left_over : Session → List WriteOutcome → List PollOutcome → Session
left_over s ws ps = record s { writes = ws; polls = ps }

-- The loop stops with bytes left.
stops :
    (s : Session) (c : ℕ) (cs : Bytes) (n : ℕ) (errata : Errata) (ws : List WriteOutcome)
    (ps : List PollOutcome)
    → errata ≢ []
    → WritesOn s (c ∷ cs) n n errata (left_over s ws ps)
stops s c cs n errata ws ps ne = record {
  more = 0;
  counted = omega arith;
  writes = record {
    at_most = omega arith;
    sent_front = sym (append-nil s.sent);
    complete_iff = (λ e. absurd (ne e), λ e. absurd (omega (arith, e)));
    keeps_open = refl;
    keeps_reads = refl;
  };
}

-- Some bytes are accepted, and the loop goes on behind them.
WritesOn-accepts :
    (s : Session) (view : Bytes) (n k : ℕ) (r : Option (Rv ℕ × Session))
    → k ≤ length view
    → WritesOnSome (record s { sent = s.sent ++ take k view }) (drop k view) (n + k) r
    → WritesOnSome s view n r
WritesOn-accepts s view n k none fits h = tt
WritesOn-accepts s view n k (some ((m, errata), s')) fits h =
    let w = h.writes in
    let long : length (drop k view) ≡ length view - k = length-drop k view in
    record {
      more = k + h.more;
      counted = omega (arith, h.counted);
      writes = record {
        at_most = omega (arith, w.at_most, long);
        sent_front =
            w.sent_front
            ∙ append_assoc s.sent (take k view) _
            ∙ ap (λ v. s.sent ++ v) (take-take-drop k h.more view);
        complete_iff = (
          λ e. omega (arith, w.complete_iff.0 e, long, fits),
          λ e. w.complete_iff.1 (omega (arith, e, long)),
        );
        keeps_open = w.keeps_open;
        keeps_reads = w.keeps_reads;
      };
    }

write_loop-Writes :
    (ws : List WriteOutcome) (ps : List PollOutcome) (s : Session) (view : Bytes) (n : ℕ)
    → WritesOnSome s view n (write_loop ws ps s view n)
unfolding write_loop
write_loop-Writes ws ps s [] n = record {
  more = 0;
  counted = omega arith;
  writes = record {
    at_most = omega arith;
    sent_front = sym (append-nil s.sent);
    complete_iff = (λ e. refl, λ e. refl);
    keeps_open = refl;
    keeps_reads = refl;
  };
}
write_loop-Writes [] ps s (c ∷ cs) n = tt
write_loop-Writes (accepts m ∷ ws) ps s (c ∷ cs) n =
    let k = min m (length (c ∷ cs)) in
    elim (Bool-cases (k == 0)) [
      | inl z ↦ rw z (stops s c cs n (error ∷ []) ws ps (λ e. ground (arith, e)))
      | inr z ↦ rw z (
          WritesOn-accepts s (c ∷ cs) n k _ (omega arith)
            (write_loop-Writes ws ps _ (drop k (c ∷ cs)) (n + k)))
    ]
write_loop-Writes (write_would_block ∷ ws) [] s (c ∷ cs) n = tt
write_loop-Writes (write_would_block ∷ ws) (ready ∷ ps) s (c ∷ cs) n =
    write_loop-Writes ws ps s (c ∷ cs) n
write_loop-Writes (write_would_block ∷ ws) (timed_out ∷ ps) s (c ∷ cs) n =
    stops s c cs n (error ∷ []) ws ps (λ e. ground (arith, e))
write_loop-Writes (write_would_block ∷ ws) (poll_failed ∷ ps) s (c ∷ cs) n =
    stops s c cs n (diag ∷ []) ws ps (λ e. ground (arith, e))
write_loop-Writes (write_failed ∷ ws) ps s (c ∷ cs) n =
    stops s c cs n (error ∷ []) ws ps (λ e. ground (arith, e))

abbrev pub WritesSome : Session → Bytes → Option (Rv ℕ × Session) → Type 0
WritesSome s view none = Unit
WritesSome s view (some ((n, errata), s')) = Writes s view n errata s'

-- A call of `write` that comes back has sent the first bytes of the text, as many as it returns, and
-- has a message exactly if that is not all of it; it neither closes the session nor reads from it.
pub write-Writes : (s : Session) (view : Bytes) → WritesSome s view (write s view)
unfolding write
write-Writes s view = by_test s.is_open
  where
    whole : (r : Option (Rv ℕ × Session)) → WritesOnSome s view 0 r → WritesSome s view r
    whole none h = tt
    whole (some ((m, errata), s')) h =
        subst (λ n. Writes s view n errata s') (omega (arith, h.counted)) h.writes

    closed :
        (v : Bytes)
        → WritesSome s v (if is_empty v then some ((0, []), s) else some ((0, diag ∷ []), s))
    closed [] = record {
      at_most = omega arith;
      sent_front = sym (append-nil s.sent);
      complete_iff = (λ e. refl, λ e. refl);
      keeps_open = refl;
      keeps_reads = refl;
    }
    closed (c ∷ cs) = record {
      at_most = omega arith;
      sent_front = sym (append-nil s.sent);
      complete_iff = (λ e. ground (arith, e), λ e. absurd (omega (arith, e)));
      keeps_open = refl;
      keeps_reads = refl;
    }

    by_test :
        (b : Bool)
        → WritesSome s view (
            if b
            then write_loop s.writes s.polls s view 0
            else if is_empty view
            then some ((0, []), s)
            else some ((0, diag ∷ []), s))
    by_test true = whole _ (write_loop-Writes s.writes s.polls s view 0)
    by_test false = closed view

-- The outcomes that are more than a call to poll again.
abbrev pub answers : List WriteOutcome → ℕ
answers [] = 0
answers (accepts m ∷ ws) = suc (answers ws)
answers (write_would_block ∷ ws) = answers ws
answers (write_failed ∷ ws) = suc (answers ws)

abbrev Returns : {A : Type 0} → Option A → Type 0
Returns {A} o = (r : A) × (o ≡ some r)

write_loop-Returns :
    (ws : List WriteOutcome) (ps : List PollOutcome) (s : Session) (view : Bytes) (n : ℕ)
    → length view ≤ answers ws
    → length ws ≤ length ps
    → Returns (write_loop ws ps s view n)
unfolding write_loop
write_loop-Returns ws ps s [] n enough polls = (_, refl)
write_loop-Returns [] ps s (c ∷ cs) n enough polls = absurd (omega (arith, enough))
write_loop-Returns (accepts m ∷ ws) ps s (c ∷ cs) n enough polls =
    let k = min m (length (c ∷ cs)) in
    elim (Bool-cases (k == 0)) [
      | inl z ↦ rw z (_, refl)
      | inr z ↦
          let further : 0 < k = ground arith in
          rw z (
            write_loop-Returns ws ps _ (drop k (c ∷ cs)) (n + k)
              (omega (arith, length-drop k (c ∷ cs))) (omega arith))
    ]
write_loop-Returns (write_would_block ∷ ws) [] s (c ∷ cs) n enough polls =
    absurd (omega (arith, polls))
write_loop-Returns (write_would_block ∷ ws) (ready ∷ ps) s (c ∷ cs) n enough polls =
    write_loop-Returns ws ps s (c ∷ cs) n enough (omega arith)
write_loop-Returns (write_would_block ∷ ws) (timed_out ∷ ps) s (c ∷ cs) n enough polls = (_, refl)
write_loop-Returns (write_would_block ∷ ws) (poll_failed ∷ ps) s (c ∷ cs) n enough polls = (_, refl)
write_loop-Returns (write_failed ∷ ws) ps s (c ∷ cs) n enough polls = (_, refl)

-- If the socket gives an answer for each byte of the text, and `poll` comes back each time, then
-- `write` comes back.
pub write-Returns :
    (s : Session) (view : Bytes)
    → length view ≤ answers s.writes
    → length s.writes ≤ length s.polls
    → (r : Rv ℕ × Session) × (write s view ≡ some r)
unfolding write
write-Returns s view enough polls = by_test s.is_open
  where
    closed :
        (v : Bytes)
        → Returns {A = Rv ℕ × Session}
            (if is_empty v then some ((0, []), s) else some ((0, diag ∷ []), s))
    closed [] = (_, refl)
    closed (c ∷ cs) = (_, refl)

    by_test :
        (b : Bool)
        → Returns (
            if b
            then write_loop s.writes s.polls s view 0
            else if is_empty view
            then some ((0, []), s)
            else some ((0, diag ∷ []), s))
    by_test true = write_loop-Returns s.writes s.polls s view 0 enough polls
    by_test false = closed view
