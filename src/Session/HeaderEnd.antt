-- ===== src/Session/HeaderEnd.antt =====
-- `read_headers` finds the end of the first header of the stream.
use proxy_verifier.Base.{
  ℕ, zero, suc, ◌+◌, ◌-◌, ◌≤◌, Bytes, Bool, true, false, ◌&&◌, [], ◌∷◌, ◌++◌, Option, none, some,
  ltb, ◌==◌, ◌≡◌, ◌≢◌, ◌⊎◌, refl, sym, ap, subst, ◌∙◌, inl, inr, Bool-cases, append_assoc, length,
  length-append, drop, arith, if◌then◌else◌,
}
use proxy_verifier.Rules.Search.{find_text, matches_front, same_byte, shifted}
use proxy_verifier.Session.Errata.{Rv, is_ok}
use proxy_verifier.Session.Headers.{
  http_eoh, HeadersRead, search_start, commit, exceeded, closed_at, after_read, read_headers,
}
use proxy_verifier.Session.Reading.{
  pending, Reads, ReadsSome, read-Reads, PollsWell, WellRead, read-WellRead,
}
use proxy_verifier.Session.Run.{Run, returned, blocked, unfinished, aborted, out_of_bounds}
use proxy_verifier.Session.Socket.{Session, Received, read}
use proxy_verifier.Url.Find.{further}

-- A front that is long enough decides.
matches_front-append :
    (text view more : Bytes)
    → length text ≤ length view
    → matches_front same_byte text (view ++ more) ≡ matches_front same_byte text view
unfolding matches_front
matches_front-append [] view more h = refl
matches_front-append (t ∷ text) [] more h = absurd (omega (arith, h))
matches_front-append (t ∷ text) (v ∷ view) more h =
    ap (λ b. (v == t) && b) (matches_front-append text view more (omega (arith, h)))

shifted-further : (k : ℕ) (o : Option ℕ) → shifted (further k o) ≡ further (suc k) o
shifted-further k none = refl
shifted-further k (some i) = ap some (omega arith)

further_zero : (o : Option ℕ) → o ≡ further 0 o
further_zero none = refl
further_zero (some i) = ap some (omega arith)

-- The search goes on where nothing stands in front.
find_text-skip :
    (text view more : Bytes) (v k : ℕ)
    → length text ≤ length view
    → find_text (v ∷ view) text ≡ none
    → (find_text view text ≡ none
        → find_text (view ++ more) text ≡ further k (find_text (drop k (view ++ more)) text))
    → find_text (v ∷ (view ++ more)) text ≡ further (suc k) (find_text (drop k (view ++ more)) text)
unfolding find_text
find_text-skip text view more v k fits e later =
    elim (Bool-cases (matches_front same_byte text (v ∷ view))) [
      | inl here ↦ absurd (found_here here)
      | inr other ↦
          rw (matches_front-append text (v ∷ view) more (omega arith), other)
            (ap shifted (later (rest_none other)) ∙ shifted-further k _)
    ]
  where
    found_here : matches_front same_byte text (v ∷ view) ≡ true → ⊥
    found_here here = ground (arith, e)

    rest_none : matches_front same_byte text (v ∷ view) ≡ false → find_text view text ≡ none
    rest_none other = ground (arith, e)

-- A text with no occurrence is passed over, but for its last bytes.
find_text-append_none :
    (text view more : Bytes)
    → find_text view text ≡ none
    → find_text (view ++ more) text
      ≡ further
          (length view - length text)
          (find_text (drop (length view - length text) (view ++ more)) text)
find_text-append_none text [] more e =
    let start : 0 - length text ≡ 0 = omega arith in rw start (further_zero (find_text more text))
find_text-append_none text (v ∷ view) more e = elim (Bool-cases (ltb (length view) (length text))) [
  | inl short ↦
      let start : suc (length view) - length text ≡ 0 = ground arith in rw start (further_zero _)
  | inr long ↦
      let fits : length text ≤ length view = ground arith in
      let start : suc (length view) - length text ≡ suc (length view - length text) = omega arith in
      rw start (
        find_text-skip text view more v (length view - length text) fits e
          (find_text-append_none text view more))
]

search_start_lem : (w : Bytes) → search_start w ≡ length w - length http_eoh
search_start_lem w = ground arith

-- The end of the first header of a stream, in what was read of it.
pub record EndFound (stream : Bytes) (n : ℕ) (s : Session) (w : Bytes) : Type 0 where
  pub in_order : stream ≡ w ++ pending s.reads
  pub position : ℕ
  pub first_end : find_text w http_eoh ≡ some position
  pub behind_end : n ≡ position + 4

abbrev pub HeadersDone : Bytes → Run HeadersRead → Type 0
HeadersDone stream blocked = Unit
HeadersDone stream unfinished = ⊥
HeadersDone stream aborted = ⊥
HeadersDone stream out_of_bounds = ⊥
HeadersDone stream (returned ((some n, errata), s, w)) =
    (errata ≡ []) × (((n ≡ 0) × (w ≡ []) × (s.is_open ≡ false)) ⊎ EndFound stream n s w)
HeadersDone stream (returned ((none, errata), s, w)) =
    (is_ok errata ≡ false) × (find_text w http_eoh ≡ none)

module _ (capacity : ℕ) (commit_error : Bytes → Bytes) where
  closed_at-HeadersDone :
      (stream w : Bytes) (s : Session)
      → find_text w http_eoh ≡ none
      → s.is_open ≡ false
      → HeadersDone stream (returned (closed_at w s))
  unfolding closed_at exceeded
  closed_at-HeadersDone stream [] s nothing shut = (refl, inl (refl, refl, shut))
  closed_at-HeadersDone stream (c ∷ cs) s nothing shut = (refl, nothing)

  -- The search behind a call of `read` that gave some bytes.
  searched :
      (stream w view : Bytes) (s : Session) (again : Session → Bytes → Run HeadersRead)
      (o : Option ℕ)
      → stream ≡ (w ++ view) ++ pending s.reads
      → find_text (w ++ view) http_eoh ≡ further (search_start w) o
      → (find_text (w ++ view) http_eoh ≡ none → HeadersDone stream (again s (w ++ view)))
      → HeadersDone stream (elim o as (λ o'. Run HeadersRead) [
        | some offset ↦ returned ((some (search_start w + offset + 4), []), s, w ++ view)
        | none ↦ again s (w ++ view)
      ])
  searched stream w view s again (some offset) order found on = (
    refl,
    inr (record {
      in_order = order;
      position = search_start w + offset;
      first_end = found;
      behind_end = refl;
    }),
  )
  searched stream w view s again none order found on = on found

  after_read-HeadersDone :
      (stream w : Bytes) (s : Session) (room : ℕ) (again : Session → Bytes → Run HeadersRead)
      (r : Option (Rv Received × Session))
      → find_text w http_eoh ≡ none
      → stream ≡ w ++ pending s.reads
      → ReadsSome s room r
      → WellRead r
      → ((s' : Session) (view : Bytes)
          → view ≢ []
          → PollsWell s'
          → find_text (w ++ view) http_eoh ≡ none
          → stream ≡ (w ++ view) ++ pending s'.reads
          → HeadersDone stream (again s' (w ++ view)))
      → HeadersDone stream (after_read capacity commit_error w again r)
  unfolding after_read
  after_read-HeadersDone stream w s room again none nothing order reads well on = tt
  after_read-HeadersDone stream w s room again (some ((out, errata), s')) nothing order reads well
        on =
      by_test out s'.is_open reads well refl
    where
      at : Bytes → Option ℕ → Run HeadersRead
      at w' o = elim o as (λ o'. Run HeadersRead) [
        | some offset ↦ returned ((some (search_start w + offset + 4), []), s', w')
        | none ↦ again s' w'
      ]

      by_test :
          (out' : Received) (b : Bool)
          → Reads s room out' s'
          → (out' ≡ none → s'.is_open ≡ false) × PollsWell s'
          → s'.is_open ≡ b
          → HeadersDone stream (
              if b
              then at
                  (commit commit_error w out')
                  (find_text (drop (search_start w) (commit commit_error w out')) http_eoh)
              else returned (closed_at w s'))
      by_test out' false reads' well' e = closed_at-HeadersDone stream w s' nothing e
      by_test none true reads' well' e = ground (arith, well'.0 refl)
      by_test (some view) true reads' well' e =
          let order' : stream ≡ (w ++ view) ++ pending s'.reads =
            order
            ∙ ap (λ v. w ++ v) reads'.in_order
            ∙ sym (append_assoc w view (pending s'.reads)) in
          let found : find_text (w ++ view) http_eoh
              ≡ further (search_start w) (find_text (drop (search_start w) (w ++ view)) http_eoh) =
            subst
              (λ k.
                find_text (w ++ view) http_eoh
                ≡ further k (find_text (drop k (w ++ view)) http_eoh))
              (sym (search_start_lem w)) (find_text-append_none http_eoh w view nothing) in
          searched stream w view s' again _ order' found (λ still.
            on s' view (λ empty. ground (arith, reads'.empty_closes (ap some empty))) well'.1 still
              order')

  read_headers-HeadersDone :
      (fuel : ℕ) (stream w : Bytes) (s : Session)
      → capacity ≤ length w + fuel
      → find_text w http_eoh ≡ none
      → stream ≡ w ++ pending s.reads
      → PollsWell s
      → HeadersDone stream (read_headers capacity commit_error fuel s w)
  unfolding read_headers exceeded
  read_headers-HeadersDone zero stream w s enough nothing order well =
      let full : ltb (length w) capacity ≡ false = ground arith in rw full (refl, nothing)
  read_headers-HeadersDone (suc fuel) stream w s enough nothing order well =
      elim (Bool-cases (ltb (length w) capacity)) [
        | inr full ↦ rw full (refl, nothing)
        | inl room ↦ rw room (
            after_read-HeadersDone stream w s (capacity - length w)
              (read_headers capacity commit_error fuel) (read s (capacity - length w)) nothing order
              (read-Reads s (capacity - length w)) (read-WellRead s (capacity - length w) well)
              (λ s' view ne well' still order'.
                read_headers-HeadersDone fuel stream (w ++ view) s' (longer view ne) still order'
                  well'))
      ]
    where
      longer : (view : Bytes) → view ≢ [] → capacity ≤ length (w ++ view) + fuel
      longer [] ne = absurd (ne refl)
      longer (c ∷ cs) ne = omega (arith, length-append w (c ∷ cs))

  -- On a socket whose calls of `poll` do not fail, `read_headers` from an empty buffer, with as many
  -- rounds as the buffer has bytes, does not reach that bound. A call that comes back with a number
  -- has no message, and it is the end of the first blank line of the stream, with the stream read in
  -- order, or 0 at a closed session from which nothing was read. Without a number there is an error,
  -- and no blank line in the buffer.
  pub read_headers_lem :
      (s : Session)
      → PollsWell s
      → HeadersDone (pending s.reads) (read_headers capacity commit_error capacity s [])
  unfolding find_text
  read_headers_lem s well =
      read_headers-HeadersDone capacity (pending s.reads) [] s (omega arith) refl refl well
