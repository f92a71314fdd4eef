-- ===== src/Tests/Chunk.antt =====
-- The chunked transfer coding on concrete bytes.
use native.Mathlib.Nat.{pow-suc}
use mathlib.Core.List.{flatten}
use proxy_verifier.Base.{
  ℕ, zero, suc, ◌+◌, ◌*◌, ◌/◌, ◌%◌, ◌^◌, ◌≤◌, ◌<◌, Bytes, true, false, List, [], ◌∷◌, ◌++◌, none,
  some, ltb, leb, ◌==◌, ◌≡◌, refl, ap, inl, inr, Bool-cases, All-append, codes, map, length,
  length-append, is_xdigit, arith, if◌then◌else◌,
}
use proxy_verifier.Chunk.Codex.{
  ChunkOps, ChunkLaws, IsHex, digit_value, hex_value_from, http_eol, size, lf, turn_in, read_size,
  end_size, body_turn, Codex, new_codex, continue, done, parse,
}
use proxy_verifier.Chunk.Machine.{run}
use proxy_verifier.Chunk.Refines.{parse-run, parse_stuck}
use proxy_verifier.Chunk.RoundTrip.{final_codex, transmit-parse_all}
use proxy_verifier.Chunk.Segments.{parse_all, parse_all-flatten}
use proxy_verifier.Chunk.Transmit.{Writer, IsReliable, transmit}
use proxy_verifier.Chunk.Turns.{forget, turns}

abbrev hex_digit : ℕ → ℕ
hex_digit d = if leb d 9 then b'0' + d else 87 + d

unfoldable pub hex_digits : ℕ → ℕ → Bytes
hex_digits zero n = []
hex_digits (suc fuel) n =
    let front = hex_digits fuel (n / 16) in
    (if n / 16 == 0 then [] else front) ++ (hex_digit (n % 16) ∷ [])

abbrev pub chunk_ops : ChunkOps
chunk_ops = record {
  write_size = λ text c. if ltb (length text) 16 then text ++ (c ∷ []) else text;
  svtou = hex_value_from 0;
  size_line = λ n. hex_digits 8 n ++ http_eol;
}

digit_value-hex_digit : (d : ℕ) → d < 16 → digit_value (hex_digit d) ≡ d
unfolding digit_value
digit_value-hex_digit d small = ground arith

is_xdigit-hex_digit : (d : ℕ) → d < 16 → is_xdigit (hex_digit d) ≡ true
unfolding is_xdigit
is_xdigit-hex_digit d small = ground arith

hex_value_from-append :
    (acc : ℕ) (text : Bytes) (c : ℕ)
    → hex_value_from acc (text ++ (c ∷ [])) ≡ 16 * hex_value_from acc text + digit_value c
unfolding hex_value_from
hex_value_from-append acc [] c = refl
hex_value_from-append acc (d ∷ text) c = hex_value_from-append (16 * acc + digit_value d) text c

-- The digits of a number, at most so many.
record Digits (fuel n : ℕ) (digits : Bytes) : Type 0 where
  hex : IsHex digits
  at_most : length digits ≤ fuel
  value : hex_value_from 0 digits ≡ n

Digits-append :
    (fuel n : ℕ) (front : Bytes)
    → Digits fuel (n / 16) front
    → Digits (suc fuel) n (front ++ (hex_digit (n % 16) ∷ []))
Digits-append fuel n front d =
    let last = hex_digit (n % 16) in
    let small : n % 16 < 16 = omega arith in
    record {
      hex = All-append _ front (last ∷ []) d.hex (is_xdigit-hex_digit (n % 16) small, tt);
      at_most = omega (arith, length-append front (last ∷ []), d.at_most);
      value = omega (
        arith,
        hex_value_from-append 0 front last,
        d.value,
        digit_value-hex_digit (n % 16) small,
      );
    }

hex_digits-Digits : (fuel n : ℕ) → n < 16 ^ fuel → Digits fuel n (hex_digits fuel n)
unfolding hex_digits hex_value_from
hex_digits-Digits zero n small = record {
  hex = tt;
  at_most = omega arith;
  value = omega (arith, small);
}
hex_digits-Digits (suc fuel) n small = elim (Bool-cases (n / 16 == 0)) [
  | inl z ↦
      rw z
        (Digits-append fuel n [] (record { hex = tt; at_most = omega arith; value = ground arith }))
  | inr z ↦ rw z (
      Digits-append fuel n _
        (hex_digits-Digits fuel (n / 16) (omega (arith, small, pow-suc 16 fuel))))
]

chunk_laws : ChunkLaws chunk_ops
chunk_laws = record {
  write_size_fits = λ text c fits. ground arith;
  svtou_hex = λ text h fits. refl;
  size_line_digits = λ n small.
      let d = hex_digits-Digits 8 n small in
      (hex_digits 8 n, refl, record { hex = d.hex; at_most_8 = d.at_most; value = d.value });
}

abbrev crlf : Bytes
crlf = http_eol

-- A chunk of 5 bytes and the final chunk.
abbrev coded : Bytes
coded = b'5' ∷ crlf ++ codes "78901" ++ crlf ++ b'0' ∷ crlf ++ crlf

abbrev bytes_apart : Bytes → List Bytes
bytes_apart = map (λ c. c ∷ [])

-- The first pieces of the unit test of the repository: a chunk of 0x10 bytes.
abbrev first_pieces : List Bytes
first_pieces =
    codes "1"
    ∷ codes "0"
    ∷ (b'\r' ∷ [])
    ∷ (b'\n' ∷ [])
    ∷ codes "1"
    ∷ codes "2"
    ∷ codes "3456"
    ∷ codes "78901234"
    ∷ codes "5"
    ∷ codes "6"
    ∷ (b'\r' ∷ [])
    ∷ (b'\n' ∷ [])
    ∷ (b'5' ∷ crlf ++ codes "78901" ++ crlf)
    ∷ []

abbrev between_chunks : Codex
between_chunks = record { chunk_size = 5; off = 0; size_text = []; state = size }

takes_the_chunks :
    forget (parse_all chunk_ops new_codex first_pieces)
    ≡ some (continue, between_chunks, codes "123456789012345678901")
unfolding parse_all parse turn_in read_size end_size body_turn is_xdigit hex_value_from digit_value
takes_the_chunks = refl

parse-run_example :
    forget (parse chunk_ops (turns new_codex coded) new_codex coded) ≡ run chunk_ops new_codex coded
parse-run_example =
    parse-run chunk_ops (turns new_codex coded) new_codex coded (λ e. cc) (omega arith)

-- The line feed is missing behind the carriage return of a size.
abbrev at_lf : Codex
at_lf = record { chunk_size = 5; off = 0; size_text = []; state = lf }

parse_stuck_example : parse chunk_ops 1000 at_lf (codes "x") ≡ none
parse_stuck_example = parse_stuck chunk_ops 1000 at_lf b'x' [] refl refl

parse_all-flatten_example :
    forget (parse_all chunk_ops new_codex (coded ∷ []))
    ≡ forget (parse_all chunk_ops new_codex (bytes_apart coded))
unfolding flatten
parse_all-flatten_example =
    parse_all-flatten chunk_ops (coded ∷ []) (bytes_apart coded) new_codex (λ e. cc) refl

-- A session that keeps what it is given.
abbrev kept : Writer Bytes
kept = record { write = λ s view. (s ++ view, length view) }

kept-IsReliable : IsReliable kept (λ s. s)
kept-IsReliable = record { reports_all = λ s view. refl; sends_all = λ s view. refl }

flatten-bytes_apart : (b : Bytes) → flatten (map (λ c. c ∷ []) b) ≡ b
unfolding flatten
flatten-bytes_apart [] = refl
flatten-bytes_apart (c ∷ cs) = ap (λ t. c ∷ t) (flatten-bytes_apart cs)

transmit-parse_all_example :
    (last : Bytes) × (wire : Bytes) × (transmit chunk_ops kept 5 [] (codes "78901") 2 0
      ≡ some (last, 5, false))
    × (last ≡ [] ++ wire)
    × (forget (parse_all chunk_ops new_codex (bytes_apart wire))
        ≡ some (done, final_codex, codes "78901"))
transmit-parse_all_example =
    transmit-parse_all chunk_laws kept-IsReliable [] (codes "78901") 2 bytes_apart (omega arith)
      (omega arith) flatten-bytes_apart
