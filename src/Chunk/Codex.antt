-- ===== src/Chunk/Codex.antt =====
-- The members of `ChunkCodex` and its `parse`. What libswoc does for it is a parameter.
use proxy_verifier.Base.{
  ℕ, zero, suc, ◌+◌, ◌-◌, ◌*◌, ◌≤◌, ◌<◌, ◌^◌, Bytes, Bool, true, false, List, [], ◌∷◌, ◌++◌, Option,
  none, some, min, leb, ◌==◌, ◌≡◌, All, length, take, drop, is_xdigit, if◌then◌else◌,
}

-- The value of a hexadecimal digit, and of a text of them.
unfoldable pub digit_value : ℕ → ℕ
digit_value c = if leb c b'9' then c - b'0' else if leb c b'F' then c - 55 else c - 87

unfoldable pub hex_value_from : ℕ → Bytes → ℕ
hex_value_from acc [] = acc
hex_value_from acc (c ∷ cs) = hex_value_from (16 * acc + digit_value c) cs

abbrev pub IsHex : Bytes → Type 0
IsHex = All (λ c. is_xdigit c ≡ true)

-- `HTTP_EOL`
abbrev pub http_eol : Bytes
http_eol = b'\r' ∷ b'\n' ∷ []

-- `LocalBufferWriter<16>::write` of one byte, `svtou` in base 16, and the contents of a
-- `LocalBufferWriter<10>` after `print("{:x}{}", n, HTTP_EOL)`.
pub record ChunkOps : Type 0 where
  pub write_size : Bytes → ℕ → Bytes
  pub svtou : Bytes → ℕ
  pub size_line : ℕ → Bytes

-- Up to eight hexadecimal digits for a number.
pub record IsHexOf (n : ℕ) (digits : Bytes) : Type 0 where
  pub hex : IsHex digits
  pub at_most_8 : length digits ≤ 8
  pub value : hex_value_from 0 digits ≡ n

-- A byte is written where there is room, digits are read up to 16, and the line of a number of 32
-- bits is its digits and the end of line.
pub record ChunkLaws (ops : ChunkOps) : Type 0 where
  pub write_size_fits :
      (text : Bytes) (c : ℕ) → length text < 16 → ops.write_size text c ≡ text ++ (c ∷ [])
  pub svtou_hex :
      (text : Bytes) → IsHex text → length text ≤ 16 → ops.svtou text ≡ hex_value_from 0 text
  pub size_line_digits :
      (n : ℕ)
      → n < 2 ^ 32
      → (digits : Bytes) × (ops.size_line n ≡ digits ++ http_eol) × IsHexOf n digits

pub data State : Type 0 where
  init size cr lf body post_body_cr post_body_lf final : State

pub data Result : Type 0 where
  continue done error : Result

pub record Codex : Type 0 where
  pub chunk_size : ℕ
  pub off : ℕ
  pub size_text : Bytes
  pub state : State

abbrev pub new_codex : Codex
new_codex = record { chunk_size = 0; off = 0; size_text = []; state = init }

-- The arguments of a call of the callback.
pub record Call : Type 0 where
  pub chunk : Bytes
  pub offset : ℕ
  pub full_size : ℕ

-- One turn of the loop: what is left, and whether it returns `DONE`.
pub record Turn : Type 0 where
  pub codex : Codex
  pub rest : Bytes
  pub calls : List Call
  pub is_done : Bool

-- No call, and the loop goes on.
abbrev pub goes_on : Codex → Bytes → Turn
goes_on c rest = record { codex = c; rest = rest; calls = []; is_done = false }

abbrev pub returns_done : Codex → Bytes → Turn
returns_done c rest = record { codex = c; rest = rest; calls = []; is_done = true }

-- What `parse` gives: its result, the codex behind it, and the calls in order.
abbrev pub Parsed : Type 0
Parsed = Result × Codex × List Call

abbrev pub add_calls : List Call → Option Parsed → Option Parsed
add_calls calls none = none
add_calls calls (some (r, k, later)) = some (r, k, calls ++ later)

module _ (ops : ChunkOps) where
  -- `while (data && isxdigit(*data)) _size_text.write(*data++)`
  unfoldable pub read_size : Bytes → Bytes → Bytes × Bytes
  read_size text [] = (text, [])
  read_size text (c ∷ cs) =
      let more = read_size (ops.write_size text c) cs in
      if is_xdigit c then more else (text, c ∷ cs)

  -- Behind that loop: the size is taken if a byte is left.
  unfoldable pub end_size : Codex → Bytes × Bytes → Turn
  end_size k (text, []) = goes_on (record k { size_text = text }) []
  end_size k (text, c ∷ cs) =
      goes_on (record k { chunk_size = ops.svtou text; size_text = []; state = cr }) (c ∷ cs)

  -- `case State::BODY`. The offset stays below the size in this state, so the difference is exact.
  unfoldable pub body_turn : Codex → Bytes → Turn
  body_turn k view =
      let n = min (length view) (k.chunk_size - k.off) in
      record {
        codex = record k {
          off = k.off + n;
          state = if leb k.chunk_size (k.off + n) then post_body_cr else body;
        };
        rest = drop n view;
        calls = record { chunk = take n view; offset = k.off; full_size = k.chunk_size } ∷ [];
        is_done = false;
      }

  -- The `switch` at the first byte `c` of the data.
  unfoldable pub turn_in : State → Codex → ℕ → Bytes → Turn
  unfolding read_size end_size body_turn
  turn_in init k c cs = goes_on (record k { state = size }) (c ∷ cs)
  turn_in size k c cs = end_size k (read_size k.size_text (c ∷ cs))
  turn_in post_body_cr k c cs =
      goes_on (record k { state = if c == b'\r' then post_body_lf else post_body_cr }) cs
  turn_in cr k c cs = goes_on (record k { state = if c == b'\r' then lf else cr }) cs
  turn_in post_body_lf k c cs =
      if c == b'\n'
      then (if k.chunk_size == 0
          then returns_done (record k { state = final; off = 0 }) cs
          else goes_on (record k { state = size; off = 0 }) cs)
      else returns_done (record k { state = final }) (c ∷ cs)
  turn_in lf k c cs =
      if c == b'\n'
      then (if k.chunk_size == 0
          then goes_on (record k { state = post_body_cr }) (c ∷ cs)
          else goes_on (record k { state = body; off = 0 }) cs)
      else goes_on k (c ∷ cs)
  turn_in body k c cs = body_turn k (c ∷ cs)
  turn_in final k c cs = returns_done k (c ∷ cs)

  -- `ChunkCodex::parse`, with a bound on the turns of its loop; `none` is a loop that has not ended.
  unfoldable pub parse : ℕ → Codex → Bytes → Option Parsed
  unfolding turn_in
  parse fuel k [] = some (continue, k, [])
  parse zero k (c ∷ cs) = none
  parse (suc fuel) k (c ∷ cs) =
      let t = turn_in k.state k c cs in
      let later = add_calls t.calls (parse fuel t.codex t.rest) in
      if t.is_done then some (done, t.codex, t.calls) else later
