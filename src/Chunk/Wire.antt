-- ===== src/Chunk/Wire.antt =====
-- The machine on the lines and chunks that `transmit` writes.
use proxy_verifier.Base.{
  ℕ, ◌+◌, ◌≤◌, ◌<◌, ◌^◌, Bytes, [], ◌∷◌, ◌++◌, some, ◌≡◌, ◌≢◌, refl, ap, ◌∙◌, append-nil,
  append_assoc, length, length-append, take-append, drop, drop-append, is_xdigit, arith,
}
use proxy_verifier.Chunk.Codex.{
  ChunkOps, ChunkLaws, IsHex, hex_value_from, digit_value, http_eol, size, lf, body, post_body_cr,
  post_body_lf, final, done, Codex,
}
use proxy_verifier.Chunk.Machine.{add_bytes, feed_in, run, run-next}
use proxy_verifier.Chunk.Transmit.{zero_chunk}
use proxy_verifier.Chunk.Turns.{add_bytes_nil, in_size, past, run-body_bytes}

-- Between chunks of a text; the offset starts again.
abbrev pub between : ℕ → Codex
between n = record { chunk_size = n; off = 0; size_text = []; state = size }

module _ {ops : ChunkOps} (laws : ChunkLaws ops) where
  -- Digits are collected.
  run-hex :
      (k : Codex) (text digits rest : Bytes)
      → IsHex digits
      → length text + length digits ≤ 16
      → run ops (in_size ops k text) (digits ++ rest)
        ≡ run ops (in_size ops k (text ++ digits)) rest
  unfolding feed_in
  run-hex k text [] rest h fits = rw append-nil
  run-hex k text (d ∷ digits) rest h fits =
      run-next ops (in_size ops k text) (in_size ops k (text ++ (d ∷ []))) d (digits ++ rest) []
        (rw (h.0, laws.write_size_fits text d (omega arith)) refl)
      ∙ add_bytes_nil _
      ∙ run-hex k (text ++ (d ∷ [])) digits rest h.1 (omega (arith, length-append text (d ∷ [])))
      ∙ ap (λ t. run ops (in_size ops k t) rest) (append_assoc text (d ∷ []) digits)

  -- The size line of a chunk.
  run-size_line :
      (k : Codex) (n : ℕ) (rest : Bytes)
      → n < 2 ^ 32
      → run ops (in_size ops k []) (ops.size_line n ++ (rest))
        ≡ run ops (record k { chunk_size = n; size_text = []; state = lf }) (b'\n' ∷ rest)
  unfolding feed_in is_xdigit
  run-size_line k n rest small =
      let (digits, line, hex) = laws.size_line_digits n small in
      let value = laws.svtou_hex digits hex.hex (omega (arith, hex.at_most_8)) ∙ hex.value in
      ap (λ t. run ops (in_size ops k []) (t ++ rest)) line
      ∙ ap (run ops (in_size ops k [])) (append_assoc digits http_eol rest)
      ∙ run-hex k [] digits (b'\r' ∷ b'\n' ∷ rest) hex.hex (omega (arith, hex.at_most_8))
      ∙ run-next ops (in_size ops k digits)
          (record k { chunk_size = ops.svtou digits; size_text = []; state = lf }) b'\r'
          (b'\n' ∷ rest) [] refl
      ∙ add_bytes_nil _
      ∙ ap (λ v. run ops (record k { chunk_size = v; size_text = []; state = lf }) (b'\n' ∷ rest))
          value

  -- A chunk gives its bytes.
  pub run-chunk :
      (k : Codex) (piece rest : Bytes)
      → piece ≢ []
      → length piece < 2 ^ 32
      → run ops (in_size ops k []) (ops.size_line (length piece) ++ (piece ++ (http_eol ++ rest)))
        ≡ add_bytes piece (run ops (between (length piece)) rest)
  unfolding feed_in
  run-chunk k [] rest ne small = absurd (ne refl)
  run-chunk k (c ∷ cs) rest ne small =
      let piece = c ∷ cs in
      let n = length piece in
      let after_line : Codex = record k { chunk_size = n; size_text = []; state = lf } in
      let inside : Codex = record { chunk_size = n; off = 0; size_text = []; state = body } in
      let over = past ops inside (0 + n) in
      let at_lf : Codex = record over { state = post_body_lf } in
      let ended : over.state ≡ post_body_cr = ground arith in
      let zero_plus : 0 + n ≡ n = omega arith in
      run-size_line k n (piece ++ (http_eol ++ rest)) small
      ∙ run-next ops after_line inside b'\n' (piece ++ (http_eol ++ rest)) [] (ground arith)
      ∙ add_bytes_nil _
      ∙ run-body_bytes ops n inside (piece ++ (http_eol ++ rest)) refl (omega arith)
          (omega (arith, length-append piece (http_eol ++ rest))) (omega arith)
      ∙ ap (λ t. add_bytes t (run ops over (drop n (piece ++ (http_eol ++ rest)))))
          (take-append n piece (http_eol ++ rest) refl)
      ∙ ap (add_bytes piece) (
          ap (run ops over) (drop-append n piece (http_eol ++ rest) refl)
          ∙ run-next ops over at_lf b'\r' (b'\n' ∷ rest) [] (rw ended refl)
          ∙ add_bytes_nil _
          ∙ run-next ops at_lf (between n) b'\n' rest [] (ground arith)
          ∙ add_bytes_nil _)

  -- The final chunk ends the coding.
  pub run-zero_chunk :
      (k : Codex)
      → run ops (in_size ops k []) zero_chunk
        ≡ some (done, record { chunk_size = 0; off = 0; size_text = []; state = final }, [])
  unfolding run feed_in is_xdigit hex_value_from digit_value
  run-zero_chunk k =
      let digit = laws.write_size_fits [] b'0' (omega arith) in
      let zero_size : ops.svtou (ops.write_size [] b'0') ≡ 0 =
        ap ops.svtou digit ∙ laws.svtou_hex (b'0' ∷ []) (refl, tt) (omega arith) in
      rw zero_size refl
