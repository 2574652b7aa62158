-- ===== src/Protocol/Lines.antt =====
-- The parser that takes one byte at a time, against the reading of whole lines.
use keg_pulse.Base.{
  ℕ, ◌+◌, ◌≤◌, ◌<◌, ◌≡◌, refl, not, true, false, List, [], ◌∷◌, ◌++◌, arith, ◌==◌, leb,
  if◌then◌else◌, length, length-append, inl, inr, Bool-cases,
}
use native.Mathlib.Decide.{dec_lt}
use keg_pulse.Protocol.Frames.{ok, err, FrameErrorCode, decode_frame}
use keg_pulse.Protocol.BytesLaws.{Lacks, all_cons_parts}
use keg_pulse.Protocol.Parser.{FrameParser, Fed, create, feed_line, feed_byte, feed, followed_by}
use keg_pulse.Protocol.Stream.{feed-append, feed_plain_byte, feed_whole_line, not-true}

-- Lines as they are sent
abbrev pub joined : List (List ℕ) → List ℕ
joined [] = []
joined (line ∷ lines) = (line ++ (10 ∷ [])) ++ joined lines

abbrev pub AllLack : List (List ℕ) → Type 0
AllLack [] = Unit
AllLack (line ∷ lines) = Lacks 10 line × AllLack lines

-- One line read on its own: decoded if it fits with its line feed, and too long otherwise
abbrev pub read_line : ℕ → List ℕ → Fed
read_line max_bytes line =
    if leb (length line + 1) max_bytes
    then elim (decode_frame (line ++ (10 ∷ []))) [
      | ok frame ↦ record { frames = frame ∷ []; errors = []; parser = create max_bytes }
      | err code ↦ record { frames = []; errors = code ∷ []; parser = create max_bytes }
    ]
    else record { frames = []; errors = FrameErrorCode.too_long ∷ []; parser = create max_bytes }

-- The lines read one by one
abbrev pub read_lines : ℕ → List (List ℕ) → Fed
read_lines max_bytes [] = record { frames = []; errors = []; parser = create max_bytes }
read_lines max_bytes (line ∷ lines) =
    followed_by (read_line max_bytes line) (read_lines max_bytes lines)

-- The rest of a line that is being discarded
feed_discards :
    (body : List ℕ) (p : FrameParser)
    → Lacks 10 body
    → p.discarding ≡ true
    → feed (body ++ (10 ∷ [])) p ≡ record {
      frames = [];
      errors = FrameErrorCode.too_long ∷ [];
      parser = record p { discarding = false };
    }
unfolding feed feed_byte
feed_discards [] p l d = rw d refl
feed_discards (byte ∷ body) p l d =
    let (plain, rest) = all_cons_parts (λ x. not (x == 10)) byte body l in
    let same : feed_byte byte p ≡ record { frames = []; errors = []; parser = p } =
      rw (d, not-true plain) refl in
    rw (same, feed_discards body p rest d) refl

-- A line that does not fit is discarded as a whole, wherever it outgrows the buffer.
feed_long :
    (body : List ℕ) (p : FrameParser)
    → Lacks 10 body
    → p.discarding ≡ false
    → p.max_bytes < length p.buffer + length body + 1
    → length p.buffer ≤ p.max_bytes
    → feed (body ++ (10 ∷ [])) p ≡ record {
      frames = [];
      errors = FrameErrorCode.too_long ∷ [];
      parser = record p { buffer = [] };
    }
unfolding feed
feed_long [] p l d h b =
    let last : feed_byte 10 p ≡ record {
      frames = [];
      errors = FrameErrorCode.too_long ∷ [];
      parser = record p { buffer = [] };
    } =
      unfold feed_byte in ground (arith, length-append p.buffer (10 ∷ [])) in
    rw last refl
feed_long (byte ∷ body) p l d h b =
    let (plain, rest) = all_cons_parts (λ x. not (x == 10)) byte body l in
    let more = length-append p.buffer (byte ∷ []) in
    elim (dec_lt (length p.buffer) p.max_bytes) [
      | yes room ↦
          let taken = record p { buffer = p.buffer ++ (byte ∷ []) } in
          rw
            (
              feed_plain_byte byte p (not-true plain) d (omega arith),
              feed_long body taken rest d (omega (arith, more)) (omega (arith, more)),
            )
            refl
      | no full ↦
          let dropped = record p { buffer = []; discarding = true } in
          let none_left : feed_byte byte p ≡ record { frames = []; errors = []; parser = dropped } =
            unfold feed_byte in ground (arith, more, not-true plain) in
          rw (none_left, feed_discards body dropped rest refl) (ground arith)
    ]

feed-read_line :
    (line : List ℕ) (max_bytes : ℕ)
    → Lacks 10 line
    → feed (line ++ (10 ∷ [])) (create max_bytes) ≡ read_line max_bytes line
feed-read_line line max_bytes l = elim (Bool-cases (leb (length line + 1) max_bytes)) [
  | inl e ↦
      rw (feed_whole_line line max_bytes l (ground arith), e) (unfold feed_line in ground arith)
  | inr e ↦
      rw e (unfold create in feed_long line (create max_bytes) l refl (ground arith) (omega arith))
]

read_line_parser :
    (line : List ℕ) (max_bytes : ℕ) → (read_line max_bytes line).parser ≡ create max_bytes
read_line_parser line max_bytes = ground arith

-- Fed any lines, each ended by a line feed, the parser gives exactly what reading the lines one by
-- one gives: the frames of the lines that decode, the errors of the lines that do not, one too_long
-- error for each line that with its line feed exceeds `max_bytes`, all in order, and a parser as new.
pub feed-read_lines :
    (lines : List (List ℕ)) (max_bytes : ℕ)
    → AllLack lines
    → feed (joined lines) (create max_bytes) ≡ read_lines max_bytes lines
feed-read_lines [] max_bytes h = unfold feed in refl
feed-read_lines (line ∷ lines) max_bytes h =
    let first = feed-read_line line max_bytes h.0 in
    rw
      (
        feed-append (line ++ (10 ∷ [])) (joined lines) (create max_bytes),
        first,
        read_line_parser line max_bytes,
        feed-read_lines lines max_bytes h.1,
      )
      refl
