-- ===== src/Protocol/Parser.antt =====
-- `FrameParser` of src/kegpulse/protocol/frames.py: the streaming parser with bounded memory.
use keg_pulse.Base.{ℕ, Bool, true, false, List, [], ◌∷◌, ◌++◌, ltb, ◌==◌, if◌then◌else◌, length}
use keg_pulse.Protocol.Frames.{Frame, FrameErrorCode, Coded, ok, err, decode_frame}

-- `class FrameParser`
pub record FrameParser : Type 0 where
  pub max_bytes : ℕ
  pub buffer : List ℕ
  pub discarding : Bool

-- What `feed` returns: the frames and the errors, each in order, and the parser.
pub record Fed : Type 0 where
  pub frames : List Frame
  pub errors : List FrameErrorCode
  pub parser : FrameParser

-- `FrameParser(max_bytes)`
unfoldable pub create : ℕ → FrameParser
create max_bytes = record { max_bytes = max_bytes; buffer = []; discarding = false }

abbrev quiet : FrameParser → Fed
quiet p = record { frames = []; errors = []; parser = p }

-- A line that is complete
unfoldable pub feed_line : Coded Frame → FrameParser → Fed
feed_line (ok frame) p = record { frames = frame ∷ []; errors = []; parser = p }
feed_line (err code) p = record { frames = []; errors = code ∷ []; parser = p }

abbrev oversized : FrameParser → Fed
oversized p = record { frames = []; errors = FrameErrorCode.too_long ∷ []; parser = p }

-- The buffer has taken the byte in.
unfoldable pub feed_buffered : ℕ → List ℕ → FrameParser → Fed
unfolding feed_line
feed_buffered byte buffer p =
    if ltb p.max_bytes (length buffer)
    then (if byte == 10
        then oversized (record p { buffer = [] })
        else quiet (record p { buffer = []; discarding = true }))
    else (if byte == 10
        then feed_line (decode_frame buffer) (record p { buffer = [] })
        else quiet (record p { buffer = buffer }))

-- One round of the loop in `feed`
unfoldable pub feed_byte : ℕ → FrameParser → Fed
unfolding feed_buffered
feed_byte byte p =
    if p.discarding
    then (if byte == 10 then oversized (record p { discarding = false }) else quiet p)
    else feed_buffered byte (p.buffer ++ (byte ∷ [])) p

-- What came first, and what came then
abbrev pub followed_by : Fed → Fed → Fed
followed_by a b = record {
  frames = a.frames ++ b.frames;
  errors = a.errors ++ b.errors;
  parser = b.parser;
}

-- `feed`
unfoldable pub feed : List ℕ → FrameParser → Fed
feed [] p = quiet p
feed (byte ∷ chunk) p = let first = feed_byte byte p in followed_by first (feed chunk first.parser)
