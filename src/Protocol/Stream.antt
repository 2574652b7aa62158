-- ===== src/Protocol/Stream.antt =====
-- The parser is indifferent to how its input is cut into chunks, keeps its memory bounded, and
-- finds the frame boundary again after anything.
use mathlib.Core.List.{append_assoc, append-nil}
use keg_pulse.Base.{
  ℕ, ◌+◌, ◌≤◌, ◌≡◌, refl, sym, ◌∙◌, not, Bool, true, false, List, [], ◌∷◌, ◌++◌, arith, ◌==◌,
  length, length-append, ap, ◌⊎◌,
}
use keg_pulse.Base.Text.{Text}
use keg_pulse.Protocol.Frames.{Fields, ok, decode_frame, encode_frame, max_frame_bytes}
use keg_pulse.Protocol.RoundTrip.{decode_frame-encode_frame, encode_frame_line}
use keg_pulse.Protocol.BytesLaws.{Lacks, all_cons_parts}
use keg_pulse.Protocol.Parser.{FrameParser, Fed, create, feed_line, feed_byte, feed, followed_by}

followed_by_assoc :
    (a b c : Fed) → followed_by (followed_by a b) c ≡ followed_by a (followed_by b c)
followed_by_assoc a b c =
    rw (append_assoc a.frames b.frames c.frames, append_assoc a.errors b.errors c.errors)

-- Feeding two chunks is feeding them joined: the same frames, errors and parser.
pub feed-append :
    (xs ys : List ℕ) (p : FrameParser)
    → feed (xs ++ ys) p ≡ followed_by (feed xs p) (feed ys (feed xs p).parser)
unfolding feed
feed-append [] ys p = refl
feed-append (x ∷ xs) ys p =
    let first = feed_byte x p in
    rw (feed-append xs ys first.parser)
      (sym (followed_by_assoc first (feed xs first.parser) (feed ys (feed xs first.parser).parser)))

-- The buffer is within its bound, and is empty while a line is discarded.
pub record IsBounded (p : FrameParser) : Type 0 where
  pub within : length p.buffer ≤ p.max_bytes
  pub dropped : (p.discarding ≡ false) ⊎ (p.buffer ≡ [])

feed_byte-max_bytes :
    (byte : ℕ) (p : FrameParser) → (feed_byte byte p).parser.max_bytes ≡ p.max_bytes
unfolding feed_byte
feed_byte-max_bytes byte p = ground arith

feed_byte-IsBounded :
    (byte : ℕ) (p : FrameParser) → IsBounded p → IsBounded (feed_byte byte p).parser
unfolding feed_byte
feed_byte-IsBounded byte p b = ground (arith, length-append p.buffer (byte ∷ []))

-- Whatever it is fed, the parser keeps its buffer within `max_bytes`, and holds nothing while it
-- discards a line.
pub feed-IsBounded :
    (chunk : List ℕ) (p : FrameParser) → IsBounded p → IsBounded (feed chunk p).parser
unfolding feed
feed-IsBounded [] p b = b
feed-IsBounded (byte ∷ chunk) p b =
    feed-IsBounded chunk (feed_byte byte p).parser (feed_byte-IsBounded byte p b)

feed-max_bytes : (chunk : List ℕ) (p : FrameParser) → (feed chunk p).parser.max_bytes ≡ p.max_bytes
unfolding feed
feed-max_bytes [] p = refl
feed-max_bytes (byte ∷ chunk) p =
    feed-max_bytes chunk (feed_byte byte p).parser ∙ feed_byte-max_bytes byte p

-- At a line end
abbrev pub IsIdle : FrameParser → Type 0
IsIdle p = (p.buffer ≡ []) × (p.discarding ≡ false)

-- A line feed ends whatever line was in progress.
feed_byte-newline : (p : FrameParser) → IsBounded p → IsIdle (feed_byte 10 p).parser
unfolding feed_byte
feed_byte-newline p b = ground arith

feed-newline-IsIdle :
    (junk : List ℕ) (p : FrameParser) → IsBounded p → IsIdle (feed (junk ++ (10 ∷ [])) p).parser
feed-newline-IsIdle junk p b =
    rw (feed-append junk (10 ∷ []) p)
      (unfold feed in feed_byte-newline (feed junk p).parser (feed-IsBounded junk p b))

pub feed_plain_byte :
    (byte : ℕ) (p : FrameParser)
    → (byte == 10) ≡ false
    → p.discarding ≡ false
    → length p.buffer + 1 ≤ p.max_bytes
    → feed_byte byte p
      ≡ record { frames = []; errors = []; parser = record p { buffer = p.buffer ++ (byte ∷ []) } }
unfolding feed_byte
feed_plain_byte byte p n d h = ground (arith, length-append p.buffer (byte ∷ []))

feed_last_byte :
    (p : FrameParser)
    → p.discarding ≡ false
    → length p.buffer + 1 ≤ p.max_bytes
    → feed_byte 10 p ≡ feed_line (decode_frame (p.buffer ++ (10 ∷ []))) (record p { buffer = [] })
unfolding feed_byte
feed_last_byte p d h = ground (arith, length-append p.buffer (10 ∷ []))

pub not-true : {b : Bool} → not b ≡ true → b ≡ false
not-true {b = true} h = cc
not-true {b = false} h = refl

-- Bytes of a line are collected.
feed_collects :
    (body : List ℕ) (p : FrameParser)
    → Lacks 10 body
    → p.discarding ≡ false
    → length p.buffer + length body ≤ p.max_bytes
    → feed body p
      ≡ record { frames = []; errors = []; parser = record p { buffer = p.buffer ++ body } }
unfolding feed
feed_collects [] p l d h = rw (append-nil p.buffer)
feed_collects (byte ∷ body) p l d h =
    let (plain, rest) = all_cons_parts (λ x. not (x == 10)) byte body l in
    let taken = record p { buffer = p.buffer ++ (byte ∷ []) } in
    let room = length-append p.buffer (byte ∷ []) in
    rw (
      feed_plain_byte byte p (not-true plain) d (omega arith),
      feed_collects body taken rest d (omega (arith, room)),
      append_assoc p.buffer (byte ∷ []) body,
    )

idle_lem : (p : FrameParser) → IsIdle p → p ≡ create p.max_bytes
unfolding create
idle_lem p i = ground arith

-- A line that fits is decoded as a whole.
pub feed_whole_line :
    (body : List ℕ) (max_bytes : ℕ)
    → Lacks 10 body
    → length body + 1 ≤ max_bytes
    → feed (body ++ (10 ∷ [])) (create max_bytes)
      ≡ feed_line (decode_frame (body ++ (10 ∷ []))) (create max_bytes)
unfolding create
feed_whole_line body max_bytes l h =
    let start : FrameParser = record { max_bytes = max_bytes; buffer = []; discarding = false } in
    let full = record start { buffer = body } in
    rw (feed-append body (10 ∷ []) start, feed_collects body start l refl (omega arith))
      (unfold feed feed_line in rw (feed_last_byte full refl h) (ground arith))

-- A frame that `encode_frame` made comes out of an idle parser as that frame and nothing else, and
-- leaves the parser as it was.
pub feed-encode_frame :
    (kind request_id operation : Text) (fields : Fields) (bytes : List ℕ) (p : FrameParser)
    → encode_frame kind request_id operation fields ≡ ok bytes
    → IsIdle p
    → max_frame_bytes ≤ p.max_bytes
    → feed bytes p ≡ record {
      frames =
          record { kind = kind; request_id = request_id; operation = operation; fields = fields }
          ∷ [];
      errors = [];
      parser = p;
    }
feed-encode_frame kind request_id operation fields bytes p h i big =
    let (body, e, l, short) = encode_frame_line kind request_id operation fields bytes h in
    let fits : length body + 1 ≤ p.max_bytes =
      omega (arith, ap length e, length-append body (10 ∷ [])) in
    let decoded = decode_frame-encode_frame kind request_id operation fields bytes h in
    rw (idle_lem p i, e)
      (feed_whole_line body p.max_bytes l fits
        ∙ ap (λ r. feed_line r (create p.max_bytes)) (rw e at decoded)
        ∙ unfold feed_line in refl)

-- After any input at all that ends in a line feed, the next encoded frame is received: the parser
-- has found the frame boundary again.
pub feed_recovers :
    (junk : List ℕ) (kind request_id operation : Text) (fields : Fields) (bytes : List ℕ)
    (p : FrameParser)
    → encode_frame kind request_id operation fields ≡ ok bytes
    → IsBounded p
    → max_frame_bytes ≤ p.max_bytes
    → let before = feed (junk ++ (10 ∷ [])) p in
      feed ((junk ++ (10 ∷ [])) ++ bytes) p ≡ record {
        frames =
            before.frames
            ++ (record {
              kind = kind;
              request_id = request_id;
              operation = operation;
              fields = fields;
            }
                ∷ []);
        errors = before.errors;
        parser = before.parser;
      }
feed_recovers junk kind request_id operation fields bytes p h b big =
    let before = feed (junk ++ (10 ∷ [])) p in
    rw (
      feed-append (junk ++ (10 ∷ [])) bytes p,
      feed-encode_frame kind request_id operation fields bytes before.parser h
          (feed-newline-IsIdle junk p b) (rw (feed-max_bytes (junk ++ (10 ∷ [])) p) big),
      append-nil before.errors,
    )
