-- ===== src/Protocol/Tests.antt =====
-- Frames and streams on concrete inputs.
use keg_pulse.Base.{ℕ, ◌≡◌, refl, false, List, [], ◌∷◌, ◌++◌, arith, inl}
use keg_pulse.Base.Text.{codes, ◌=t◌}
use keg_pulse.Protocol.Bytes.{
  all, is_hex, is_op_char, is_key_char, is_value_char, print_hex4, join, hex_digit,
}
use keg_pulse.Protocol.Frames.{
  Frame, Fields, ok, encode_frame, decode_frame, crc16_ccitt, is_kind, is_request_id, is_operation,
  is_key, is_value, contains, encode_fields, seal,
}
use keg_pulse.Protocol.Parser.{FrameParser, create, feed}
use keg_pulse.Protocol.RoundTrip.{decode_frame-encode_frame}
use keg_pulse.Protocol.Lines.{joined, read_lines, feed-read_lines}
use keg_pulse.Protocol.Stream.{IsBounded, feed-IsBounded, feed-encode_frame, feed_recovers}

abbrev ping_fields : Fields
ping_fields = (codes "nonce", codes "7") ∷ []

-- A PING request
abbrev ping_bytes : List ℕ
ping_bytes = codes "KP1|Q|00000001|PING|nonce=7*8409" ++ (10 ∷ [])

ping_encoded :
    encode_frame (codes "Q") (codes "00000001") (codes "PING") ping_fields ≡ ok ping_bytes
unfolding encode_frame is_kind is_request_id is_operation is_key is_value contains encode_fields
    seal crc16_ccitt all is_hex is_op_char is_key_char is_value_char print_hex4 ◌=t◌ join hex_digit
ping_encoded = refl

abbrev ping : Frame
ping = record {
  kind = codes "Q";
  request_id = codes "00000001";
  operation = codes "PING";
  fields = ping_fields;
}

decode_frame-encode_frame_example : decode_frame ping_bytes ≡ ok ping
decode_frame-encode_frame_example =
    decode_frame-encode_frame (codes "Q") (codes "00000001") (codes "PING") ping_fields ping_bytes
      ping_encoded

-- A parser as it is made
abbrev parser : FrameParser
parser = record { max_bytes = 256; buffer = []; discarding = false }

parser_IsBounded : IsBounded parser
parser_IsBounded = record { within = ground arith; dropped = inl refl }

abbrev junk : List ℕ
junk = codes "KP1|Q|noise*"

-- A line that decodes, one that does not, and one that is too long for a parser of 40 bytes
abbrev lines : List (List ℕ)
lines =
    codes "KP1|Q|00000001|PING|nonce=7*8409"
    ∷ junk
    ∷ codes "a line that has more than forty bytes in it"
    ∷ []

feed-read_lines_example : feed (joined lines) (create 40) ≡ read_lines 40 lines
feed-read_lines_example = feed-read_lines lines 40 (unfold all in (refl, (refl, (refl, tt))))

feed-IsBounded_example : IsBounded (feed junk parser).parser
feed-IsBounded_example = feed-IsBounded junk parser parser_IsBounded

feed-encode_frame_example :
    feed ping_bytes parser ≡ record { frames = ping ∷ []; errors = []; parser = parser }
feed-encode_frame_example =
    feed-encode_frame (codes "Q") (codes "00000001") (codes "PING") ping_fields ping_bytes parser
      ping_encoded (refl, refl) (omega arith)

feed_recovers_example :
    let before = feed (junk ++ (10 ∷ [])) parser in
    feed ((junk ++ (10 ∷ [])) ++ ping_bytes) parser ≡ record {
      frames = before.frames ++ (ping ∷ []);
      errors = before.errors;
      parser = before.parser;
    }
feed_recovers_example =
    feed_recovers junk (codes "Q") (codes "00000001") (codes "PING") ping_fields ping_bytes parser
      ping_encoded parser_IsBounded (omega arith)
