-- ===== src/Protocol/Frames.antt =====
-- The KP1 frame codec of src/kegpulse/protocol/frames.py. Texts and bytes are lists of numbers;
-- a FrameError is its code.
use Prim.Native.Nat.{bit_and, bit_xor}
use keg_pulse.Base.{
  ℕ, zero, suc, ◌*◌, ◌%◌, ◌^◌, Bool, true, false, ◌&&◌, ◌||◌, none, some, List, [], ◌∷◌, ◌++◌, ltb,
  leb, ◌==◌, if◌then◌else◌, not, length,
}
use keg_pulse.Base.Text.{Text, codes, ◌=t◌}
use keg_pulse.Protocol.Bytes.{
  all, is_hex, is_op_char, is_key_char, is_value_char, unsnoc, rsplit, split, join, print_hex4,
  parse_hex,
}

abbrev pub max_frame_bytes : ℕ
max_frame_bytes = 256

-- `class FrameErrorCode(StrEnum)`
pub data FrameErrorCode : Type 0 where
  malformed bad_crc too_long unsupported_version : FrameErrorCode

-- What a function returns, or the code of the FrameError that it raises.
pub data Coded {ℓ} (A : Type ℓ) : Type ℓ where
  ok : A → Coded A
  err : FrameErrorCode → Coded A

infixl 5 ◌>>=◌ ◌>>◌
abbrev pub ◌>>=◌ {ℓ κ} : {A : Type ℓ} {B : Type κ} → Coded A → (A → Coded B) → Coded B
ok a >>= f = f a
err e >>= f = err e

abbrev pub ◌>>◌ {ℓ} : {B : Type ℓ} → Coded (Unit {0}) → Coded B → Coded B
m >> k = m >>= λ _. k

-- `if not test: raise FrameError(code, …)`
abbrev pub require : Bool → FrameErrorCode → Coded (Unit {0})
require true code = ok tt
require false code = err code

-- A Python dict of fields, in insertion order
abbrev pub Fields : Type 0
Fields = List (Text × Text)

-- `class Frame`
pub record Frame : Type 0 where
  pub kind : Text
  pub request_id : Text
  pub operation : Text
  pub fields : Fields

-- One bit of `crc16_ccitt`
unfoldable pub crc_bit : ℕ → ℕ
crc_bit crc =
    if bit_and crc 0x8000 == 0 then (crc * 2) % 2 ^ 16 else (bit_xor (crc * 2) 0x1021) % 2 ^ 16

unfoldable pub crc_bits : ℕ → ℕ → ℕ
crc_bits zero crc = crc
crc_bits (suc n) crc = crc_bits n (crc_bit crc)

unfoldable pub crc_from : ℕ → List ℕ → ℕ
crc_from crc [] = crc
crc_from crc (byte ∷ bytes) = crc_from (crc_bits 8 (bit_xor crc (byte * 256))) bytes

-- `crc16_ccitt`
unfoldable pub crc16_ccitt : List ℕ → ℕ
unfolding crc_from crc_bits crc_bit
crc16_ccitt bytes = crc_from 0xFFFF bytes

-- `kind in {"Q", "R", "E"}`
unfoldable pub is_kind : Text → Bool
unfolding ◌=t◌
is_kind kind = kind =t codes "Q" || kind =t codes "R" || kind =t codes "E"

-- The patterns `_RID`, `_OP`, `_KEY` and `_VALUE`
unfoldable pub is_request_id : Text → Bool
unfolding all is_hex
is_request_id t = length t == 8 && all is_hex t

unfoldable pub is_operation : Text → Bool
unfolding all is_op_char
is_operation t = leb 1 (length t) && leb (length t) 16 && all is_op_char t

unfoldable pub is_key : Text → Bool
unfolding all is_key_char
is_key t = leb 1 (length t) && leb (length t) 16 && all is_key_char t

unfoldable pub is_value : Text → Bool
unfolding all is_value_char
is_value t = leb 1 (length t) && leb (length t) 64 && all is_value_char t

-- `key in seen`
unfoldable pub contains : Text → List Text → Bool
unfolding ◌=t◌
contains key [] = false
contains key (k ∷ ks) = key =t k || contains key ks

-- The loop of `encode_frame` over the fields
unfoldable pub encode_fields : List Text → Fields → Coded (List Text)
encode_fields seen [] = ok []
encode_fields seen ((key, value) ∷ fields) = do
  require (not (contains key seen) && is_key key) FrameErrorCode.malformed
  require (is_value value) FrameErrorCode.malformed
  tokens ← encode_fields (key ∷ seen) fields
  ok ((key ++ (b'=' ∷ value)) ∷ tokens)

-- The payload with its CRC and the line feed
unfoldable pub seal : Text → List ℕ
seal payload = payload ++ (b'*' ∷ print_hex4 (crc16_ccitt payload) ++ (10 ∷ []))

-- `encode_frame`, its field values as texts
unfoldable pub encode_frame : Text → Text → Text → Fields → Coded (List ℕ)
encode_frame kind request_id operation fields = do
  require (is_kind kind) FrameErrorCode.malformed
  require (is_request_id request_id) FrameErrorCode.malformed
  require (is_operation operation) FrameErrorCode.malformed
  tokens ← encode_fields [] fields
  let encoded = seal (join b'|' (codes "KP1" ∷ kind ∷ request_id ∷ operation ∷ tokens))
  require (leb (length encoded) max_frame_bytes) FrameErrorCode.too_long
  ok encoded

-- The payload of a line without its CR and LF
unfoldable pub strip_line : List ℕ → Coded Text
strip_line bytes = elim (unsnoc bytes) [
  | none ↦ err FrameErrorCode.malformed
  | some (line, last) ↦
      if last == 10
      then ok (elim (unsnoc line) [
        | none ↦ line
        | some (init, before) ↦ if before == 13 then init else line
      ])
      else err FrameErrorCode.malformed
]

unfoldable pub is_ascii : ℕ → Bool
is_ascii c = ltb c 128

unfoldable pub is_crc_text : Text → Bool
is_crc_text t = length t == 4 && all is_hex t

-- The payload, if the CRC behind the last `*` is that of the bytes before it
unfoldable pub open_seal : Text → Coded Text
open_seal text = elim (rsplit b'*' text) [
  | none ↦ err FrameErrorCode.malformed
  | some (payload, crc_text) ↦
      if is_crc_text crc_text
      then (if crc16_ccitt payload == parse_hex crc_text
          then ok payload
          else err FrameErrorCode.bad_crc)
      else err FrameErrorCode.malformed
]

-- `key, value = token.split("=", 1)` for a token with one `=`
unfoldable pub pair_of : List Text → Coded (Text × Text)
pair_of (key ∷ value ∷ []) = ok (key, value)
pair_of _ = err FrameErrorCode.malformed

-- The loop of `decode_frame` over the field tokens; `seen` are the keys so far.
unfoldable pub decode_fields : List Text → List Text → Coded Fields
unfolding pair_of
decode_fields seen [] = ok []
decode_fields seen (token ∷ tokens) = do
  field ← pair_of (split b'=' token)
  require (not (contains field.0 seen) && is_key field.0 && is_value field.1)
      FrameErrorCode.malformed
  fields ← decode_fields (field.0 ∷ seen) tokens
  ok (field ∷ fields)

-- The code for a frame whose prefix is not that of this protocol
unfoldable pub prefix_error : List Text → FrameErrorCode
prefix_error ((c ∷ d ∷ cs) ∷ tokens) =
    if c == b'K' && d == b'P' then FrameErrorCode.unsupported_version else FrameErrorCode.malformed
prefix_error _ = FrameErrorCode.malformed

-- The header and the fields
unfoldable pub decode_tokens : List Text → Coded Frame
unfolding prefix_error
decode_tokens (magic ∷ kind ∷ request_id ∷ operation ∷ tokens) = do
  require (magic =t codes "KP1") (prefix_error (magic ∷ []))
  require (is_kind kind && is_request_id request_id && is_operation operation)
      FrameErrorCode.malformed
  fields ← decode_fields [] tokens
  ok (record { kind = kind; request_id = request_id; operation = operation; fields = fields })
decode_tokens tokens = err (prefix_error tokens)

-- `decode_frame`
unfoldable pub decode_frame : List ℕ → Coded Frame
unfolding is_ascii
decode_frame bytes = do
  require (leb (length bytes) max_frame_bytes) FrameErrorCode.too_long
  text ← strip_line bytes
  require (all is_ascii text) FrameErrorCode.malformed
  payload ← open_seal text
  decode_tokens (split b'|' payload)
