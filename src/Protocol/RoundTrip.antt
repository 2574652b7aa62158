-- ===== src/Protocol/RoundTrip.antt =====
-- Decoding undoes encoding.
use mathlib.Core.List.{append_assoc}
use keg_pulse.Base.{
  ℕ, ◌≤◌, ◌≡◌, refl, Bool, true, List, [], ◌∷◌, ◌++◌, arith, leb, ◌==◌, not, All, length, leb→le,
  sym, ◌∙◌,
}
use keg_pulse.Base.Text.{Text, codes, ◌=t◌}
use keg_pulse.Protocol.Bytes.{all, is_hex, split, join, print_hex4}
use keg_pulse.Protocol.BytesLaws.{
  Lacks, Within, all-Within, all-append, all-cons, all-join, split-join, lacks, all-print_hex4,
}
use keg_pulse.Protocol.Tokens.{
  decode_fields-encode_fields, kind-plain, request_id-plain, operation-plain, is_token_char,
}
use keg_pulse.Protocol.Seal.{open_seal-seal, strip_line-seal}
use keg_pulse.Protocol.Frames.{
  Fields, ok, crc16_ccitt, is_kind, is_request_id, is_operation, encode_fields, seal, encode_frame,
  is_ascii, decode_fields, decode_tokens, decode_frame, max_frame_bytes,
}

hex-ascii : Within is_hex is_ascii
unfolding is_hex is_ascii
hex-ascii c h = ground arith

star-ascii : is_ascii b'*' ≡ true
unfolding is_ascii
star-ascii = refl

-- What a successful `encode_frame` has checked and made.
encode_frame_parts :
    (kind request_id operation : Text) (fields : Fields) (bytes : List ℕ)
    → encode_frame kind request_id operation fields ≡ ok bytes
    → (tokens : List Text) × (encode_fields [] fields ≡ ok tokens)
      × (bytes ≡ seal (join b'|' (codes "KP1" ∷ kind ∷ request_id ∷ operation ∷ tokens)))
      × (leb (length bytes) max_frame_bytes ≡ true)
      × (is_kind kind ≡ true)
      × (is_request_id request_id ≡ true)
      × (is_operation operation ≡ true)
unfolding encode_frame
encode_frame_parts kind request_id operation fields bytes h = ground arith

-- Any payload of ASCII characters survives its seal.
decode_frame-seal :
    (payload : Text)
    → leb (length (seal payload)) max_frame_bytes ≡ true
    → all is_ascii payload ≡ true
    → decode_frame (seal payload) ≡ decode_tokens (split b'|' payload)
unfolding decode_frame
decode_frame-seal payload short ascii =
    let crc_text = print_hex4 (crc16_ccitt payload) in
    let printable : all is_ascii (payload ++ (b'*' ∷ crc_text)) ≡ true =
      all-append is_ascii payload (b'*' ∷ crc_text) ascii (
        all-cons is_ascii b'*' crc_text star-ascii
          (all-Within is_hex is_ascii crc_text hex-ascii (all-print_hex4 (crc16_ccitt payload)))) in
    rw (short, strip_line-seal payload, printable, open_seal-seal payload)

All-within :
    (p q : ℕ → Bool) (ts : List Text)
    → ((t : Text) → all p t ≡ true → all q t ≡ true)
    → All (λ t. all p t ≡ true) ts
    → All (λ t. all q t ≡ true) ts
All-within p q [] h a = tt
All-within p q (t ∷ ts) h a = (h t a.0, All-within p q ts h a.1)

token-Lacks : (t : Text) → all is_token_char t ≡ true → Lacks b'|' t
token-Lacks t h = lacks b'|' is_token_char t refl h

token-ascii : (t : Text) → all is_token_char t ≡ true → all is_ascii t ≡ true
unfolding is_ascii
token-ascii t h = all-Within is_token_char is_ascii t (λ c k. ground arith) h

bar-ascii : is_ascii b'|' ≡ true
unfolding is_ascii
bar-ascii = refl

decode_tokens_lem :
    (kind request_id operation : Text) (fields : Fields) (tokens : List Text)
    → decode_fields [] tokens ≡ ok fields
    → is_kind kind ≡ true
    → is_request_id request_id ≡ true
    → is_operation operation ≡ true
    → decode_tokens (codes "KP1" ∷ kind ∷ request_id ∷ operation ∷ tokens)
      ≡ ok (record { kind = kind; request_id = request_id; operation = operation; fields = fields })
unfolding decode_tokens ◌=t◌
decode_tokens_lem kind request_id operation fields tokens back k r o = rw (k, r, o, back)

printable_parts :
    (kind request_id operation : Text) (tokens : List Text)
    → is_kind kind ≡ true
    → is_request_id request_id ≡ true
    → is_operation operation ≡ true
    → All (λ t. all is_token_char t ≡ true) tokens
    → All (λ t. all is_token_char t ≡ true) (codes "KP1" ∷ kind ∷ request_id ∷ operation ∷ tokens)
unfolding all
printable_parts kind request_id operation tokens k r o plain = (
  refl,
  (kind-plain kind k, (request_id-plain request_id r, (operation-plain operation o, plain))),
)

-- Decoding undoes encoding: whatever frame `encode_frame` accepts, `decode_frame` reads its bytes
-- back as that frame, with the fields in their order.
pub decode_frame-encode_frame :
    (kind request_id operation : Text) (fields : Fields) (bytes : List ℕ)
    → encode_frame kind request_id operation fields ≡ ok bytes
    → decode_frame bytes
      ≡ ok (record { kind = kind; request_id = request_id; operation = operation; fields = fields })
decode_frame-encode_frame kind request_id operation fields bytes h =
    let (tokens, e, b, short, k, r, o) =
      encode_frame_parts kind request_id operation fields bytes h in
    let (back, plain) = decode_fields-encode_fields [] fields tokens e in
    let parts = codes "KP1" ∷ kind ∷ request_id ∷ operation ∷ tokens in
    let printable = printable_parts kind request_id operation tokens k r o plain in
    let apart = All-within is_token_char (λ x. not (x == b'|')) parts token-Lacks printable in
    let ascii = All-within is_token_char is_ascii parts token-ascii printable in
    rw
      (
        b,
        decode_frame-seal (join b'|' parts) (rw b at short)
            (all-join is_ascii b'|' parts bar-ascii ascii),
        split-join b'|' (codes "KP1") (kind ∷ request_id ∷ operation ∷ tokens) apart,
      )
      (decode_tokens_lem kind request_id operation fields tokens back k r o)

newline-lacks : Within is_token_char (λ x. not (x == 10))
newline-lacks c h = ground arith

hex-no_newline : Within is_hex (λ x. not (x == 10))
unfolding is_hex
hex-no_newline c h = ground arith

-- The bytes of an encoded frame are one line: they end in the only line feed among them.
pub encode_frame_line :
    (kind request_id operation : Text) (fields : Fields) (bytes : List ℕ)
    → encode_frame kind request_id operation fields ≡ ok bytes
    → (body : List ℕ) × (bytes ≡ body ++ (10 ∷ []))
      × Lacks 10 body
      × (length bytes ≤ max_frame_bytes)
encode_frame_line kind request_id operation fields bytes h =
    let (tokens, e, b, short, k, r, o) =
      encode_frame_parts kind request_id operation fields bytes h in
    let (back, plain) = decode_fields-encode_fields [] fields tokens e in
    let parts = codes "KP1" ∷ kind ∷ request_id ∷ operation ∷ tokens in
    let printable : All (λ t. all is_token_char t ≡ true) parts =
      printable_parts kind request_id operation tokens k r o plain in
    let payload = join b'|' parts in
    let crc_text = print_hex4 (crc16_ccitt payload) in
    (
      payload ++ (b'*' ∷ crc_text),
      b ∙ unfold seal in sym (append_assoc payload (b'*' ∷ crc_text) (10 ∷ [])),
      all-append (λ x. not (x == 10)) payload (b'*' ∷ crc_text)
          (all-join (λ x. not (x == 10)) b'|' parts refl
            (All-within is_token_char (λ x. not (x == 10)) parts
              (λ t. all-Within is_token_char (λ x. not (x == 10)) t newline-lacks) printable))
          (all-cons (λ x. not (x == 10)) b'*' crc_text refl
            (all-Within is_hex (λ x. not (x == 10)) crc_text hex-no_newline
              (all-print_hex4 (crc16_ccitt payload)))),
      leb→le (length bytes) max_frame_bytes short,
    )
