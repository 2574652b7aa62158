-- ===== src/Protocol/Tokens.antt =====
-- The tokens of a frame: what `encode_fields` makes, `decode_fields` reads back.
use keg_pulse.Base.{
  ℕ, ◌≡◌, refl, Bool, true, false, ◌&&◌, List, [], ◌∷◌, ◌++◌, arith, leb, ◌==◌, not, All, ◌⊎◌, inl,
  inr,
}
use keg_pulse.Base.Text.{Text, codes, =t_to}
use keg_pulse.Protocol.Bytes.{all, is_hex, is_op_char, is_key_char, is_value_char, split}
use keg_pulse.Protocol.BytesLaws.{
  Within, all-Within, all-append, all-cons, split-Lacks, split-append, lacks,
}
use keg_pulse.Protocol.Frames.{
  Fields, ok, is_kind, is_request_id, is_operation, is_key, is_value, contains, encode_fields,
  pair_of, decode_fields,
}

-- Characters that a token of a frame may hold: none of the separators.
abbrev is_plain : ℕ → Bool
is_plain c = leb b'-' c && leb c b'z' && not (c == b'=')

abbrev is_payload_char : ℕ → Bool
is_payload_char c = leb b'-' c && leb c b'|'

abbrev pub is_token_char : ℕ → Bool
is_token_char c = leb b'-' c && leb c b'z'

hex-plain : Within is_hex is_plain
unfolding is_hex
hex-plain c h = ground arith

op-plain : Within is_op_char is_plain
unfolding is_op_char
op-plain c h = ground arith

key-plain : Within is_key_char is_plain
unfolding is_key_char
key-plain c h = ground arith

value-plain : Within is_value_char is_plain
unfolding is_value_char
value-plain c h = ground arith

key-all : (key : Text) → is_key key ≡ true → all is_key_char key ≡ true
unfolding is_key
key-all key h = ground arith

value-all : (value : Text) → is_value value ≡ true → all is_value_char value ≡ true
unfolding is_value
value-all value h = ground arith

-- The key and value of a token are found again.
pair_of-split :
    (key value : Text)
    → is_key key ≡ true
    → is_value value ≡ true
    → pair_of (split b'=' (key ++ (b'=' ∷ value))) ≡ ok (key, value)
unfolding pair_of
pair_of-split key value k v =
    let key_lacks =
      lacks b'=' is_plain key refl
        (all-Within is_key_char is_plain key key-plain (key-all key k)) in
    let value_lacks =
      lacks b'=' is_plain value refl
        (all-Within is_value_char is_plain value value-plain (value-all value v)) in
    rw (split-append b'=' key value key_lacks, split-Lacks b'=' value value_lacks)

-- What a successful step of `encode_fields` has checked and made.
encode_fields_parts :
    (seen : List Text) (key value : Text) (fields : Fields) (tokens : List Text)
    → encode_fields seen ((key, value) ∷ fields) ≡ ok tokens
    → (rest : List Text) × (encode_fields (key ∷ seen) fields ≡ ok rest)
      × (tokens ≡ (key ++ (b'=' ∷ value)) ∷ rest)
      × (contains key seen ≡ false)
      × (is_key key ≡ true)
      × (is_value value ≡ true)
unfolding encode_fields
encode_fields_parts seen key value fields tokens h = ground arith

token-plain :
    (key value : Text)
    → is_key key ≡ true
    → is_value value ≡ true
    → all is_token_char (key ++ (b'=' ∷ value)) ≡ true
token-plain key value k v =
    let plain : Within is_plain is_token_char = λ c h. ground arith in
    all-append is_token_char key (b'=' ∷ value)
      (all-Within is_key_char is_token_char key (λ c h. plain c (key-plain c h)) (key-all key k))
      (all-cons is_token_char b'=' value refl (
        all-Within is_value_char is_token_char value (λ c h. plain c (value-plain c h))
          (value-all value v)))

decode_fields_cons :
    (seen : List Text) (key value : Text) (fields : Fields) (rest : List Text)
    → contains key seen ≡ false
    → is_key key ≡ true
    → is_value value ≡ true
    → decode_fields (key ∷ seen) rest ≡ ok fields
    → decode_fields seen ((key ++ (b'=' ∷ value)) ∷ rest) ≡ ok ((key, value) ∷ fields)
unfolding decode_fields
decode_fields_cons seen key value fields rest fresh k v back =
    rw (pair_of-split key value k v, fresh, k, v, back)

-- The field tokens are read back as the fields, and hold no separator.
pub decode_fields-encode_fields :
    (seen : List Text) (fields : Fields) (tokens : List Text)
    → encode_fields seen fields ≡ ok tokens
    → (decode_fields seen tokens ≡ ok fields) × All (λ t. all is_token_char t ≡ true) tokens
decode_fields-encode_fields seen [] tokens h = unfold encode_fields decode_fields in ground arith
decode_fields-encode_fields seen ((key, value) ∷ fields) tokens h =
    let (rest, e, t, fresh, k, v) = encode_fields_parts seen key value fields tokens h in
    let (back, plain) = decode_fields-encode_fields (key ∷ seen) fields rest e in
    rw t (
      decode_fields_cons seen key value fields rest fresh k v back,
      (token-plain key value k v, plain),
    )

kind_cases :
    (kind : Text)
    → is_kind kind ≡ true
    → (kind ≡ codes "Q") ⊎ (kind ≡ codes "R") ⊎ (kind ≡ codes "E")
unfolding is_kind
kind_cases kind h =
    ground (arith, =t_to kind (codes "Q"), =t_to kind (codes "R"), =t_to kind (codes "E"))

pub kind-plain : (kind : Text) → is_kind kind ≡ true → all is_token_char kind ≡ true
unfolding all
kind-plain kind h = elim (kind_cases kind h) [
  | inl e ↦ rw e
  | inr (inl e) ↦ rw e
  | inr (inr e) ↦ rw e
]

pub request_id-plain : (t : Text) → is_request_id t ≡ true → all is_token_char t ≡ true
unfolding is_request_id
request_id-plain t h =
    all-Within is_hex is_token_char t (λ c k. ground (arith, hex-plain c k)) (ground arith)

pub operation-plain : (t : Text) → is_operation t ≡ true → all is_token_char t ≡ true
unfolding is_operation
operation-plain t h =
    all-Within is_op_char is_token_char t (λ c k. ground (arith, op-plain c k)) (ground arith)
