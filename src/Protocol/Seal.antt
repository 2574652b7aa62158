-- ===== src/Protocol/Seal.antt =====
-- The CRC and the line end that close a frame's payload are taken off again.
use Prim.Native.Nat.{bit_xor}
use mathlib.Core.List.{append_assoc}
use keg_pulse.Base.{
  ℕ, zero, suc, ◌*◌, ◌%◌, ◌/◌, ◌<◌, ◌^◌, ◌≡◌, refl, true, List, [], ◌∷◌, ◌++◌, arith, length,
}
use keg_pulse.Base.Text.{Text}
use keg_pulse.Protocol.Bytes.{is_hex, print_hex4, hex_digit}
use keg_pulse.Protocol.BytesLaws.{
  Lacks, unsnoc-append, rsplit-append, lacks, parse_hex-print_hex4, all-print_hex4,
  hex_digit-is_hex,
}
use keg_pulse.Protocol.Frames.{
  ok, crc_bit, crc_bits, crc_from, crc16_ccitt, seal, strip_line, is_crc_text, open_seal,
}

-- The CRC is a 16-bit number.
crc_bit-lt : (crc : ℕ) → crc_bit crc < 2 ^ 16
unfolding crc_bit
crc_bit-lt crc = ground arith

crc_bits-lt : (n crc : ℕ) → crc_bits (suc n) crc < 2 ^ 16
unfolding crc_bits
crc_bits-lt zero crc = crc_bit-lt crc
crc_bits-lt (suc n) crc = crc_bits-lt n (crc_bit crc)

crc_from-lt : (crc : ℕ) (bytes : List ℕ) → crc < 2 ^ 16 → crc_from crc bytes < 2 ^ 16
unfolding crc_from
crc_from-lt crc [] h = h
crc_from-lt crc (byte ∷ bytes) h =
    crc_from-lt (crc_bits 8 (bit_xor crc (byte * 256))) bytes
      (crc_bits-lt 7 (bit_xor crc (byte * 256)))

crc16_ccitt-lt : (bytes : List ℕ) → crc16_ccitt bytes < 2 ^ 16
unfolding crc16_ccitt
crc16_ccitt-lt bytes = crc_from-lt 0xFFFF bytes (omega arith)

crc_text-Lacks : (n : ℕ) → Lacks b'*' (print_hex4 n)
unfolding is_hex
crc_text-Lacks n = lacks b'*' is_hex (print_hex4 n) refl (all-print_hex4 n)

length-print_hex4 : (n : ℕ) → length (print_hex4 n) ≡ 4
unfolding print_hex4
length-print_hex4 n = refl

-- The seal of a payload is that payload's.
pub open_seal-seal :
    (payload : Text) → open_seal (payload ++ (b'*' ∷ print_hex4 (crc16_ccitt payload))) ≡ ok payload
unfolding open_seal is_crc_text
open_seal-seal payload =
    let crc = crc16_ccitt payload in
    ground (
      arith,
      rsplit-append b'*' payload (print_hex4 crc) (crc_text-Lacks crc),
      length-print_hex4 crc,
      all-print_hex4 crc,
      parse_hex-print_hex4 crc (crc16_ccitt-lt payload),
    )

strip_line_lem :
    (text : Text) (d : ℕ)
    → is_hex d ≡ true
    → strip_line ((text ++ (d ∷ [])) ++ (10 ∷ [])) ≡ ok (text ++ (d ∷ []))
unfolding strip_line is_hex
strip_line_lem text d h = ground (arith, unsnoc-append (text ++ (d ∷ [])) 10, unsnoc-append text d)

hex_digits_end :
    (n : ℕ) → (start : Text) × (d : ℕ) × (print_hex4 n ≡ start ++ (d ∷ [])) × (is_hex d ≡ true)
unfolding print_hex4
hex_digits_end n = (
  hex_digit (n / 4096 % 16) ∷ hex_digit (n / 256 % 16) ∷ hex_digit (n / 16 % 16) ∷ [],
  hex_digit (n % 16),
  refl,
  hex_digit-is_hex (n % 16) (omega arith),
)

pub strip_line-seal :
    (payload : Text)
    → strip_line (seal payload) ≡ ok (payload ++ (b'*' ∷ print_hex4 (crc16_ccitt payload)))
unfolding seal
strip_line-seal payload =
    let (start, d, e, h) = hex_digits_end (crc16_ccitt payload) in
    rw e (
      rw (← append_assoc payload (b'*' ∷ start) (d ∷ [])) (
        rw
          (
            ← append_assoc payload (b'*' ∷ (start ++ (d ∷ []))) (10 ∷ []),
            ← append_assoc payload (b'*' ∷ start) (d ∷ []),
          )
          (strip_line_lem (payload ++ (b'*' ∷ start)) d h)))
