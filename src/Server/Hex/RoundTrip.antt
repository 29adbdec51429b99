-- ===== src/Server/Hex/RoundTrip.antt =====
-- The key that 64 hexadecimal characters write is the key that is read.
use Prim.Native.Char.{Char, code}
use Prim.Native.String
use text.Mathlib.TextLemmas.{nil-append, cons-append, append_assoc}
use openid_tls_connector.Common.{
  ℕ, suc, ◌+◌, ◌*◌, ◌<◌, String, ◌≡◌, refl, sym, ap, ◌∙◌, [], ◌∷◌, some, arith, length,
}
use openid_tls_connector.Common.Text.{utf8, as_bytes, byte_slice}
use openid_tls_connector.Common.Text.Slices.{size, size-append, size-nil, byte_slice-append}
use openid_tls_connector.External.{Bytes}
use openid_tls_connector.Server.Hex.{
  hex_digit, digits_u8, from_str_radix_16, hex_loop, hex_to_32_bytes,
}

-- The text begins with the two digits of the byte; `rest` is what follows.
pub record IsPair (s : String) (b : ℕ) (rest : String) : Type 0 where
  pub first : Char
  pub second : Char
  pub high : ℕ
  pub low : ℕ
  pub shape : s ≡ String.◌∷◌ first (String.◌∷◌ second rest)
  pub first_digit : hex_digit (code first) ≡ some high
  pub second_digit : hex_digit (code second) ≡ some low
  pub value : b ≡ high * 16 + low

-- The text is the bytes in hexadecimal, two digits of either case for each.
abbrev pub IsHex : String → Bytes → Type 0
IsHex s [] = s ≡ String.[]
IsHex s (b ∷ bs) = (rest : String) × IsPair s b rest × IsHex rest bs

digit_small : (n d : ℕ) → hex_digit n ≡ some d → (n < 128) × (d < 16)
unfolding hex_digit
digit_small n d h = (ground arith, ground arith)

ascii-utf8 : (n : ℕ) → n < 128 → utf8 n ≡ n ∷ []
unfolding utf8
ascii-utf8 n h = ground arith

abbrev two : Char → Char → String
two c d = String.◌∷◌ c (String.◌∷◌ d String.[])

as_bytes-two :
    (c d : Char) → code c < 128 → code d < 128 → as_bytes (two c d) ≡ code c ∷ code d ∷ []
unfolding as_bytes
as_bytes-two c d h k = rw (ascii-utf8 (code c) h, ascii-utf8 (code d) k)

-- A pair of digits is read as its value, the first digit being no sign.
radix-pair :
    (a b hi lo : ℕ)
    → hex_digit a ≡ some hi
    → hex_digit b ≡ some lo
    → from_str_radix_16 (a ∷ b ∷ []) ≡ some (hi * 16 + lo)
unfolding from_str_radix_16 digits_u8
radix-pair a b hi lo h k = ground (arith, digit_small a hi h, digit_small b lo k)

-- The slice of a round is the pair at it.
slice-pair :
    (p rest : String) (c d : Char) (i : ℕ)
    → size p ≡ i * 2
    → code c < 128
    → code d < 128
    → byte_slice (String.◌++◌ p (String.◌++◌ (two c d) rest)) (i * 2) (i * 2 + 2) ≡ some (two c d)
slice-pair p rest c d i h small small' =
    let pair_size : size (two c d) ≡ 2 = ap length (as_bytes-two c d small small') in
    rw (sym h, sym pair_size) (byte_slice-append p (two c d) rest)

cons-two : (c d : Char) (s : String) → String.◌∷◌ c (String.◌∷◌ d s) ≡ String.◌++◌ (two c d) s
cons-two c d s = rw (cons-append, cons-append, nil-append)

-- One round, whose pair is read, goes on with the next.
round :
    (hex pair : String) (i n b : ℕ) (bs : Bytes)
    → byte_slice hex (i * 2) (i * 2 + 2) ≡ some pair
    → from_str_radix_16 (as_bytes pair) ≡ some b
    → hex_loop hex (i + 1) n ≡ some (some bs)
    → hex_loop hex i (suc n) ≡ some (some (b ∷ bs))
unfolding hex_loop
round hex pair i n b bs slice value rest = ground arith

rounds :
    (bs : Bytes) (s p : String) (i : ℕ)
    → size p ≡ i * 2
    → IsHex s bs
    → hex_loop (String.◌++◌ p s) i (length bs) ≡ some (some bs)
unfolding hex_loop
rounds [] s p i h e = refl
rounds (b ∷ bs) s p i h (rest, pair, more) =
    let c = pair.first in
    let d = pair.second in
    let small = (digit_small (code c) pair.high pair.first_digit).0 in
    let small' = (digit_small (code d) pair.low pair.second_digit).0 in
    let shape : s ≡ String.◌++◌ (two c d) rest = pair.shape ∙ cons-two c d rest in
    let passed : String.◌++◌ (String.◌++◌ p (two c d)) rest ≡ String.◌++◌ p s =
      append_assoc p (two c d) rest ∙ ap (String.◌++◌ p) (sym shape) in
    let longer : size (String.◌++◌ p (two c d)) ≡ (i + 1) * 2 =
      size-append p (two c d) ∙ omega (arith, h, ap length (as_bytes-two c d small small')) in
    round (String.◌++◌ p s) (two c d) i (length bs) b bs
      (rw shape (slice-pair p rest c d i h small small'))
      (rw (as_bytes-two c d small small', pair.value)
        (radix-pair (code c) (code d) pair.high pair.low pair.first_digit pair.second_digit))
      (rw (sym passed) (rounds bs rest (String.◌++◌ p (two c d)) (i + 1) longer more))

size-IsHex : (bs : Bytes) (s : String) → IsHex s bs → size s ≡ 2 * length bs
size-IsHex [] s h = rw h size-nil
size-IsHex (b ∷ bs) s (rest, pair, more) =
    let c = pair.first in
    let d = pair.second in
    let small = (digit_small (code c) pair.high pair.first_digit).0 in
    let small' = (digit_small (code d) pair.low pair.second_digit).0 in
    rw (pair.shape ∙ cons-two c d rest) (
      size-append (two c d) rest
      ∙ omega (arith, ap length (as_bytes-two c d small small'), size-IsHex bs rest more))

-- A text that writes 32 bytes in hexadecimal, in digits of either case, is read as those bytes.
pub hex_to_32_bytes_lem :
    (bs : Bytes) (s : String) → IsHex s bs → length bs ≡ 32 → hex_to_32_bytes s ≡ some (some bs)
unfolding hex_to_32_bytes
hex_to_32_bytes_lem bs s h n =
    let whole : hex_loop s 0 32 ≡ some (some bs) =
      rw (sym n, sym (nil-append s)) (rounds bs s String.[] 0 size-nil h) in
    let sized : size s ≡ 64 = size-IsHex bs s h ∙ ap (λ k. 2 * k) n in rw sized whole
