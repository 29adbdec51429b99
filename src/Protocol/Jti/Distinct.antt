-- ===== src/Protocol/Jti/Distinct.antt =====
-- When two token identifiers are the same.
use Prim.Native.Char.{Char, code}
use Prim.Native.Nat.{bit_and, bit_or}
use Prim.Native.String
use text.Mathlib.TextLemmas
use text.Mathlib.TextLemmas.{nil-append, cons-append, append-nil, append_assoc}
use openid_tls_connector.Common.{
  ℕ, zero, suc, ◌+◌, ◌-◌, ◌/◌, ◌%◌, ◌≤◌, ◌<◌, String, ◌≡◌, refl, sym, ap, ◌∙◌, ◌↔◌, Bool, true,
  ◌&&◌, List, [], ◌∷◌, ◌++◌, arith, eqb, eqb_iff, Bool-cases, inl, inr, ltb, leb, if◌then◌else◌,
  length, get_or, set, All,
}
use openid_tls_connector.External.{Bytes}
use openid_tls_connector.Protocol.Jti.{hex_digit, hex2, set_version, format_jti, random_jti}

-- Over a small range, check every value.
all_below : ℕ → (ℕ → Bool) → Bool
all_below zero p = true
all_below (suc n) p = p n && all_below n p

all_below_sound : (n : ℕ) (p : ℕ → Bool) (v : ℕ) → all_below n p ≡ true → v < n → p v ≡ true
unfolding all_below
all_below_sound zero p v h lt = absurd (omega arith)
all_below_sound (suc n) p v h lt = ground (arith, all_below_sound n p v)

version_table : all_below 256 (λ v. eqb (bit_or (bit_and v 0x0f) 0x40) (0x40 + v % 16)) ≡ true
unfolding all_below
version_table = refl

variant_table : all_below 256 (λ v. eqb (bit_or (bit_and v 0x3f) 0x80) (0x80 + v % 64)) ≡ true
unfolding all_below
variant_table = refl

version_bits : (v : ℕ) → v < 256 → bit_or (bit_and v 0x0f) 0x40 ≡ 0x40 + v % 16
version_bits v h = (eqb_iff _ _).0 (all_below_sound 256 _ v version_table h)

variant_bits : (v : ℕ) → v < 256 → bit_or (bit_and v 0x3f) 0x80 ≡ 0x80 + v % 64
variant_bits v h = (eqb_iff _ _).0 (all_below_sound 256 _ v variant_table h)

-- The value of a hexadecimal digit.
digit_value : ℕ → ℕ
digit_value n = if leb b'a' n then n - b'a' + 10 else n - b'0'

-- The values of the digits of a text, its dashes left out.
digits : String → List ℕ
digits String.[] = []
digits (String.◌∷◌ c s) =
    let rest = digits s in if eqb (code c) b'-' then rest else digit_value (code c) ∷ rest

digit_table :
    all_below 16 (λ d. eqb (digit_value (code (hex_digit d))) d && ltb b'-' (code (hex_digit d)))
    ≡ true
unfolding all_below digit_value
digit_table = refl

digits-cons :
    (c : Char) (d : ℕ) (s : String)
    → eqb (digit_value (code c)) d && ltb b'-' (code c) ≡ true
    → digits (String.◌∷◌ c s) ≡ d ∷ digits s
unfolding digits
digits-cons c d s h = ground arith

digits-hex_digit :
    (d : ℕ) (s : String) → d < 16 → digits (String.◌∷◌ (hex_digit d) s) ≡ d ∷ digits s
digits-hex_digit d s h = digits-cons (hex_digit d) d s (all_below_sound 16 _ d digit_table h)

digits-hex2 :
    (b : ℕ) (s : String)
    → b < 256
    → digits (String.◌++◌ (hex2 b) s) ≡ (b / 16) ∷ (b % 16) ∷ digits s
unfolding hex2
digits-hex2 b s h =
    rw (cons-append, cons-append, nil-append)
      (digits-hex_digit (b / 16) _ (omega arith)
        ∙ ap (◌∷◌ (b / 16)) (digits-hex_digit (b % 16) s (omega arith)))

-- The digits of `k` bytes from the place `i` on.
abbrev run_digits : Bytes → ℕ → ℕ → List ℕ
run_digits bytes i zero = []
run_digits bytes i (suc k) =
    (get_or bytes i 0 / 16) ∷ (get_or bytes i 0 % 16) ∷ run_digits bytes (suc i) k

AreBytes : Bytes → Type 0
AreBytes bytes = (i : ℕ) → get_or bytes i 0 < 256

digits-append : (s t : String) → digits (String.◌++◌ s t) ≡ digits s ++ digits t
unfolding digits
digits-append String.[] t = rw nil-append
digits-append (String.◌∷◌ c s) t = rw cons-append (ground (arith, digits-append s t))

digits-at :
    (bytes : Bytes)
    → AreBytes bytes
    → (i : ℕ)
    → digits (hex2 (get_or bytes i 0)) ≡ (get_or bytes i 0 / 16) ∷ (get_or bytes i 0 % 16) ∷ []
unfolding AreBytes digits
digits-at bytes small i =
    ap digits (sym (TextLemmas.append-nil (hex2 (get_or bytes i 0))))
    ∙ digits-hex2 (get_or bytes i 0) String.[] (small i)

digits-nil : digits "" ≡ []
unfolding digits
digits-nil = refl

digits-dash : digits "-" ≡ []
unfolding digits
digits-dash = refl

digits-format_jti :
    (bytes : Bytes) → AreBytes bytes → digits (format_jti bytes) ≡ run_digits bytes 0 16
unfolding format_jti
digits-format_jti bytes small = simp (digits-append, digits-at bytes small, digits-nil, digits-dash)

run_digits-inj :
    (v w : Bytes) (i k : ℕ)
    → run_digits v i k ≡ run_digits w i k
    → (p : ℕ) → i ≤ p
    → p < i + k
    → get_or v p 0 ≡ get_or w p 0
run_digits-inj v w i zero e p low high = absurd (omega arith)
run_digits-inj v w i (suc k) e p low high = elim (Bool-cases (eqb i p)) [
  | inl here ↦
      let same : i ≡ p = ground arith in
      let high_digit : get_or v i 0 / 16 ≡ get_or w i 0 / 16 = cc in
      let low_digit : get_or v i 0 % 16 ≡ get_or w i 0 % 16 = cc in
      let byte : get_or v i 0 ≡ get_or w i 0 = omega arith in rw (← same) byte
  | inr there ↦ run_digits-inj v w (suc i) k (ground arith) p (ground arith) (omega arith)
]

-- Lists of one length, equal at every place, are equal.
list_ext :
    (v w : Bytes)
    → length v ≡ length w
    → ((p : ℕ) → p < length v → get_or v p 0 ≡ get_or w p 0)
    → v ≡ w
list_ext [] [] e h = refl
list_ext [] (b ∷ w) e h = absurd (omega (arith, e))
list_ext (a ∷ v) [] e h = absurd (omega (arith, e))
list_ext (a ∷ v) (b ∷ w) e h =
    let rest = list_ext v w (omega (arith, e)) (λ p lt. h (suc p) (omega arith)) in
    let first = h 0 (omega arith) in cc

length-set : (xs : Bytes) (i v : ℕ) → length (set xs i v) ≡ length xs
length-set [] i v = refl
length-set (a ∷ xs) zero v = refl
length-set (a ∷ xs) (suc i) v = ap suc (length-set xs i v)

get_or-set :
    (xs : Bytes) (i v p : ℕ)
    → i < length xs
    → get_or (set xs i v) p 0 ≡ (if eqb i p then v else get_or xs p 0)
get_or-set [] i v p h = absurd (omega arith)
get_or-set (a ∷ xs) zero v zero h = refl
get_or-set (a ∷ xs) zero v (suc p) h = ground arith
get_or-set (a ∷ xs) (suc i) v zero h = ground arith
get_or-set (a ∷ xs) (suc i) v (suc p) h = ground (arith, get_or-set xs i v p)

-- The bits of the byte at a place that are random: 4 of the version's byte, 6 of the variant's.
abbrev pub free_bits : ℕ → ℕ → ℕ
free_bits p v = if eqb p 6 then v % 16 else if eqb p 8 then v % 64 else v

abbrev settled : ℕ → ℕ → ℕ
settled p v = if eqb p 6 then 0x40 + v % 16 else if eqb p 8 then 0x80 + v % 64 else v

get_or-set_version :
    (r : Bytes)
    → length r ≡ 16
    → AreBytes r
    → (p : ℕ) → get_or (set_version r) p 0 ≡ settled p (get_or r p 0)
unfolding set_version AreBytes
get_or-set_version r n small p =
    let version = bit_or (bit_and (get_or r 6 0) 0x0f) 0x40 in
    let versioned = set r 6 version in
    let variant = bit_or (bit_and (get_or versioned 8 0) 0x3f) 0x80 in
    let same_length : length versioned ≡ 16 = length-set r 6 version ∙ n in
    let kept : get_or versioned 8 0 ≡ get_or r 8 0 = get_or-set r 6 version 8 (omega (arith, n)) in
    let eighth : variant ≡ 0x80 + get_or r 8 0 % 64 =
      ap (λ z. bit_or (bit_and z 0x3f) 0x80) kept ∙ variant_bits (get_or r 8 0) (small 8) in
    ground (
      arith,
      get_or-set versioned 8 variant p,
      get_or-set r 6 version p,
      version_bits (get_or r 6 0),
      small 6,
    )

set_version-AreBytes : (r : Bytes) → length r ≡ 16 → AreBytes r → AreBytes (set_version r)
unfolding AreBytes
set_version-AreBytes r n small p = ground (arith, get_or-set_version r n small p, small p)

length-set_version : (r : Bytes) → length (set_version r) ≡ length r
unfolding set_version
length-set_version r = length-set _ 8 _ ∙ length-set r 6 _

AreBytes-All : (r : Bytes) → All (λ b. b < 256) r → AreBytes r
unfolding AreBytes
AreBytes-All [] h i = omega arith
AreBytes-All (b ∷ r) (small, h) zero = small
AreBytes-All (b ∷ r) (small, h) (suc i) = unfold AreBytes in AreBytes-All r h i

-- Two token identifiers, each of 16 random bytes, are the same exactly when the bytes agree in their
-- 122 free bits: in all but the four bits of the version and the two of the variant.
pub random_jti_iff :
    (a b : Bytes)
    → length a ≡ 16
    → length b ≡ 16
    → All (λ v. v < 256) a
    → All (λ v. v < 256) b
    → (random_jti a ≡ random_jti b)
      ↔ ((p : ℕ) → p < 16 → free_bits p (get_or a p 0) ≡ free_bits p (get_or b p 0))
unfolding random_jti
random_jti_iff a b n m bytes bytes' =
    let small = AreBytes-All a bytes in
    let small' = AreBytes-All b bytes' in
    let at_a = get_or-set_version a n small in
    let at_b = get_or-set_version b m small' in
    let lengths : length (set_version a) ≡ length (set_version b) =
      length-set_version a ∙ n ∙ sym (length-set_version b ∙ m) in
    (
      λ e p lt.
          let runs : run_digits (set_version a) 0 16 ≡ run_digits (set_version b) 0 16 =
            sym (digits-format_jti (set_version a) (set_version-AreBytes a n small))
            ∙ ap digits e
            ∙ digits-format_jti (set_version b) (set_version-AreBytes b m small') in
          let byte = run_digits-inj (set_version a) (set_version b) 0 16 runs p (omega arith) lt in
          ground (arith, at_a p, at_b p),
      λ same. ap format_jti (
          list_ext (set_version a) (set_version b) lengths
            (λ p lt. ground (arith, at_a p, at_b p, same p, length-set_version a))),
    )
