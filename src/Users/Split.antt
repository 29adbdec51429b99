-- ===== src/Users/Split.antt =====
-- A walk over the characters that finds the parts of a name, and the bytes that its rounds pass.
use Prim.Native.Char.{Char, code}
use Prim.Native.String
use text.Mathlib.TextLemmas
use mathlib.Core.Path.{ap₂}
use openid_tls_connector.Common.{
  ℕ, ◌+◌, ◌<◌, String, ◌≡◌, refl, ap, ◌∙◌, ◌≢◌, inl, inr, Bool, true, false, List, [], ◌∷◌, ◌++◌,
  arith, eqb, ltb, ◌/◌, ◌%◌, if◌then◌else◌, length, All, Bool-cases,
}
use openid_tls_connector.Common.Text.{utf8, width}
use openid_tls_connector.Common.Text.Slices.{size, size-nil, size-cons, size-append}
use openid_tls_connector.Users.{split_loop}
use openid_tls_connector.Users.Rounds.{backslash, comma, IsPlain, Rest, Rest-append, round_plain}

abbrev pub push : String → Char → String
push s c = String.◌++◌ s (String.◌∷◌ c String.[])

-- What RFC 4514 asks: parts end at commas, and a backslash keeps the next character from being read.
-- The current part is in hand, and whether a backslash stands before the next character.
unfoldable pub parts : Bool → String → String → List String
parts escaped cur String.[] = cur ∷ []
parts true cur (String.◌∷◌ c s) = parts false (push cur c) s
parts false cur (String.◌∷◌ c s) =
    let cut = cur ∷ parts false String.[] s in
    let more = parts (eqb (code c) backslash) (push cur c) s in
    if eqb (code c) comma then cut else more

pub utf8-IsPlain : (n : ℕ) → n ≢ backslash → n ≢ comma → All IsPlain (utf8 n)
unfolding utf8
utf8-IsPlain n p q = ground arith

-- Behind the first byte of a character there is no backslash and no comma.
pub utf8_tail : (n : ℕ) → (b : ℕ) × (zs : List ℕ) × (utf8 n ≡ b ∷ zs) × All IsPlain zs
unfolding utf8
utf8_tail n = elim (Bool-cases (ltb n 0x80)) [
  | inl a ↦ (n, [], ground arith, tt)
  | inr a ↦ elim (Bool-cases (ltb n 0x800)) [
    | inl b ↦ (0xc0 + n / 64, (0x80 + n % 64) ∷ [], ground arith, omega arith)
    | inr b ↦ elim (Bool-cases (ltb n 0x10000)) [
      | inl c ↦
          (0xe0 + n / 4096, (0x80 + n / 64 % 64) ∷ (0x80 + n % 64) ∷ [], ground arith, omega arith)
      | inr c ↦ (
        0xf0 + n / 262144,
        (0x80 + n / 4096 % 64) ∷ (0x80 + n / 64 % 64) ∷ (0x80 + n % 64) ∷ [],
        ground arith,
        omega arith,
      )
    ]
  ]
]

pub utf8_ascii : (n : ℕ) → n < 128 → utf8 n ≡ n ∷ []
unfolding utf8
utf8_ascii n h = ground arith

module _ (dn : String) (bytes : List ℕ) where
  -- Plain bytes are passed one by one.
  pub pass :
      (zs ys : List ℕ) (fuel start i : ℕ)
      → All IsPlain zs
      → Rest bytes i (zs ++ ys)
      → split_loop dn bytes (length zs + fuel) start i
        ≡ split_loop dn bytes fuel start (i + length zs)
  pass [] ys fuel start i p r =
      ap₂ (λ (f k : ℕ). split_loop dn bytes f start k) (omega arith) (omega arith)
  pass (z ∷ zs) ys fuel start i (p, ps) r =
      ap (λ (f : ℕ). split_loop dn bytes f start i) (omega arith)
      ∙ round_plain dn bytes (length zs + fuel) start i z (zs ++ ys) p r
      ∙ pass zs ys fuel start (i + 1) ps (Rest-append (z ∷ []) (zs ++ ys) r)
      ∙ ap (λ (k : ℕ). split_loop dn bytes fuel start k) (omega arith)

pub push-append :
    (cur : String) (c : Char) (s : String)
    → String.◌++◌ (push cur c) s ≡ String.◌++◌ cur (String.◌∷◌ c s)
push-append cur c s =
    TextLemmas.append_assoc cur _ s
    ∙ ap (String.◌++◌ cur)
        (TextLemmas.cons-append c _ s ∙ ap (String.◌∷◌ c) (TextLemmas.nil-append s))

pub size-push : (cur : String) (c : Char) → size (push cur c) ≡ size cur + width c
size-push cur c = omega (
  arith,
  size-append cur (push String.[] c),
  size-append cur (String.◌∷◌ c String.[]),
  size-cons c String.[],
  size-nil,
)

pub parts_plain :
    (cur : String) (c : Char) (s : String)
    → code c ≢ backslash
    → code c ≢ comma
    → parts false cur (String.◌∷◌ c s) ≡ parts false (push cur c) s
unfolding parts
parts_plain cur c s p q =
    let other : eqb (code c) comma ≡ false = ground arith in
    let plain : eqb (code c) backslash ≡ false = ground arith in rw (other, plain)

pub parts-comma :
    (cur : String) (c : Char) (s : String)
    → code c ≡ comma
    → parts false cur (String.◌∷◌ c s) ≡ cur ∷ parts false String.[] s
unfolding parts
parts-comma cur c s p = let here : eqb (code c) comma ≡ true = ground arith in rw here

pub parts_escape :
    (cur : String) (c : Char) (s : String)
    → code c ≡ backslash
    → parts false cur (String.◌∷◌ c s) ≡ parts true (push cur c) s
unfolding parts
parts_escape cur c s p =
    let other : eqb (code c) comma ≡ false = ground arith in
    let here : eqb (code c) backslash ≡ true = ground arith in rw (other, here)

pub parts_skip :
    (cur : String) (c : Char) (s : String)
    → parts true cur (String.◌∷◌ c s) ≡ parts false (push cur c) s
unfolding parts
parts_skip cur c s = refl

pub parts-nil : (escaped : Bool) (cur : String) → parts escaped cur String.[] ≡ cur ∷ []
unfolding parts
parts-nil escaped cur = refl
