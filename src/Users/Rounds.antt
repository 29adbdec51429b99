-- ===== src/Users/Rounds.antt =====
-- Single rounds of the loop of `split_rdns`, by the byte that it looks at.
use mathlib.Core.List.{append_assoc}
use openid_tls_connector.Common.{
  ℕ, suc, ◌+◌, String, ◌≡◌, refl, sym, ap, ◌∙◌, ◌≢◌, List, [], ◌∷◌, ◌++◌, some, arith, length,
  length-append, get_or,
}
use openid_tls_connector.Common.Text.{byte_slice, byte_slice_from}
use openid_tls_connector.Users.{split_loop}

abbrev pub backslash : ℕ
backslash = b'\\'

abbrev pub comma : ℕ
comma = b','

abbrev pub IsPlain : ℕ → Type 0
IsPlain b = (b ≢ backslash) × (b ≢ comma)

-- The bytes from place `i` on.
pub record Rest (bytes : List ℕ) (i : ℕ) (ys : List ℕ) : Type 0 where
  pub before : List ℕ
  pub joined : bytes ≡ before ++ ys
  pub place : length before ≡ i

pub get_or-append : (xs ys : List ℕ) (d : ℕ) → get_or (xs ++ ys) (length xs) d ≡ get_or ys 0 d
get_or-append [] ys d = refl
get_or-append (x ∷ xs) ys d = get_or-append xs ys d

Rest-get_or :
    {bytes : List ℕ} {i : ℕ} {ys : List ℕ} → Rest bytes i ys → get_or bytes i 0 ≡ get_or ys 0 0
Rest-get_or {ys} r = rw (r.joined, ← r.place) (get_or-append r.before ys 0)

Rest-length :
    {bytes : List ℕ} {i : ℕ} {ys : List ℕ} → Rest bytes i ys → length bytes ≡ i + length ys
Rest-length {ys} r = rw (r.joined, ← r.place) (length-append r.before ys)

pub Rest-append :
    {bytes : List ℕ} {i : ℕ} (zs ys : List ℕ)
    → Rest bytes i (zs ++ ys)
    → Rest bytes (i + length zs) ys
Rest-append zs ys r = record {
  before = r.before ++ zs;
  joined = r.joined ∙ sym (append_assoc r.before zs ys);
  place = length-append r.before zs ∙ ap (λ (k : ℕ). k + length zs) r.place;
}

module _ (dn : String) (bytes : List ℕ) (fuel start i : ℕ) where
  pub round_plain :
      (b : ℕ) (ys : List ℕ)
      → IsPlain b
      → Rest bytes i (b ∷ ys)
      → split_loop dn bytes (suc fuel) start i ≡ split_loop dn bytes fuel start (i + 1)
  unfolding split_loop
  round_plain b ys p r = ground (arith, Rest-get_or r, Rest-length r)

  pub round_escape :
      (d : ℕ) (ys : List ℕ)
      → Rest bytes i (backslash ∷ d ∷ ys)
      → split_loop dn bytes (suc fuel) start i ≡ split_loop dn bytes fuel start (i + 2)
  unfolding split_loop
  round_escape d ys r = ground (arith, Rest-get_or r, Rest-length r)

  pub round_last_backslash :
      Rest bytes i (backslash ∷ [])
      → split_loop dn bytes (suc fuel) start i ≡ split_loop dn bytes fuel start (i + 1)
  unfolding split_loop
  round_last_backslash r = ground (arith, Rest-get_or r, Rest-length r)

  pub round_comma :
      (ys : List ℕ) (part : String) (parts : List String)
      → Rest bytes i (comma ∷ ys)
      → byte_slice dn start i ≡ some part
      → split_loop dn bytes fuel (i + 1) (i + 1) ≡ some parts
      → split_loop dn bytes (suc fuel) start i ≡ some (part ∷ parts)
  unfolding split_loop
  round_comma ys part parts r e h = ground (arith, Rest-get_or r, Rest-length r)

  pub round_end :
      (part : String)
      → Rest bytes i []
      → byte_slice_from dn start ≡ some part
      → split_loop dn bytes (suc fuel) start i ≡ some (part ∷ [])
  unfolding split_loop
  round_end part r e = ground (arith, Rest-length r)
