-- ===== src/Client/Secret.antt =====
-- The constant-time comparison decides equality.
use Prim.Native.Nat.{bit_or, bit_xor}
use openid_tls_connector.Common.{ℕ, ◌≡◌, refl, ◌↔◌, true, List, [], ◌∷◌, arith, length}
use openid_tls_connector.Client.{fold_diff, constant_time_eq}
use openid_tls_connector.Client.Bits.{bit_or-eq-zero, bit_xor-eq-zero, bit_xor_self}

fold_diff-zero :
    (diff : ℕ) (xs ys : List ℕ)
    → length xs ≡ length ys
    → fold_diff diff xs ys ≡ 0
    → (diff ≡ 0) × (xs ≡ ys)
unfolding fold_diff
fold_diff-zero diff [] [] e h = (h, refl)
fold_diff-zero diff [] (y ∷ ys) e h = absurd (omega arith)
fold_diff-zero diff (x ∷ xs) [] e h = absurd (omega arith)
fold_diff-zero diff (x ∷ xs) (y ∷ ys) e h =
    let (here, rest) = fold_diff-zero (bit_or diff (bit_xor x y)) xs ys (omega arith) h in
    let (old, new) = bit_or-eq-zero diff (bit_xor x y) here in (old, cc (bit_xor-eq-zero x y new))

fold_diff_self : (xs : List ℕ) → fold_diff 0 xs xs ≡ 0
unfolding fold_diff
fold_diff_self [] = refl
fold_diff_self (x ∷ xs) = rw (bit_xor_self x) (fold_diff_self xs)

-- The comparison answers true exactly for equal byte strings.
pub constant_time_eq_iff : (a b : List ℕ) → (constant_time_eq a b ≡ true) ↔ (a ≡ b)
unfolding constant_time_eq
constant_time_eq_iff a b = (
  λ h. (fold_diff-zero 0 a b (ground arith) (ground arith)).1,
  λ e. ground (arith, fold_diff_self a, fold_diff_self b),
)
