-- ===== src/Common/Text/Splits.antt =====
-- What stripping a prefix and splitting at a character find.
use Prim.Native.Char.{Char, code}
use Prim.Native.Nat.{ℕ}
use Prim.Native.String
use Prim.Native.String.{String}
use mathlib.Core.Path.{◌≡◌, sym, ap, ◌∙◌}
use mathlib.Core.Logic.{◌≢◌, ◌↔◌, inl, inr}
use mathlib.Core.Option.{some}
use mathlib.Core.Bool.{true, false}
use native.Mathlib.Omega.{arith}
use text.Mathlib.TextLemmas.{nil-append, cons-append}
use text.Mathlib.TextEquality.{Char-path}
use openid_tls_connector.Common.Tests.{eqb, Bool-cases, Option-cases}
use openid_tls_connector.Common.Lists.{All}
use openid_tls_connector.Common.Text.{strip_prefix, split_once, codes}

strip_prefix-append : (p r : String) → strip_prefix p (String.◌++◌ p r) ≡ some r
unfolding strip_prefix
strip_prefix-append String.[] r = rw nil-append
strip_prefix-append (String.◌∷◌ d p) r =
    let same : eqb (code d) (code d) ≡ true = ground arith in
    rw (cons-append d p r, strip_prefix, same) (strip_prefix-append p r)

strip_prefix_shape : (p s r : String) → strip_prefix p s ≡ some r → s ≡ String.◌++◌ p r
unfolding strip_prefix
strip_prefix_shape String.[] s r h = rw nil-append (ground arith)
strip_prefix_shape (String.◌∷◌ d p) String.[] r h = cc
strip_prefix_shape (String.◌∷◌ d p) (String.◌∷◌ c s) r h =
    elim (Bool-cases (eqb (code d) (code c))) [
      | inr e ↦ absurd (ground arith)
      | inl e ↦
          let same : d ≡ c = Char-path d c (ground arith) in
          let rest = strip_prefix_shape p s r (ground arith) in
          rw (cons-append d p r) (rw (sym same) (ap (String.◌∷◌ d) rest))
    ]

pub strip_prefix_iff : (p s r : String) → (strip_prefix p s ≡ some r) ↔ (s ≡ String.◌++◌ p r)
strip_prefix_iff p s r = (strip_prefix_shape p s r, λ h. rw h (strip_prefix-append p r))

-- The text has no character of the code.
abbrev pub IsWithout : ℕ → String → Type 0
IsWithout d s = All (λ n. n ≢ d) (codes s)

module _ (sep : Char) where
  split_once_of_shape :
      (a b : String)
      → IsWithout (code sep) a
      → split_once (code sep) (String.◌++◌ a (String.◌∷◌ sep b)) ≡ some (a, b)
  unfolding split_once
  split_once_of_shape String.[] b w = rw nil-append (ground arith)
  split_once_of_shape (String.◌∷◌ c a) b (apart, w) =
      let different : eqb (code c) (code sep) ≡ false = ground arith in
      rw (cons-append c a (String.◌∷◌ sep b), split_once, different, split_once_of_shape a b w)

  split_once_shape :
      (s a b : String)
      → split_once (code sep) s ≡ some (a, b)
      → (s ≡ String.◌++◌ a (String.◌∷◌ sep b)) × IsWithout (code sep) a
  unfolding split_once
  split_once_shape String.[] a b h = cc
  split_once_shape (String.◌∷◌ c s) a b h = elim (Bool-cases (eqb (code c) (code sep))) [
    | inl e ↦
        let same : c ≡ sep = Char-path c sep (ground arith) in
        let ea : a ≡ String.[] = ground arith in
        let eb : s ≡ b = ground arith in
        (rw (ea, nil-append) (ap (λ d. String.◌∷◌ d s) same ∙ ap (String.◌∷◌ sep) eb), rw ea tt)
    | inr e ↦ elim (Option-cases (split_once (code sep) s)) [
      | inl q ↦ absurd (ground arith)
      | inr ((a', b'), q) ↦
          let ea : a ≡ String.◌∷◌ c a' = ground arith in
          let eb : b' ≡ b = ground arith in
          let (shape, w) = split_once_shape s a' b' q in
          (
            rw (ea, cons-append c a' (String.◌∷◌ sep b))
                (ap (String.◌∷◌ c) (shape ∙ ap (λ t. String.◌++◌ a' (String.◌∷◌ sep t)) eb)),
            rw ea (ground arith, w),
          )
    ]
  ]

  pub split_once_iff :
      (s a b : String)
      → (split_once (code sep) s ≡ some (a, b))
        ↔ ((s ≡ String.◌++◌ a (String.◌∷◌ sep b)) × IsWithout (code sep) a)
  split_once_iff s a b = (split_once_shape s a b, λ (e, w). rw e (split_once_of_shape a b w))
