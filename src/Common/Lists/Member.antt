-- ===== src/Common/Lists/Member.antt =====
-- Membership in a list by the library's derivations, and what the searches find.
use mathlib.Core.Path.{◌≡◌, refl}
use mathlib.Core.Logic.{inl, inr}
use mathlib.Core.Bool.{Bool, true, false}
use mathlib.Core.Option.{some, none}
use mathlib.Core.List.{List, [], ◌∷◌, Memᴰ}
use native.Mathlib.Omega.{arith}
use openid_tls_connector.Common.Tests.{Bool-cases}
use openid_tls_connector.Common.Lists.{find, any}

module _ {ℓ} {A : Type ℓ} where
  pub any-eq-true :
      (p : A → Bool) (xs : List A) → any p xs ≡ true → (a : A) × Memᴰ a xs × (p a ≡ true)
  any-eq-true p [] h = cc
  any-eq-true p (x ∷ xs) h = elim (Bool-cases (p x)) [
    | inl e ↦ (x, Memᴰ.head refl, e)
    | inr e ↦ let (a, m, q) = any-eq-true p xs (ground arith) in (a, Memᴰ.tail m, q)
  ]

  pub any_of_Memᴰ : (p : A → Bool) {a : A} {xs : List A} → Memᴰ a xs → p a ≡ true → any p xs ≡ true
  any_of_Memᴰ p (Memᴰ.head e) h = ground arith
  any_of_Memᴰ p (Memᴰ.tail m) h = ground (arith, any_of_Memᴰ p m h)

  pub find-eq-some :
      (p : A → Bool) (xs : List A) {a : A} → find p xs ≡ some a → Memᴰ a xs × (p a ≡ true)
  find-eq-some p [] h = cc
  find-eq-some p (x ∷ xs) h = elim (Bool-cases (p x)) [
    | inl e ↦ (Memᴰ.head (ground arith), ground arith)
    | inr e ↦ let (m, q) = find-eq-some p xs (ground arith) in (Memᴰ.tail m, q)
  ]

  pub find-eq-none :
      (p : A → Bool) {a : A} {xs : List A} → Memᴰ a xs → find p xs ≡ none → p a ≡ false
  find-eq-none p (Memᴰ.head e) h = ground arith
  find-eq-none p (Memᴰ.tail m) h = ground (arith, find-eq-none p m)
