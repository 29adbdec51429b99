-- ===== src/Tests/Unit.antt =====
-- The unit tests of src/: each is a Boolean, true where its assertions hold.
pub mod Users
pub mod Client
pub mod Storage
pub mod Code
pub mod Signature
pub mod Token
pub mod Protocol
pub mod Discovery
use openid_tls_connector.Common.{
  String, Bool, true, false, ◌&&◌, List, [], ◌∷◌, Option, none, some, Result, ok, err, ◌==◌,
}

-- `assert_eq!` on lists of texts.
abbrev pub texts_eq : List String → List String → Bool
texts_eq [] [] = true
texts_eq [] (t ∷ ts) = false
texts_eq (s ∷ ss) [] = false
texts_eq (s ∷ ss) (t ∷ ts) = s == t && texts_eq ss ts

-- An assertion on a value that is unwrapped first.
abbrev pub on_some {ℓ} : {A : Type ℓ} → (A → Bool) → Option A → Bool
on_some p none = false
on_some p (some a) = p a

abbrev pub on_ok {ℓ κ} : {E : Type ℓ} {A : Type κ} → (A → Bool) → Result E A → Bool
on_ok p (ok a) = p a
on_ok p (err e) = false

abbrev pub on_err {ℓ κ} : {E : Type ℓ} {A : Type κ} → (E → Bool) → Result E A → Bool
on_err p (ok a) = false
on_err p (err e) = p e
