-- ===== src/Common/Text/Slices.antt =====
-- Byte ranges of a text that is put together from parts.
use Prim.Native.Char.{Char, code}
use Prim.Native.String
use Prim.Native.String.{String}
use Prim.Native.Nat.{ℕ, ◌+◌, ◌-◌, ◌<◌}
use mathlib.Core.Path.{◌≡◌, refl, sym, ap, ◌∙◌}
use mathlib.Core.Option
use mathlib.Core.Option.{Option, none, some}
use mathlib.Core.List.{◌++◌, append_assoc}
use mathlib.Core.Bool.{true, false}
use native.Mathlib.Omega.{arith}
use text.Mathlib.TextLemmas.{nil-append, cons-append}
use openid_tls_connector.Common.Tests.{eqb, leb}
use openid_tls_connector.Common.Lists.{length, length-append}
use openid_tls_connector.Common.Text.{
  utf8, as_bytes, width, drop_bytes, take_bytes, byte_slice, byte_slice_from,
}

pub as_bytes-append : (s t : String) → as_bytes (String.◌++◌ s t) ≡ as_bytes s ++ as_bytes t
unfolding as_bytes
as_bytes-append String.[] t = rw nil-append
as_bytes-append (String.◌∷◌ c s) t =
    rw cons-append
      (ap (λ r. utf8 (code c) ++ r) (as_bytes-append s t) ∙ sym (append_assoc (utf8 (code c)) _ _))

abbrev pub size : String → ℕ
size s = length (as_bytes s)

pub width_pos : (c : Char) → 0 < width c
unfolding utf8
width_pos c = ground arith

pub size-cons : (c : Char) (s : String) → size (String.◌∷◌ c s) ≡ width c + size s
unfolding as_bytes
size-cons c s = length-append (utf8 (code c)) (as_bytes s)

pub size-append : (s t : String) → size (String.◌++◌ s t) ≡ size s + size t
size-append s t = rw (as_bytes-append s t) (length-append (as_bytes s) (as_bytes t))

drop_bytes-zero : (s : String) → drop_bytes 0 s ≡ some s
unfolding drop_bytes
drop_bytes-zero String.[] = refl
drop_bytes-zero (String.◌∷◌ c s) = refl

take_bytes-zero : (s : String) → take_bytes 0 s ≡ some String.[]
unfolding take_bytes
take_bytes-zero String.[] = refl
take_bytes-zero (String.◌∷◌ c s) = refl

pub size-nil : size String.[] ≡ 0
unfolding as_bytes
size-nil = refl

-- One character is passed.
drop_bytes-cons :
    (c : Char) (s : String) (k : ℕ) → drop_bytes (width c + k) (String.◌∷◌ c s) ≡ drop_bytes k s
unfolding drop_bytes
drop_bytes-cons c s k =
    let some_left : eqb (width c + k) 0 ≡ false = ground (arith, width_pos c) in
    let fits : leb (width c) (width c + k) ≡ true = ground arith in
    let rest : width c + k - width c ≡ k = omega arith in rw (some_left, fits, rest)

take_bytes-cons :
    (c : Char) (s : String) (k : ℕ)
    → take_bytes (width c + k) (String.◌∷◌ c s) ≡ Option.map (String.◌∷◌ c) (take_bytes k s)
unfolding take_bytes
take_bytes-cons c s k =
    let some_left : eqb (width c + k) 0 ≡ false = ground (arith, width_pos c) in
    let fits : leb (width c) (width c + k) ≡ true = ground arith in
    let rest : width c + k - width c ≡ k = omega arith in rw (some_left, fits, rest)

drop_bytes-append : (s t : String) → drop_bytes (size s) (String.◌++◌ s t) ≡ some t
drop_bytes-append String.[] t = rw (nil-append, size-nil) (drop_bytes-zero t)
drop_bytes-append (String.◌∷◌ c s) t =
    rw (cons-append, size-cons c s) (drop_bytes-cons c _ (size s) ∙ drop_bytes-append s t)

take_bytes-append : (s t : String) → take_bytes (size s) (String.◌++◌ s t) ≡ some s
take_bytes-append String.[] t = rw (nil-append, size-nil) (take_bytes-zero t)
take_bytes-append (String.◌∷◌ c s) t =
    rw (cons-append, size-cons c s)
      (take_bytes-cons c _ (size s) ∙ ap (Option.map (String.◌∷◌ c)) (take_bytes-append s t))

-- A range between two ends of parts is the part between them.
pub byte_slice-append :
    (s t u : String)
    → byte_slice (String.◌++◌ s (String.◌++◌ t u)) (size s) (size s + size t) ≡ some t
unfolding byte_slice
byte_slice-append s t u =
    ground (arith, drop_bytes-append s (String.◌++◌ t u), take_bytes-append t u)

pub byte_slice_from-append : (s t : String) → byte_slice_from (String.◌++◌ s t) (size s) ≡ some t
unfolding byte_slice_from
byte_slice_from-append s t = drop_bytes-append s t
