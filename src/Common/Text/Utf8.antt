-- ===== src/Common/Text/Utf8.antt =====
-- A text is determined by its UTF-8 bytes.
use Prim.Native.Char.{code}
use text.Mathlib.TextEquality.{Char-path}
use Prim.Native.Nat.{ℕ}
use Prim.Native.String.{String}
use mathlib.Core.Path.{◌≡◌, refl, sym}
use mathlib.Core.List.{List, [], ◌++◌}
use native.Mathlib.Omega.{arith}
use openid_tls_connector.Common.Text.{utf8, as_bytes}

-- No character's bytes begin those of another.
utf8_cancel : (m n : ℕ) (xs ys : List ℕ) → utf8 m ++ xs ≡ utf8 n ++ ys → (m ≡ n) × (xs ≡ ys)
unfolding utf8
utf8_cancel m n xs ys h = ground arith

utf8-append-ne-nil : (n : ℕ) (xs : List ℕ) → utf8 n ++ xs ≡ [] → ⊥
unfolding utf8
utf8-append-ne-nil n xs h = ground arith

pub as_bytes_inj : (s t : String) → as_bytes s ≡ as_bytes t → s ≡ t
unfolding as_bytes
as_bytes_inj String.[] String.[] h = refl
as_bytes_inj String.[] (String.◌∷◌ d t) h = absurd (utf8-append-ne-nil (code d) _ (sym h))
as_bytes_inj (String.◌∷◌ c s) String.[] h = absurd (utf8-append-ne-nil (code c) _ h)
as_bytes_inj (String.◌∷◌ c s) (String.◌∷◌ d t) h =
    let (same, rest) = utf8_cancel (code c) (code d) _ _ h in
    let tail : s ≡ t = as_bytes_inj s t rest in let head : c ≡ d = Char-path c d same in cc
