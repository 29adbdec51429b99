-- ===== src/Common/Text.antt =====
-- What the source uses of Rust's `str`: bytes, byte ranges, trimming, splitting and joining.
-- A `String` is a list of characters; its bytes are their UTF-8.
pub mod Utf8
pub mod Slices
pub mod Splits
use Prim.Native.Nat.{ℕ, ◌+◌, ◌-◌, ◌/◌, ◌%◌}
use Prim.Native.Char.{Char, code}
use Prim.Native.String
use Prim.Native.String.{String}
use mathlib.Core.Bool.{Bool, true, false, ◌&&◌, ◌||◌}
use mathlib.Core.Option
use mathlib.Core.Option.{Option, none, some}
use mathlib.Core.List.{List, [], ◌∷◌, ◌++◌}
use openid_tls_connector.Common.Lists.{length}
use openid_tls_connector.Common.Tests.{ltb, leb, eqb, if◌then◌else◌}

unfoldable pub utf8 : ℕ → List ℕ
utf8 n =
    if ltb n 0x80
    then n ∷ []
    else if ltb n 0x800
    then (0xc0 + n / 64) ∷ (0x80 + n % 64) ∷ []
    else if ltb n 0x10000
    then (0xe0 + n / 4096) ∷ (0x80 + n / 64 % 64) ∷ (0x80 + n % 64) ∷ []
    else (0xf0 + n / 262144) ∷ (0x80 + n / 4096 % 64) ∷ (0x80 + n / 64 % 64) ∷ (0x80 + n % 64) ∷ []

unfoldable pub as_bytes : String → List ℕ
unfolding utf8
as_bytes String.[] = []
as_bytes (String.◌∷◌ c s) = utf8 (code c) ++ as_bytes s

-- `char::is_whitespace`: Unicode's White_Space.
pub is_whitespace : ℕ → Bool
is_whitespace n =
    (leb 9 n && leb n 13)
    || eqb n 32
    || eqb n 0x85
    || eqb n 0xa0
    || eqb n 0x1680
    || (leb 0x2000 n && leb n 0x200a)
    || eqb n 0x2028
    || eqb n 0x2029
    || eqb n 0x202f
    || eqb n 0x205f
    || eqb n 0x3000

abbrev pub is_empty : String → Bool
is_empty String.[] = true
is_empty (String.◌∷◌ _ _) = false

pub trim_start : String → String
trim_start String.[] = String.[]
trim_start (String.◌∷◌ c s) = if is_whitespace (code c) then trim_start s else String.◌∷◌ c s

pub trim_end : String → String
trim_end String.[] = String.[]
trim_end (String.◌∷◌ c s) =
    let rest = trim_end s in
    if is_whitespace (code c) && is_empty rest then String.[] else String.◌∷◌ c rest

unfoldable pub trim : String → String
unfolding trim_start trim_end is_whitespace
trim s = trim_end (trim_start s)

-- `split_once` at an ASCII character.
unfoldable pub split_once : ℕ → String → Option (String × String)
split_once d String.[] = none
split_once d (String.◌∷◌ c s) =
    if eqb (code c) d
    then some (String.[], s)
    else elim (split_once d s) [ none ↦ none | some (a, b) ↦ some (String.◌∷◌ c a, b) ]

unfoldable pub strip_prefix : String → String → Option String
strip_prefix String.[] s = some s
strip_prefix (String.◌∷◌ d p) String.[] = none
strip_prefix (String.◌∷◌ d p) (String.◌∷◌ c s) =
    if eqb (code d) (code c) then strip_prefix p s else none

-- The words of a text, the current one in hand.
pub words_from : String → String → List String
words_from cur String.[] = if is_empty cur then [] else cur ∷ []
words_from cur (String.◌∷◌ c s) =
    let closed = (if is_empty cur then words_from String.[] s else cur ∷ words_from String.[] s) in
    let longer = words_from (String.◌++◌ cur (String.◌∷◌ c String.[])) s in
    if is_whitespace (code c) then closed else longer

unfoldable pub split_whitespace : String → List String
unfolding words_from is_whitespace
split_whitespace s = words_from String.[] s

unfoldable pub join : String → List String → String
join sep [] = String.[]
join sep (x ∷ []) = x
join sep (x ∷ y ∷ ys) = String.◌++◌ x (String.◌++◌ sep (join sep (y ∷ ys)))

abbrev pub width : Char → ℕ
width c = length (utf8 (code c))

-- `&s[n..]` and `&s[..n]` by bytes: `none` is the panic past the end or inside a character.
pub drop_bytes : ℕ → String → Option String
drop_bytes n String.[] = if eqb n 0 then some String.[] else none
drop_bytes n (String.◌∷◌ c s) =
    if eqb n 0
    then some (String.◌∷◌ c s)
    else if leb (width c) n
    then drop_bytes (n - width c) s
    else none

pub take_bytes : ℕ → String → Option String
take_bytes n String.[] = if eqb n 0 then some String.[] else none
take_bytes n (String.◌∷◌ c s) =
    let rest = take_bytes (n - width c) s in
    if eqb n 0
    then some String.[]
    else if leb (width c) n
    then Option.map (String.◌∷◌ c) rest
    else none

unfoldable pub byte_slice : String → ℕ → ℕ → Option String
byte_slice s a b =
    if leb a b then elim (drop_bytes a s) [ none ↦ none | some t ↦ take_bytes (b - a) t ] else none

unfoldable pub byte_slice_from : String → ℕ → Option String
byte_slice_from s a = drop_bytes a s

-- The code points of a text.
abbrev pub codes : String → List ℕ
codes String.[] = []
codes (String.◌∷◌ c s) = code c ∷ codes s
