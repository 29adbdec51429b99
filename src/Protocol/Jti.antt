-- ===== src/Protocol/Jti.antt =====
-- `random_jti` of src/oidc/protocol.rs: a version 4 UUID from 16 random bytes.
pub mod Distinct
use Prim.Native.Nat.{bit_and, bit_or}
use Prim.Native.Char.{Char}
use Prim.Native.String
use Prim.Native.String.{◌++◌}
use openid_tls_connector.Common.{ℕ, zero, suc, ◌/◌, ◌%◌, String, List, [], ◌∷◌, get_or, set}
use openid_tls_connector.External.{Bytes}

abbrev pub hex_digits : List Char
hex_digits =
    "0" ∷ "1" ∷ "2" ∷ "3" ∷ "4" ∷ "5" ∷ "6" ∷ "7" ∷ "8" ∷ "9" ∷ "a" ∷ "b" ∷ "c" ∷ "d" ∷ "e" ∷ "f"
    ∷ []

abbrev pub hex_digit : ℕ → Char
hex_digit d = get_or hex_digits d "0"

-- `{:02x}` of a byte.
unfoldable pub hex2 : ℕ → String
hex2 b = String.◌∷◌ (hex_digit (b / 16)) (String.◌∷◌ (hex_digit (b % 16)) String.[])

-- The version and variant bits.
unfoldable pub set_version : Bytes → Bytes
set_version bytes =
    let versioned = set bytes 6 (bit_or (bit_and (get_or bytes 6 0) 0x0f) 0x40) in
    set versioned 8 (bit_or (bit_and (get_or versioned 8 0) 0x3f) 0x80)

-- The bytes from one place on, as many as asked for.
pub hex_run : Bytes → ℕ → ℕ → String
hex_run bytes i zero = ""
hex_run bytes i (suc k) = hex2 (get_or bytes i 0) ++ hex_run bytes (suc i) k

-- The bytes in groups, with dashes between.
unfoldable pub format_jti : Bytes → String
unfolding hex_run hex2
format_jti bytes =
    hex_run bytes 0 4
    ++ "-"
    ++ hex_run bytes 4 2
    ++ "-"
    ++ hex_run bytes 6 2
    ++ "-"
    ++ hex_run bytes 8 2
    ++ "-"
    ++ hex_run bytes 10 6

unfoldable pub random_jti : Bytes → String
unfolding set_version format_jti
random_jti random = format_jti (set_version random)
