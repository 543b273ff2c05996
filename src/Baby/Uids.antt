-- ===== src/Baby/Uids.antt =====
-- pkg/baby/utils.go: which UIDs are valid, and the MAC address made from one. The hash is a parameter.
pub mod Addresses
use nanit_onvif.Prelude.{
  Text, codes, ℕ, ◌+◌, ◌-◌, ◌/◌, ◌%◌, Bool, true, false, ◌&&◌, ◌||◌, List, [], ◌∷◌, ◌++◌, ltb, leb,
  eqb, if◌then◌else◌, bit_and, bit_or,
}

-- A character of `[a-z0-9_-]`.
abbrev pub is_uid_char : ℕ → Bool
is_uid_char c =
    (leb b'a' c && leb c b'z') || ((leb b'0' c && leb c b'9') || (eqb c b'_' || eqb c b'-'))

unfoldable pub all_uid_chars : Text → Bool
all_uid_chars [] = true
all_uid_chars (c ∷ cs) = is_uid_char c && all_uid_chars cs

-- `validUID`; `EnsureValidBabyUID` ends the program where it does not match.
unfoldable pub valid_uid : Text → Bool
unfolding all_uid_chars
valid_uid [] = false
valid_uid (c ∷ cs) = all_uid_chars (c ∷ cs)

abbrev pub hex_digit : ℕ → ℕ
hex_digit d = if ltb d 10 then b'0' + d else b'a' + (d - 10)

-- `%02x` of a byte.
abbrev pub hex_byte : ℕ → Text
hex_byte b = hex_digit (b / 16) ∷ hex_digit (b % 16) ∷ []

-- The first byte, made local and unicast.
unfoldable pub local_unicast : ℕ → ℕ
local_unicast b = bit_or (bit_and b 0xfc) 0x02

pub record MacBytes : Type 0 where
  pub b0 : ℕ
  pub b1 : ℕ
  pub b2 : ℕ
  pub b3 : ℕ
  pub b4 : ℕ
  pub b5 : ℕ

abbrev pub colon : Text
colon = b':' ∷ []

unfoldable pub format_mac : MacBytes → Text
format_mac m =
    hex_byte m.b0
    ++ (colon
        ++ (hex_byte m.b1
            ++ (colon
                ++ (hex_byte m.b2
                    ++ (colon
                        ++ (hex_byte m.b3
                            ++ (colon ++ (hex_byte m.b4 ++ (colon ++ hex_byte m.b5)))))))))

-- `SyntheticMAC`, where `hash` gives the first six bytes of the SHA-1 sum.
unfoldable pub synthetic_mac : (Text → MacBytes) → Text → Text
unfolding format_mac local_unicast
synthetic_mac hash uid =
    let h : MacBytes = hash (codes "nanit-rtsp:" ++ uid) in
    format_mac (record h { b0 = local_unicast h.b0 })
