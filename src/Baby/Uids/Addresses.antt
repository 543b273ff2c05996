-- ===== src/Baby/Uids/Addresses.antt =====
-- pkg/baby/utils.go: what a network reads off the MAC address of a baby.
use nanit_onvif.Prelude.{
  ℕ, suc, zero, ◌+◌, ◌-◌, ◌*◌, ◌/◌, ◌%◌, ◌<◌, ◌≡◌, refl, Bool, true, ◌&&◌, List, [], ◌∷◌, ◌++◌, ltb,
  eqb, if◌then◌else◌, Text, codes, arith, false, Bool-cases, eqb_iff, inl, inr,
}
use nanit_onvif.Baby.Uids.{hex_digit, local_unicast, MacBytes, format_mac, synthetic_mac}

-- The value of a hexadecimal digit.
abbrev pub unhex : ℕ → ℕ
unhex c = if ltb c b'a' then c - b'0' else c - b'a' + 10

-- A reader of addresses: two digits to a byte, with a character in between.
unfoldable pub parse_mac : Text → List ℕ
parse_mac (a ∷ b ∷ c ∷ rest) = (unhex a * 16 + unhex b) ∷ parse_mac rest
parse_mac (a ∷ b ∷ []) = (unhex a * 16 + unhex b) ∷ []
parse_mac _ = []

abbrev pub bytes_of : MacBytes → List ℕ
bytes_of m = m.b0 ∷ m.b1 ∷ m.b2 ∷ m.b3 ∷ m.b4 ∷ m.b5 ∷ []

-- The bytes of a hash are bytes.
pub record AreBytes (m : MacBytes) : Type 0 where
  pub byte0 : m.b0 < 256
  pub byte1 : m.b1 < 256
  pub byte2 : m.b2 < 256
  pub byte3 : m.b3 < 256
  pub byte4 : m.b4 < 256
  pub byte5 : m.b5 < 256

-- Bit 0 clear, bit 1 set, the others those of the byte.
abbrev pub IsLocalUnicast : ℕ → ℕ → Type 0
IsLocalUnicast b c = (c % 2 ≡ 0) × (c / 2 % 2 ≡ 1) × (c / 4 ≡ b / 4)

is_local_unicast : ℕ → Bool
unfolding local_unicast
is_local_unicast b =
    let c = local_unicast b in
    eqb (c % 2) 0 && (eqb (c / 2 % 2) 1 && (eqb (c / 4) (b / 4) && ltb c 256))

-- Whether the marking of every byte under a bound keeps to its form.
every_marked : ℕ → Bool
every_marked zero = true
every_marked (suc k) = if is_local_unicast k then every_marked k else false

marked_at : {b : ℕ} (k : ℕ) → b < k → every_marked k ≡ true → is_local_unicast b ≡ true
unfolding every_marked
marked_at zero below e = absurd (omega arith)
marked_at {b = b} (suc k) below e = elim (Bool-cases (eqb b k)) [
  | inl same ↦ grind (arith, eqb_iff b k)
  | inr other ↦ ground (arith, marked_at {b = b} k)
]

all_marked : every_marked 256 ≡ true
unfolding every_marked is_local_unicast local_unicast
all_marked = refl

local_unicast_lem : (b : ℕ) → b < 256 → IsLocalUnicast b (local_unicast b) × (local_unicast b < 256)
unfolding is_local_unicast
local_unicast_lem b h = let e = marked_at 256 h all_marked in ground arith

unhex-digit : (d : ℕ) → d < 16 → unhex (hex_digit d) ≡ d
unhex-digit d h = ground arith

unhex-hex : (b : ℕ) → b < 256 → unhex (hex_digit (b / 16)) * 16 + unhex (hex_digit (b % 16)) ≡ b
unhex-hex b h =
    omega (arith, unhex-digit (b / 16) (omega arith), unhex-digit (b % 16) (omega arith))

parse_mac-format_mac : (m : MacBytes) → AreBytes m → parse_mac (format_mac m) ≡ bytes_of m
unfolding parse_mac format_mac
parse_mac-format_mac m v =
    rw
      (
        unhex-hex m.b0 v.byte0,
        unhex-hex m.b1 v.byte1,
        unhex-hex m.b2 v.byte2,
        unhex-hex m.b3 v.byte3,
        unhex-hex m.b4 v.byte4,
        unhex-hex m.b5 v.byte5,
      )
      refl

-- The address of a baby, read back, has the six bytes of the hash, but that the first is marked as
-- local and as no group address, its upper six bits kept.
pub synthetic_mac-IsLocalUnicast :
    (hash : Text → MacBytes) (uid : Text)
    → AreBytes (hash (codes "nanit-rtsp:" ++ uid))
    → (c : ℕ) × IsLocalUnicast (hash (codes "nanit-rtsp:" ++ uid)).b0 c
      × (parse_mac (synthetic_mac hash uid)
          ≡ bytes_of (record (hash (codes "nanit-rtsp:" ++ uid)) { b0 = c }))
unfolding synthetic_mac
synthetic_mac-IsLocalUnicast hash uid v =
    let m : MacBytes = hash (codes "nanit-rtsp:" ++ uid) in
    let (marked, low) = local_unicast_lem m.b0 v.byte0 in
    (
      local_unicast m.b0,
      marked,
      parse_mac-format_mac (record m { b0 = local_unicast m.b0 })
          (record {
            byte0 = low;
            byte1 = v.byte1;
            byte2 = v.byte2;
            byte3 = v.byte3;
            byte4 = v.byte4;
            byte5 = v.byte5;
          }),
    )
