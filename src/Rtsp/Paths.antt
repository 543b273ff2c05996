-- ===== src/Rtsp/Paths.antt =====
-- pkg/rtspserver/server.go and pkg/rtmpserver/server.go: the UID in the path of a client, by the two
-- regular expressions, and pkg/app/app.go: the URL that a camera is told to publish to.
pub mod RoundTrip
use nanit_onvif.Prelude.{
  ℕ, Bool, true, false, Option, none, some, List, [], ◌∷◌, ◌++◌, eqb, if◌then◌else◌, Text, codes,
  String,
}
use nanit_onvif.Baby.Uids.{is_uid_char, valid_uid}

abbrev pub local_prefix : Text
local_prefix = codes "/local/"

-- What follows a prefix.
unfoldable pub strip_prefix : Text → Text → Option Text
strip_prefix [] t = some t
strip_prefix (c ∷ cs) [] = none
strip_prefix (c ∷ cs) (d ∷ ds) = let rest = strip_prefix cs ds in if eqb c d then rest else none

-- The longest run of `[a-z0-9_-]`, which a greedy `+` takes.
unfoldable pub take_uid : Text → Text
take_uid [] = []
take_uid (c ∷ cs) = let rest = take_uid cs in if is_uid_char c then c ∷ rest else []

-- `extractBabyUID`, the empty text where there is no match.
unfoldable pub extract_baby_uid : Text → Text
unfolding strip_prefix take_uid
extract_baby_uid path = elim (strip_prefix local_prefix path) [
  | none ↦ []
  | some rest ↦ take_uid rest
]

-- `rtmpURLRX` in `handleConnection`, whose match ends with the path.
unfoldable pub rtmp_uid : Text → Option Text
unfolding strip_prefix valid_uid
rtmp_uid path = elim (strip_prefix local_prefix path) [
  | none ↦ none
  | some rest ↦ if valid_uid rest then some rest else none
]
