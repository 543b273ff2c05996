-- ===== src/Onvif/Handler/Addresses.antt =====
-- pkg/onvif/handler.go: the address of a stream, against the paths that the RTSP server takes.
use mathlib.Core.List.{reverse, reverse-append, reverse-reverse}
use nanit_onvif.Prelude.{
  ℕ, true, false, none, some, [], ◌∷◌, ◌++◌, eqb, if◌then◌else◌, ◌≡◌, refl, sym, ap, ◌∙◌, Text,
  codes, arith, All, append-nil, append_assoc,
}
use nanit_onvif.Onvif.Soap.{behind, get_request_action}
use nanit_onvif.Onvif.Durations.{is_digit}
use nanit_onvif.Baby.Uids.{valid_uid}
use nanit_onvif.Rtsp.Paths.{local_prefix, extract_baby_uid}
use nanit_onvif.Rtsp.Paths.RoundTrip.{extract_baby_uid-path}
use nanit_onvif.Onvif.Handler.{
  ServerConfig, stream_uri, before_port, strip_port, token_of, colon, rtsp_uri, on_action,
  is_authorized, handle,
}

abbrev pub IsPort : Text → Type 0
IsPort = All (λ c. is_digit c ≡ true)

IsPort-snoc : (ds : Text) (d : ℕ) → IsPort ds → is_digit d ≡ true → IsPort (ds ++ d ∷ [])
IsPort-snoc [] d h k = (k, tt)
IsPort-snoc (c ∷ ds) d (here, later) k = (here, IsPort-snoc ds d later k)

IsPort-reverse : (ds : Text) → IsPort ds → IsPort (reverse ds)
IsPort-reverse [] h = tt
IsPort-reverse (d ∷ ds) (here, later) =
    rw (reverse-append (d ∷ []) ds) (IsPort-snoc (reverse ds) d (IsPort-reverse ds later) here)

before_port-digits : (ds rest : Text) → IsPort ds → before_port (ds ++ b':' ∷ rest) ≡ some rest
unfolding before_port
before_port-digits [] rest h = refl
before_port-digits (d ∷ ds) rest (here, later) =
    let e : eqb d b':' ≡ false = ground arith in rw (e, here) (before_port-digits ds rest later)

-- A port, or just a colon, is taken off a host, whatever colons are in the host.
pub strip_port-port : (host port : Text) → IsPort port → strip_port (host ++ (colon ++ port)) ≡ host
unfolding strip_port
strip_port-port host port h =
    let e : reverse (host ++ (colon ++ port)) ≡ reverse port ++ b':' ∷ reverse host =
      reverse-append host (b':' ∷ port)
      ∙ ap (λ l. l ++ reverse host) (reverse-append (b':' ∷ []) port)
      ∙ append_assoc (reverse port) (b':' ∷ []) (reverse host) in
    rw (strip_port, e, before_port-digits (reverse port) (reverse host) (IsPort-reverse port h))
      (reverse-reverse host)

-- What a client asks the server of an address for: its path.
abbrev slash : ℕ
slash = b'/'

pub from_slash : Text → Text
from_slash [] = []
from_slash (c ∷ cs) = let rest = from_slash cs in if eqb c slash then c ∷ cs else rest

unfoldable pub uri_path : Text → Text
unfolding behind
uri_path uri = elim (behind (codes "rtsp://") uri) [ none ↦ [] | some t ↦ from_slash t ]

abbrev pub HasNoSlash : Text → Type 0
HasNoSlash = All (λ c. eqb c b'/' ≡ false)

from_slash-append : (t rest : Text) → HasNoSlash t → from_slash (t ++ rest) ≡ from_slash rest
unfolding from_slash
from_slash-append [] rest h = refl
from_slash-append (c ∷ t) rest (here, later) = rw (here) (from_slash-append t rest later)

uri_path-rtsp_uri :
    (host port token : Text)
    → HasNoSlash host
    → HasNoSlash port
    → uri_path (rtsp_uri host port token) ≡ local_prefix ++ token
unfolding uri_path rtsp_uri from_slash
uri_path-rtsp_uri host port token h p =
    from_slash-append host (colon ++ (port ++ (local_prefix ++ token))) h
    ∙ from_slash-append port (local_prefix ++ token) p

stream_reply :
    (c : ServerConfig) (uuid host body : Text)
    → get_request_action body ≡ codes "GetStreamUri"
    → is_authorized c body ≡ true
    → handle c uuid host body
      ≡ stream_uri (rtsp_uri (strip_port host) c.rtsp_port (token_of c body (codes "ProfileToken")))
unfolding handle on_action
stream_reply c uuid host body asks lets = rw (handle, asks, lets) refl

-- A client that may ask for the address of a stream gets one whose path the RTSP server takes for the
-- baby that the request names, or for the first baby where it names none; the port of the request's
-- host is not in it.
pub stream_uri-Serves :
    (c : ServerConfig) (uuid host port body : Text)
    → get_request_action body ≡ codes "GetStreamUri"
    → is_authorized c body ≡ true
    → IsPort port
    → HasNoSlash host
    → HasNoSlash c.rtsp_port
    → valid_uid (token_of c body (codes "ProfileToken")) ≡ true
    → (uri : Text) × (handle c uuid (host ++ (colon ++ port)) body ≡ stream_uri uri)
      × (uri ≡ rtsp_uri host c.rtsp_port (token_of c body (codes "ProfileToken")))
      × (extract_baby_uid (uri_path uri) ≡ token_of c body (codes "ProfileToken"))
stream_uri-Serves c uuid host port body asks lets p h q valid =
    let token : Text = token_of c body (codes "ProfileToken") in
    (
      rtsp_uri host c.rtsp_port token,
      stream_reply c uuid (host ++ (colon ++ port)) body asks lets
          ∙ ap (λ t. stream_uri (rtsp_uri t c.rtsp_port token)) (strip_port-port host port p),
      refl,
      ap extract_baby_uid (
            uri_path-rtsp_uri host c.rtsp_port token h q
            ∙ ap (λ t. local_prefix ++ t) (sym (append-nil token)))
          ∙ extract_baby_uid-path token [] valid tt,
    )
