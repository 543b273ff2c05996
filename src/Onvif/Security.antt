-- ===== src/Onvif/Security.antt =====
-- pkg/onvif/handler.go and envelope.go: who may send a SOAP request, and the header that a client of
-- ours would send. SHA-1 and base64 are parameters.
pub mod Header
pub mod Digest
use nanit_onvif.Prelude.{
  ℕ, Bool, true, false, ◌&&◌, Option, none, some, List, [], ◌∷◌, ◌++◌, if◌then◌else◌, Text, codes,
  eqb_text,
}
use nanit_onvif.Onvif.Soap.{find_tag_value}

pub record Codecs : Type 0 where
  pub sha1 : Text → Text
  pub encode : Text → Text
  pub decode : Text → Option Text

abbrev pub is_empty : Text → Bool
is_empty [] = true
is_empty (c ∷ cs) = false

-- The password of a request that has a nonce and a time is a digest.
unfoldable pub is_digest : Codecs → Text → Text → Text → Text → Bool
is_digest k password nonce64 created expected_pass = elim (k.decode nonce64) [
  | none ↦ false
  | some nonce ↦ eqb_text password (k.encode (k.sha1 (nonce ++ (created ++ expected_pass))))
]

unfoldable pub validate_ws_security_auth : Codecs → Text → Text → Text → Bool
unfolding find_tag_value is_digest
validate_ws_security_auth k body expected_user expected_pass =
    let username : Text = find_tag_value body (codes "Username") in
    let password : Text = find_tag_value body (codes "Password") in
    let nonce64 : Text = find_tag_value body (codes "Nonce") in
    let created : Text = find_tag_value body (codes "Created") in
    if eqb_text username expected_user
    then (if is_empty password
        then false
        else (if is_empty nonce64
            then eqb_text password expected_pass
            else (if is_empty created
                then eqb_text password expected_pass
                else is_digest k password nonce64 created expected_pass)))
    else false

-- `validateBasicAuth` on what the header of the request holds.
unfoldable pub validate_basic_auth : Option (Text × Text) → Text → Text → Bool
validate_basic_auth none user pass = false
validate_basic_auth (some (u, p)) user pass = eqb_text u user && eqb_text p pass

abbrev pub prefix1 : Text
prefix1 =
    codes
      "<?xml version=\"1.0\" encoding=\"utf-8\"?><s:Envelope xmlns:s=\"http://www.w3.org/2003/05/soap-envelope\" xmlns:tt=\"http://www.onvif.org/ver10/schema\" xmlns:tds=\"http://www.onvif.org/ver10/device/wsdl\" xmlns:trt=\"http://www.onvif.org/ver10/media/wsdl\">"

abbrev pub prefix2 : Text
prefix2 = codes "<s:Body>"

abbrev pub before_username : Text
before_username =
    codes
      "<s:Header>\n\t<wsse:Security xmlns:wsse=\"http://docs.oasis-open.org/wss/2004/01/oasis-200401-wss-wssecurity-secext-1.0.xsd\">\n\t\t<wsse:UsernameToken>\n\t\t\t<wsse:Username>"

abbrev pub before_password : Text
before_password =
    codes
      "</wsse:Username>\n\t\t\t<wsse:Password Type=\"http://docs.oasis-open.org/wss/2004/01/oasis-200401-wss-username-token-profile-1.0#PasswordDigest\">"

abbrev pub before_nonce : Text
before_nonce =
    codes
      "</wsse:Password>\n\t\t\t<wsse:Nonce EncodingType=\"http://docs.oasis-open.org/wss/2004/01/oasis-200401-wss-soap-message-security-1.0#Base64Binary\">"

abbrev pub before_created : Text
before_created =
    codes
      "</wsse:Nonce>\n\t\t\t<wsu:Created xmlns:wsu=\"http://docs.oasis-open.org/wss/2004/01/oasis-200401-wss-wssecurity-utility-1.0.xsd\">"

abbrev pub after_created : Text
after_created = codes "</wsu:Created>\n\t\t</wsse:UsernameToken>\n\t</wsse:Security>\n</s:Header>"

-- `NewEnvelopeWithUser` with a user, the random nonce and the time of the clock.
unfoldable pub new_envelope_with_user : Codecs → Text → Text → Text → Text → Text
new_envelope_with_user k user pass nonce created =
    prefix1
    ++ (before_username
        ++ (user
            ++ (before_password
                ++ (k.encode (k.sha1 (nonce ++ (created ++ pass)))
                    ++ (before_nonce
                        ++ (k.encode nonce
                            ++ (before_created ++ (created ++ (after_created ++ prefix2)))))))))
