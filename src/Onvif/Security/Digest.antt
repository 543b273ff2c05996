-- ===== src/Onvif/Security/Digest.antt =====
-- A request with the header of NewEnvelopeWithUser against validateWSSecurityAuth.
use nanit_onvif.Prelude.{
  false, some, ◌++◌, if◌then◌else◌, ◌≡◌, refl, ap, ◌∙◌, Text, eqb_text, append_assoc,
}
use nanit_onvif.Onvif.Soap.{find_tag_value}
use nanit_onvif.Onvif.Soap.Tags.{IsPlain}
use nanit_onvif.Onvif.Security.{
  Codecs, is_empty, is_digest, validate_ws_security_auth, prefix1, prefix2, before_username,
  before_password, before_nonce, before_created, after_created, new_envelope_with_user,
}
use nanit_onvif.Onvif.Security.Header.{
  user_tag, password_tag, nonce_tag, created_tag, username_found, password_found, nonce_found,
  created_found,
}

appended :
    (a b c d e f g h i j k l : Text)
    → (a ++ (b ++ (c ++ (d ++ (e ++ (f ++ (g ++ (h ++ (i ++ (j ++ k)))))))))) ++ l
      ≡ a ++ (b ++ (c ++ (d ++ (e ++ (f ++ (g ++ (h ++ (i ++ (j ++ (k ++ l))))))))))
appended a b c d e f g h i j k l = simp (append_assoc)

-- What base64 is documented to do: it decodes what it encoded, into letters, digits and a few signs,
-- none of them a tag's, and not into the empty text unless it was given one.
pub record IsBase64 (k : Codecs) : Type 0 where
  pub decodes : (t : Text) → k.decode (k.encode t) ≡ some t
  pub plain : (t : Text) → IsPlain (k.encode t)
  pub empties : (t : Text) → is_empty (k.encode t) ≡ is_empty t

checked :
    (k : Codecs) (body user digest nonce64 created nonce expected_user expected_pass : Text)
    → find_tag_value body user_tag ≡ user
    → find_tag_value body password_tag ≡ digest
    → find_tag_value body nonce_tag ≡ nonce64
    → find_tag_value body created_tag ≡ created
    → k.decode nonce64 ≡ some nonce
    → is_empty digest ≡ false
    → is_empty nonce64 ≡ false
    → is_empty created ≡ false
    → validate_ws_security_auth k body expected_user expected_pass ≡ (
        if eqb_text user expected_user
        then eqb_text digest (k.encode (k.sha1 (nonce ++ (created ++ expected_pass))))
        else false)
unfolding validate_ws_security_auth is_digest
checked k body user digest nonce64 created nonce expected_user expected_pass u p n c d hp hn hc =
    rw (validate_ws_security_auth, u, p, n, c, hp, hn, hc, is_digest, d, p, c) refl

-- A request whose header comes from `NewEnvelopeWithUser`, with a user, a nonce and a time that are
-- not empty, the first and the last without a `<`, is let in exactly when the user is the expected one
-- and the digest of its password that of the expected password; whatever follows in the request.
pub validate-new_envelope_with_user :
    (k : Codecs) (user pass nonce created rest expected_user expected_pass : Text)
    → IsBase64 k
    → is_empty (k.sha1 (nonce ++ (created ++ pass))) ≡ false
    → IsPlain user × (is_empty user ≡ false)
    → IsPlain created × (is_empty created ≡ false)
    → is_empty nonce ≡ false
    → validate_ws_security_auth k
        (new_envelope_with_user k user pass nonce created ++ rest)
        expected_user
        expected_pass
      ≡ (if eqb_text user expected_user
          then eqb_text
              (k.encode (k.sha1 (nonce ++ (created ++ pass))))
              (k.encode (k.sha1 (nonce ++ (created ++ expected_pass))))
          else false)
unfolding validate_ws_security_auth new_envelope_with_user is_digest
validate-new_envelope_with_user k user pass nonce created rest expected_user expected_pass b sum
      (user_plain, has_user) (created_plain, has_created) has_nonce =
    let digest : Text = k.encode (k.sha1 (nonce ++ (created ++ pass))) in
    let nonce64 : Text = k.encode nonce in
    let skip =
      appended prefix1 before_username user before_password digest before_nonce nonce64
        before_created created after_created prefix2 rest in
    let body_rest : Text = prefix2 ++ rest in
    checked k (new_envelope_with_user k user pass nonce created ++ rest) user digest nonce64 created
      nonce expected_user expected_pass
      (ap (λ t. find_tag_value t user_tag) skip
        ∙ username_found user digest nonce64 created body_rest user_plain has_user)
      (ap (λ t. find_tag_value t password_tag) skip
        ∙ password_found user digest nonce64 created body_rest user_plain (b.plain _)
            (b.empties _ ∙ sum))
      (ap (λ t. find_tag_value t nonce_tag) skip
        ∙ nonce_found user digest nonce64 created body_rest user_plain (b.plain _) (b.plain _)
            (b.empties _ ∙ has_nonce))
      (ap (λ t. find_tag_value t created_tag) skip
        ∙ created_found user digest nonce64 created body_rest user_plain (b.plain _) (b.plain _)
            created_plain has_created)
      (b.decodes nonce) (b.empties _ ∙ sum) (b.empties _ ∙ has_nonce) has_created
