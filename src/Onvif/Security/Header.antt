-- ===== src/Onvif/Security/Header.antt =====
-- What FindTagValue reads in the header of NewEnvelopeWithUser.
use nanit_onvif.Prelude.{false, Option, none, [], ◌∷◌, ◌++◌, ◌≡◌, refl, ap, ◌∙◌, Text, codes}
use nanit_onvif.Onvif.Soap.{search_tag, until, or_else, some_text, find_tag_value, or_empty}
use nanit_onvif.Onvif.Soap.Tags.{IsPlain, search_tag-plain, until-plain}
use nanit_onvif.Onvif.Security.{
  is_empty, prefix1, before_username, before_password, before_nonce, before_created, after_created,
}

abbrev pub user_tag : Text
user_tag = codes "Username"

abbrev pub password_tag : Text
password_tag = codes "Password"

abbrev pub nonce_tag : Text
nonce_tag = codes "Nonce"

abbrev pub created_tag : Text
created_tag = codes "Created"

abbrev found : Text → Text → Option Text
found tag t = or_else (or_else (some_text (until b'<' t)) none) (search_tag tag t)

at_username :
    (t : Text) → search_tag user_tag (prefix1 ++ (before_username ++ t)) ≡ found user_tag t
unfolding search_tag
at_username t = refl

to_username_password :
    (t : Text)
    → search_tag password_tag (prefix1 ++ (before_username ++ t)) ≡ search_tag password_tag t
unfolding search_tag
to_username_password t = refl

to_username_nonce :
    (t : Text) → search_tag nonce_tag (prefix1 ++ (before_username ++ t)) ≡ search_tag nonce_tag t
unfolding search_tag
to_username_nonce t = refl

to_username_created :
    (t : Text)
    → search_tag created_tag (prefix1 ++ (before_username ++ t)) ≡ search_tag created_tag t
unfolding search_tag
to_username_created t = refl

at_password : (t : Text) → search_tag password_tag (before_password ++ t) ≡ found password_tag t
unfolding search_tag
at_password t = refl

to_password_nonce :
    (t : Text) → search_tag nonce_tag (before_password ++ t) ≡ search_tag nonce_tag t
unfolding search_tag
to_password_nonce t = refl

to_password_created :
    (t : Text) → search_tag created_tag (before_password ++ t) ≡ search_tag created_tag t
unfolding search_tag
to_password_created t = refl

at_nonce : (t : Text) → search_tag nonce_tag (before_nonce ++ t) ≡ found nonce_tag t
unfolding search_tag
at_nonce t = refl

to_nonce_created :
    (t : Text) → search_tag created_tag (before_nonce ++ t) ≡ search_tag created_tag t
unfolding search_tag
to_nonce_created t = refl

at_created : (t : Text) → search_tag created_tag (before_created ++ t) ≡ found created_tag t
unfolding search_tag
at_created t = refl

found_lem :
    (tag t rest : Text)
    → IsPlain t
    → is_empty t ≡ false
    → or_empty (found tag (t ++ b'<' ∷ rest)) ≡ t
found_lem tag [] rest h k = cc
found_lem tag (c ∷ t) rest h k =
    ap
      (λ u.
        or_empty (or_else (or_else (some_text u) none) (search_tag tag ((c ∷ t) ++ b'<' ∷ rest))))
      (until-plain (c ∷ t) rest h)

abbrev tail : Text → Text
tail [] = []
tail (c ∷ cs) = cs

abbrev pub from_created : Text → Text → Text
from_created created rest = created ++ (after_created ++ rest)

abbrev pub from_nonce : Text → Text → Text → Text
from_nonce nonce64 created rest = nonce64 ++ (before_created ++ from_created created rest)

abbrev pub from_digest : Text → Text → Text → Text → Text
from_digest digest nonce64 created rest =
    digest ++ (before_nonce ++ from_nonce nonce64 created rest)

abbrev pub from_user : Text → Text → Text → Text → Text → Text
from_user user digest nonce64 created rest =
    user ++ (before_password ++ from_digest digest nonce64 created rest)

abbrev pub envelope : Text → Text → Text → Text → Text → Text
envelope user digest nonce64 created rest =
    prefix1 ++ (before_username ++ from_user user digest nonce64 created rest)

module _ (user digest nonce64 created rest : Text) (user_plain : IsPlain user) where
  pub username_found :
      is_empty user ≡ false
      → find_tag_value (envelope user digest nonce64 created rest) user_tag ≡ user
  unfolding find_tag_value
  username_found h =
      ap or_empty (at_username (from_user user digest nonce64 created rest))
      ∙ found_lem user_tag user (tail (before_password ++ from_digest digest nonce64 created rest))
          user_plain h

  -- A tag behind the user's name, behind the digest, behind the nonce.
  behind_user :
      (tag : Text)
      → ((t : Text) → search_tag tag (prefix1 ++ (before_username ++ t)) ≡ search_tag tag t)
      → search_tag tag (envelope user digest nonce64 created rest)
        ≡ search_tag tag (before_password ++ from_digest digest nonce64 created rest)
  behind_user tag skip =
      skip (from_user user digest nonce64 created rest)
      ∙ search_tag-plain tag user (before_password ++ from_digest digest nonce64 created rest)
          user_plain

  behind_digest :
      (tag : Text)
      → ((t : Text) → search_tag tag (prefix1 ++ (before_username ++ t)) ≡ search_tag tag t)
      → ((t : Text) → search_tag tag (before_password ++ t) ≡ search_tag tag t)
      → IsPlain digest
      → search_tag tag (envelope user digest nonce64 created rest)
        ≡ search_tag tag (before_nonce ++ from_nonce nonce64 created rest)
  behind_digest tag skip skip' d =
      behind_user tag skip
      ∙ skip' (from_digest digest nonce64 created rest)
      ∙ search_tag-plain tag digest (before_nonce ++ from_nonce nonce64 created rest) d

  pub password_found :
      IsPlain digest
      → is_empty digest ≡ false
      → find_tag_value (envelope user digest nonce64 created rest) password_tag ≡ digest
  unfolding find_tag_value
  password_found p h =
      ap or_empty (
        behind_user password_tag to_username_password
        ∙ at_password (from_digest digest nonce64 created rest))
      ∙ found_lem password_tag digest (tail (before_nonce ++ from_nonce nonce64 created rest)) p h

  pub nonce_found :
      IsPlain digest
      → IsPlain nonce64
      → is_empty nonce64 ≡ false
      → find_tag_value (envelope user digest nonce64 created rest) nonce_tag ≡ nonce64
  unfolding find_tag_value
  nonce_found d p h =
      ap or_empty (
        behind_digest nonce_tag to_username_nonce to_password_nonce d
        ∙ at_nonce (from_nonce nonce64 created rest))
      ∙ found_lem nonce_tag nonce64 (tail (before_created ++ from_created created rest)) p h

  pub created_found :
      IsPlain digest
      → IsPlain nonce64
      → IsPlain created
      → is_empty created ≡ false
      → find_tag_value (envelope user digest nonce64 created rest) created_tag ≡ created
  unfolding find_tag_value
  created_found d n p h =
      ap or_empty (
        behind_digest created_tag to_username_created to_password_created d
        ∙ to_nonce_created (from_nonce nonce64 created rest)
        ∙ search_tag-plain created_tag nonce64 (before_created ++ from_created created rest) n
        ∙ at_created (from_created created rest))
      ∙ found_lem created_tag created (tail (after_created ++ rest)) p h
