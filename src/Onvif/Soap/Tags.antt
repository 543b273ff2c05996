-- ===== src/Onvif/Soap/Tags.antt =====
-- Values of tags in a document that is put together from parts.
use nanit_onvif.Prelude.{false, [], ◌∷◌, ◌++◌, eqb, ◌≡◌, refl, ap, Text}
use nanit_onvif.Onvif.Soap.{search_tag, until}

-- A text in which no tag begins.
abbrev pub IsPlain : Text → Type 0
IsPlain [] = Unit
IsPlain (c ∷ cs) = (eqb c b'<' ≡ false) × IsPlain cs

pub search_tag-plain :
    (tag t rest : Text) → IsPlain t → search_tag tag (t ++ rest) ≡ search_tag tag rest
unfolding search_tag
search_tag-plain tag [] rest h = refl
search_tag-plain tag (c ∷ t) rest (here, later) = rw (here) (search_tag-plain tag t rest later)

pub until-plain : (t rest : Text) → IsPlain t → until b'<' (t ++ b'<' ∷ rest) ≡ t
unfolding until
until-plain [] rest h = refl
until-plain (c ∷ t) rest (here, later) = rw (here) (ap (λ l. c ∷ l) (until-plain t rest later))
