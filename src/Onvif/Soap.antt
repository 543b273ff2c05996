-- ===== src/Onvif/Soap.antt =====
-- pkg/onvif/helpers.go and server.go: what is read out of a SOAP request by regular expressions.
-- A request is the list of its bytes.
pub mod Tags
use nanit_onvif.Prelude.{
  ℕ, suc, Bool, true, false, not, ◌&&◌, ◌||◌, Option, none, some, List, [], ◌∷◌, ◌++◌, leb, eqb,
  if◌then◌else◌, Text, codes,
}

-- `\w` of a regular expression.
abbrev pub is_word : ℕ → Bool
is_word c =
    (leb b'0' c && leb c b'9')
    || ((leb b'a' c && leb c b'z') || ((leb b'A' c && leb c b'Z') || eqb c b'_'))

-- The text behind a prefix.
unfoldable pub behind : Text → Text → Option Text
behind [] t = some t
behind (c ∷ cs) [] = none
behind (c ∷ cs) (d ∷ ds) = let rest = behind cs ds in if eqb c d then rest else none

-- Up to a character, which is left out, and what follows it.
unfoldable pub until : ℕ → Text → Text
until stop [] = []
until stop (c ∷ cs) = let rest = until stop cs in if eqb c stop then [] else c ∷ rest

unfoldable pub past : ℕ → Text → Option Text
past stop [] = none
past stop (c ∷ cs) = let rest = past stop cs in if eqb c stop then some cs else rest

-- `(\w+:)`, from behind its first character.
unfoldable pub namespace_rest : Text → Option Text
namespace_rest [] = none
namespace_rest (c ∷ cs) =
    let rest = namespace_rest cs in
    if is_word c then rest else (if eqb c b':' then some cs else none)

unfoldable pub namespace_prefix : Text → Option Text
unfolding namespace_rest
namespace_prefix [] = none
namespace_prefix (c ∷ cs) = if is_word c then namespace_rest cs else none

abbrev pub some_text : Text → Option Text
some_text [] = none
some_text (c ∷ cs) = some (c ∷ cs)

-- `\b[^>]*>([^<]+)` behind the name of a tag.
unfoldable pub content : Text → Option Text
unfolding past until
content [] = none
content (c ∷ cs) =
    if is_word c
    then none
    else elim (past b'>' (c ∷ cs)) [ none ↦ none | some rest ↦ some_text (until b'<' rest) ]

unfoldable pub named : Text → Text → Option Text
unfolding behind content
named tag t = elim (behind tag t) [ none ↦ none | some rest ↦ content rest ]

abbrev pub or_else : Option Text → Option Text → Option Text
or_else none o = o
or_else (some t) o = some t

-- From behind a `<`: the name with a namespace first, then without.
unfoldable pub opened : Text → Text → Option Text
unfolding named namespace_prefix
opened tag t =
    or_else (elim (namespace_prefix t) [ none ↦ none | some rest ↦ named tag rest ]) (named tag t)

unfoldable pub search_tag : Text → Text → Option Text
unfolding opened
search_tag tag [] = none
search_tag tag (c ∷ cs) =
    let rest = search_tag tag cs in if eqb c b'<' then or_else (opened tag cs) rest else rest

abbrev pub or_empty : Option Text → Text
or_empty none = []
or_empty (some t) = t

-- `FindTagValue`
unfoldable pub find_tag_value : Text → Text → Text
unfolding search_tag
find_tag_value b tag = or_empty (search_tag tag b)

-- `[^ />]+`
abbrev pub ends_name : ℕ → Bool
ends_name c = eqb c b' ' || (eqb c b'/' || eqb c b'>')

unfoldable pub name_of : Text → Text
name_of [] = []
name_of (c ∷ cs) = let rest = name_of cs in if ends_name c then [] else c ∷ rest

-- `[^<]+<([^ />]+)`
unfoldable pub first_tag : Text → Option Text
unfolding past name_of
first_tag [] = none
first_tag (c ∷ cs) =
    if eqb c b'<'
    then none
    else elim (past b'<' cs) [ none ↦ none | some rest ↦ some_text (name_of rest) ]

unfoldable pub search_body : Text → Option Text
unfolding behind first_tag
search_body [] = none
search_body (c ∷ cs) =
    let rest = search_body cs in
    or_else (elim (behind (codes "Body") (c ∷ cs)) [ none ↦ none | some t ↦ first_tag t ]) rest

-- Behind a colon that is not the first character.
abbrev pub local_name : Text → Text
local_name [] = []
local_name (c ∷ cs) =
    if eqb c b':' then c ∷ cs else elim (past b':' cs) [ none ↦ c ∷ cs | some t ↦ t ]

-- `GetRequestAction`
unfoldable pub get_request_action : Text → Text
unfolding search_body past
get_request_action b = elim (search_body b) [ none ↦ [] | some t ↦ local_name t ]
