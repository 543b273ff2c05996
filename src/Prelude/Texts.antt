-- ===== src/Prelude/Texts.antt =====
-- Texts that are taken apart, as lists of their code points.
use Prim.Native.Char.{code}
use Prim.Native.String.{String, ◌++◌ as ◌⧺◌}
use Prim.Native.Nat.{ℕ}
use mathlib.Core.Path.{◌≡◌, refl, ap, ◌∙◌}
use mathlib.Core.Logic.{◌↔◌}
use mathlib.Core.Bool.{Bool, true, false, ◌&&◌}
use mathlib.Core.List.{List, [], ◌∷◌, ◌++◌}
use native.Mathlib.Omega.{arith}
use text.Mathlib.TextLemmas.{nil-append, cons-append}
use nanit_onvif.Prelude.Tests.{eqb}
use nanit_onvif.Prelude.Equality.{Eq}

abbrev pub Text : Type 0
Text = List ℕ

abbrev pub codes : String → Text
codes String.[] = []
codes (String.◌∷◌ c s) = code c ∷ codes s

pub codes-append : (s t : String) → codes (◌⧺◌ s t) ≡ codes s ++ codes t
codes-append String.[] t = ap codes (nil-append t)
codes-append (String.◌∷◌ c s) t =
    ap codes (cons-append c s t) ∙ ap (λ r. code c ∷ r) (codes-append s t)

abbrev pub eqb_text : Text → Text → Bool
eqb_text [] [] = true
eqb_text (a ∷ as') (b ∷ bs) = eqb a b && eqb_text as' bs
eqb_text _ _ = false

pub eqb_text_iff : (s t : Text) → (eqb_text s t ≡ true) ↔ (s ≡ t)
eqb_text_iff [] [] = (λ h. refl, λ h. refl)
eqb_text_iff [] (b ∷ bs) = (λ h. cc, λ h. cc)
eqb_text_iff (a ∷ as') [] = (λ h. cc, λ h. cc)
eqb_text_iff (a ∷ as') (b ∷ bs) = ground (arith, eqb_text_iff as' bs)

instance abbrev pub Text_eq : Eq Text
Text_eq = record { beq_iff = eqb_text_iff; beq = eqb_text }
