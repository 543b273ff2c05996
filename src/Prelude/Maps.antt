-- ===== src/Prelude/Maps.antt =====
-- Go maps as association lists: reading, `m[k] = v`, and `delete`.
use mathlib.Core.Path.{◌≡◌, refl}
use mathlib.Core.List.{List, [], ◌∷◌}
use mathlib.Core.Option.{Option, none, some}
use native.Mathlib.Omega.{arith}
use nanit_onvif.Prelude.Tests.{if◌then◌else◌}
use nanit_onvif.Prelude.Equality.{Eq, ◌==◌}

module _ {ℓ κ} {K : Type ℓ} {V : Type κ} ⦃e : Eq K⦄ where
  unfoldable pub lookup : K → List (K × V) → Option V
  lookup key [] = none
  lookup key ((k, val) ∷ rest) = if k == key then some val else lookup key rest

  unfoldable pub delete : K → List (K × V) → List (K × V)
  delete key [] = []
  delete key ((k, val) ∷ rest) =
      let others = delete key rest in if k == key then others else (k, val) ∷ others

  unfoldable pub insert : K → V → List (K × V) → List (K × V)
  insert key new [] = (key, new) ∷ []
  insert key new ((k, val) ∷ rest) =
      if k == key then (key, new) ∷ rest else (k, val) ∷ insert key new rest

  pub lookup-delete :
      (gone key : K) (l : List (K × V))
      → lookup key (delete gone l) ≡ (if gone == key then none else lookup key l)
  unfolding lookup delete
  lookup-delete gone key [] = ground arith
  lookup-delete gone key ((k, val) ∷ rest) =
      let again = lookup-delete gone key rest in
      ground (arith, again, e.beq_iff gone key, e.beq_iff k gone, e.beq_iff k key)

  pub lookup-insert :
      (set key : K) (new : V) (l : List (K × V))
      → lookup key (insert set new l) ≡ (if set == key then some new else lookup key l)
  unfolding lookup insert
  lookup-insert set key new [] = refl
  lookup-insert set key new ((k, val) ∷ rest) =
      let again = lookup-insert set key new rest in
      ground (arith, again, e.beq_iff set key, e.beq_iff k set, e.beq_iff k key)
