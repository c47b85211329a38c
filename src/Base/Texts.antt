-- ===== src/Base/Texts.antt =====
-- Text: a string as the list of its character codes, with its equality test.
use Prim.Native.Nat.{ℕ}
use Prim.Native.Char.{code}
use Prim.Native.String.{String}
use mathlib.Core.Path.{◌≡◌, refl}
use mathlib.Core.Logic.{◌↔◌}
use mathlib.Core.Bool.{Bool, true, false, ◌&&◌}
use mathlib.Core.List.{List, [], ◌∷◌}
use native.Mathlib.Omega.{arith}
use soqtec.Base.Tests.{◌==◌}

abbrev pub Text : Type 0
Text = List ℕ

abbrev pub text : String → Text
text String.[] = []
text (String.◌∷◌ c s) = code c ∷ text s

-- `===` on strings
infix 50 ◌===◌
unfoldable pub ◌===◌ : Text → Text → Bool
[] === [] = true
[] === (d ∷ t) = false
(c ∷ s) === [] = false
(c ∷ s) === (d ∷ t) = c == d && s === t

===-eq : (s t : Text) → (s === t) ≡ true → s ≡ t
unfolding ◌===◌
===-eq [] [] h = refl
===-eq [] (d ∷ t) h = ground arith
===-eq (c ∷ s) [] h = ground arith
===-eq (c ∷ s) (d ∷ t) h = ground (arith, ===-eq s t)

pub ===_refl : (s : Text) → (s === s) ≡ true
unfolding ◌===◌
===_refl [] = refl
===_refl (c ∷ s) = ground (arith, ===_refl s)

pub ===_iff : (s t : Text) → ((s === t) ≡ true) ↔ (s ≡ t)
===_iff s t = (===-eq s t, λ e. subst_same s t e)
  where
    subst_same : (s t : Text) → s ≡ t → (s === t) ≡ true
    subst_same s t e = rw e (===_refl t)
