-- ===== src/Base/Texts.antt =====
-- Texts as lists of UTF-16 code units, and their equality.
use Prim.Native.Nat.{ℕ}
use mathlib.Core.Path.{◌≡◌, refl}
use mathlib.Core.Bool.{Bool, true, false, ◌&&◌}
use mathlib.Core.List.{List, [], ◌∷◌}
use native.Mathlib.Omega.{arith}
use beleqet_ecosystem_update.Base.Tests.{◌==◌}

abbrev pub Text : Type 0
Text = List ℕ

unfoldable pub equals : Text → Text → Bool
equals [] [] = true
equals [] (_ ∷ _) = false
equals (_ ∷ _) [] = false
equals (c ∷ cs) (d ∷ ds) = c == d && equals cs ds

pub equals_sound : (t u : Text) → equals t u ≡ true → t ≡ u
unfolding equals
equals_sound [] [] h = refl
equals_sound [] (d ∷ ds) h = absurd cc
equals_sound (c ∷ cs) [] h = absurd cc
equals_sound (c ∷ cs) (d ∷ ds) h =
    let rest = equals_sound cs ds in
    let head : c ≡ d = ground arith in let tail : cs ≡ ds = rest (ground arith) in cc

pub equals_refl : (t : Text) → equals t t ≡ true
unfolding equals
equals_refl [] = refl
equals_refl (c ∷ cs) = ground (arith, equals_refl cs)
