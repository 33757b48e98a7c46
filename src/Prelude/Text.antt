-- ===== src/Prelude/Text.antt =====
-- Text as the list of its UTF-8 bytes, with what the sources use of `str`: `contains`, `replace`,
-- `starts_with`, `join`, and ASCII literals.
use Prim.Native.Char.{code}
use Prim.Native.Nat.{ℕ, zero, suc, ◌-◌}
use Prim.Native.String.{String}
use mathlib.Core.Path.{◌≡◌, refl, ap, ◌∙◌, sym}
use mathlib.Core.Logic.{◌↔◌}
use mathlib.Core.Bool.{Bool, true, false, ◌&&◌, ◌||◌}
use mathlib.Core.List.{List, [], ◌∷◌, ◌++◌}
use native.Mathlib.Omega.{arith}
use strawberry_background.Prelude.Tests.{Eq, nat_eq, nat_eq_iff}
use strawberry_background.Prelude.Lists.{length}

abbrev pub Text : Type 0
Text = List ℕ

-- An ASCII literal.
abbrev pub ascii : String → Text
ascii String.[] = []
ascii (String.◌∷◌ c s) = code c ∷ ascii s

abbrev pub text_eq : Text → Text → Bool
text_eq [] [] = true
text_eq [] (b ∷ t) = false
text_eq (a ∷ s) [] = false
text_eq (a ∷ s) (b ∷ t) = nat_eq a b && text_eq s t

text_eq_to : (s t : Text) → text_eq s t ≡ true → s ≡ t
text_eq_to [] [] h = refl
text_eq_to [] (b ∷ t) h = cc h
text_eq_to (a ∷ s) [] h = cc h
text_eq_to (a ∷ s) (b ∷ t) h = ground (arith, text_eq_to s t, nat_eq_iff a b)

text_eq_refl : (s : Text) → text_eq s s ≡ true
text_eq_refl [] = refl
text_eq_refl (a ∷ s) = ground (arith, text_eq_refl s)

pub text_eq_iff : (s t : Text) → (text_eq s t ≡ true) ↔ (s ≡ t)
text_eq_iff s t = (text_eq_to s t, λ e. ap (text_eq s) (sym e) ∙ text_eq_refl s)

instance abbrev pub Text-eq : Eq Text
Text-eq = record { beq = text_eq; beq_iff = text_eq_iff }

abbrev pub starts_with : Text → Text → Bool
starts_with [] t = true
starts_with (a ∷ s) [] = false
starts_with (a ∷ s) (b ∷ t) = nat_eq a b && starts_with s t

-- Does the second text have the first in it?
abbrev pub contains_text : Text → Text → Bool
contains_text s [] = starts_with s []
contains_text s (b ∷ t) = starts_with s (b ∷ t) || contains_text s t

-- `replace`, from the left and without overlap, for a pattern that is not empty; `skip` bytes belong
-- to the match before.
abbrev pub replace_from : Text → Text → ℕ → Text → Text
replace_from pattern' to skip [] = []
replace_from pattern' to (suc skip) (b ∷ t) = replace_from pattern' to skip t
replace_from pattern' to zero (b ∷ t) = elim (starts_with pattern' (b ∷ t)) [
  | true ↦ to ++ replace_from pattern' to (length pattern' - 1) t
  | false ↦ b ∷ replace_from pattern' to 0 t
]

abbrev pub replace : Text → Text → Text → Text
replace pattern' to text = replace_from pattern' to 0 text

abbrev pub join : Text → List Text → Text
join separator [] = []
join separator (t ∷ []) = t
join separator (t ∷ u ∷ us) = t ++ (separator ++ join separator (u ∷ us))
