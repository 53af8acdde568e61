-- ===== src/Common/Texts.antt =====
-- Texts as lists of UTF-16 code units: equality, prefixes and splitting.
use Prim.Native.Nat.{ℕ}
use mathlib.Core.Path.{◌≡◌, refl, subst}
use mathlib.Core.Logic.{◌≢◌}
use mathlib.Core.Bool.{Bool, true, false, ◌&&◌, ◌||◌}
use mathlib.Core.List.{List, [], ◌∷◌}
use hub_assist.Common.Tests.{leb, ◌==◌, ==→eq, ==_refl, if◌then◌else◌}

abbrev pub Text : Type 0
Text = List ℕ

abbrev pub text_eq : Text → Text → Bool
text_eq [] [] = true
text_eq [] (d ∷ ds) = false
text_eq (c ∷ cs) [] = false
text_eq (c ∷ cs) (d ∷ ds) = c == d && text_eq cs ds

pub &&-both : (a b : Bool) → (a && b) ≡ true → (a ≡ true) × (b ≡ true)
&&-both true b h = (refl, h)
&&-both false b h = cc

pub text_eq→eq : (a b : Text) → text_eq a b ≡ true → a ≡ b
text_eq→eq [] [] h = refl
text_eq→eq [] (d ∷ ds) h = cc
text_eq→eq (c ∷ cs) [] h = cc
text_eq→eq (c ∷ cs) (d ∷ ds) h =
    let both = &&-both (c == d) (text_eq cs ds) h in
    rw (==→eq c d both.0, text_eq→eq cs ds both.1) refl

pub text_eq_refl : (a : Text) → text_eq a a ≡ true
text_eq_refl [] = refl
text_eq_refl (c ∷ cs) = rw (==_refl c, text_eq_refl cs) refl

pub text_eq-false : (a b : Text) → text_eq a b ≡ false → a ≢ b
text_eq-false a b h e = let t = subst (λ x. text_eq a x ≡ true) e (text_eq_refl a) in cc

-- `text.startsWith(prefix)`.
abbrev pub starts_with : Text → Text → Bool
starts_with text [] = true
starts_with [] (p ∷ ps) = false
starts_with (c ∷ cs) (p ∷ ps) = c == p && starts_with cs ps

-- `list.includes(text)`.
abbrev pub includes : List Text → Text → Bool
includes [] text = false
includes (t ∷ ts) text = let rest = includes ts text in if text_eq t text then true else rest

-- `text.split(separator)` of one unit: the first part, and those after it.
abbrev pub split : ℕ → Text → Text × List Text
split separator [] = ([], [])
split separator (c ∷ cs) =
    let rest = split separator cs in
    if c == separator then ([], rest.0 ∷ rest.1) else (c ∷ rest.0, rest.1)

-- What `\s` of a pattern matches, and `trim` drops.
abbrev pub is_space : ℕ → Bool
is_space c =
    (leb 9 c && leb c 13)
    || c == 32
    || c == 160
    || c == 5760
    || (leb 8192 c && leb c 8202)
    || c == 8232
    || c == 8233
    || c == 8239
    || c == 8287
    || c == 12288
    || c == 65279
