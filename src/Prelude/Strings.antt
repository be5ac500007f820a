-- ===== src/Prelude/Strings.antt =====
-- Text is the list of its bytes: Go's strings, with the equality that `==` decides on them.
use Prim.Native.Nat.{ℕ}
use Prim.Native.Char.{code}
use Prim.Native.String.{String}
use mathlib.Core.Path.{◌≡◌, sym}
use mathlib.Core.Logic.{◌↔◌, inl, inr}
use retrosaver.Prelude.Lists.{Member}
use mathlib.Core.Bool.{Bool, true, false, ◌&&◌, ◌||◌}
use mathlib.Core.List.{List, [], ◌∷◌}
use native.Mathlib.Omega.{arith}
use retrosaver.Prelude.Tests.{◌==◌, Bool-cases}

abbrev pub Text : Type 0
Text = List ℕ

-- The bytes of an ASCII literal.
abbrev pub codes : String → Text
codes String.[] = []
codes (String.◌∷◌ c s) = code c ∷ codes s

unfoldable pub text_eq : Text → Text → Bool
text_eq [] [] = true
text_eq (x ∷ xs) (y ∷ ys) = x == y && text_eq xs ys
text_eq _ _ = false

pub text_eq_iff : (a b : Text) → (text_eq a b ≡ true) ↔ (a ≡ b)
unfolding text_eq
text_eq_iff (x ∷ a) (y ∷ b) = ground (arith, text_eq_iff a b)
text_eq_iff _ _ = ground arith

-- `slices.Equal` on []string.
unfoldable pub texts_eq : List Text → List Text → Bool
texts_eq [] [] = true
texts_eq (x ∷ xs) (y ∷ ys) = text_eq x y && texts_eq xs ys
texts_eq _ _ = false

pub texts_eq_iff : (a b : List Text) → (texts_eq a b ≡ true) ↔ (a ≡ b)
unfolding texts_eq
texts_eq_iff (x ∷ a) (y ∷ b) = ground (arith, text_eq_iff x y, texts_eq_iff a b)
texts_eq_iff _ _ = ground arith

-- `slices.Contains`, and membership in a set built from a list.
unfoldable pub contains : List Text → Text → Bool
contains [] a = false
contains (x ∷ xs) a = text_eq x a || contains xs a

pub contains→Member : (xs : List Text) (a : Text) → contains xs a ≡ true → Member a xs
unfolding contains
contains→Member [] a h = cc
contains→Member (x ∷ xs) a h = elim (Bool-cases (text_eq x a)) [
  | inl e ↦ inl (sym ((text_eq_iff x a).0 e))
  | inr e ↦ inr (contains→Member xs a (rw e at h))
]

pub Member→contains : (xs : List Text) (a : Text) → Member a xs → contains xs a ≡ true
unfolding contains
Member→contains [] a m = elim m [ ]
Member→contains (x ∷ xs) a m = elim m [
  | inl e ↦ rw ((text_eq_iff x a).1 (sym e))
  | inr later ↦ ground (arith, Member→contains xs a later)
]

-- Names of which none occurs twice.
abbrev pub Distinct : List Text → Type 0
Distinct [] = Unit
Distinct (x ∷ xs) = (¬ Member x xs) × Distinct xs
