-- ===== src/Prelude/Text.antt =====
-- Texts: equality as a Boolean test, and e-mail addresses as lists of character codes.
pub use text.Mathlib.Text.{◌==◌ as str_eq}
pub use text.Mathlib.TextEquality.{eq_iff as str_eq_iff}
use Prim.Native.Char.{code}
use Prim.Native.Nat.{ℕ, ◌+◌}
use Prim.Native.String.{String}
use mathlib.Core.Path.{◌≡◌, refl}
use mathlib.Core.Bool.{Bool, true, false, ◌&&◌, ◌||◌}
use mathlib.Core.List.{List, [], ◌∷◌}
use native.Mathlib.Omega.{arith}
use playslot.Prelude.Tests.{leb, ◌==◌, if◌then◌else◌}

-- The character codes of a text.
abbrev pub codes : String → List ℕ
codes String.[] = []
codes (String.◌∷◌ c s) = code c ∷ codes s

-- `a === b`
abbrev pub codes_eq : List ℕ → List ℕ → Bool
codes_eq [] [] = true
codes_eq (x ∷ xs) (y ∷ ys) = x == y && codes_eq xs ys
codes_eq xs ys = false

pub codes_eq→eq : (a b : List ℕ) → codes_eq a b ≡ true → a ≡ b
codes_eq→eq [] [] h = refl
codes_eq→eq (x ∷ xs) (y ∷ ys) h = ground (arith, codes_eq→eq xs ys)
codes_eq→eq [] (y ∷ ys) h = cc
codes_eq→eq (x ∷ xs) [] h = cc

pub codes_eq_refl : (a : List ℕ) → codes_eq a a ≡ true
codes_eq_refl [] = refl
codes_eq_refl (x ∷ xs) = ground (arith, codes_eq_refl xs)

-- `a.endsWith(b)`
abbrev pub ends_with : List ℕ → List ℕ → Bool
ends_with [] b = codes_eq [] b
ends_with (x ∷ xs) b = codes_eq (x ∷ xs) b || ends_with xs b

-- `toLowerCase` on ASCII, character by character.
abbrev pub lower : ℕ → ℕ
lower c = if leb b'A' c && leb c b'Z' then c + 32 else c
