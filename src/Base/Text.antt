-- ===== src/Base/Text.antt =====
-- Text: Go's `==` and `<` on strings, as equality and as the order of their code points.
use Prim.Native.Nat.{ℕ}
use Prim.Native.Char.{code}
use Prim.Native.String.{String, ◌++◌}
use mathlib.Core.Path.{◌≡◌, refl}
use mathlib.Core.Bool.{Bool, true, false}
use mathlib.Core.List.{List, [], ◌∷◌}
use native.Mathlib.Omega.{arith}
use personal_cfo_os.Base.Tests.{ltb, if◌then◌else◌, ◌==◌, string_eq}

-- The code points of a text.
abbrev pub codes : String → List ℕ
codes String.[] = []
codes (String.◌∷◌ c s) = code c ∷ codes s

pub lex_lt : List ℕ → List ℕ → Bool
lex_lt [] [] = false
lex_lt [] (y ∷ ys) = true
lex_lt (x ∷ xs) [] = false
lex_lt (x ∷ xs) (y ∷ ys) =
    let rest = lex_lt xs ys in if ltb x y then true else if ltb y x then false else rest

unfoldable pub str_lt : String → String → Bool
unfolding lex_lt
str_lt a b = lex_lt (codes a) (codes b)

-- `a + b` on strings
abbrev pub push : String → String → String
push a b = a ++ b

abbrev pub is_empty : String → Bool
is_empty s = s == ""

lex_lt_asym : (xs ys : List ℕ) → lex_lt xs ys ≡ true → lex_lt ys xs ≡ false
unfolding lex_lt
lex_lt_asym [] [] h = refl
lex_lt_asym [] (y ∷ ys) h = refl
lex_lt_asym (x ∷ xs) [] h = cc
lex_lt_asym (x ∷ xs) (y ∷ ys) h = ground (arith, lex_lt_asym xs ys)

pub str_lt_asym : (a b : String) → str_lt a b ≡ true → str_lt b a ≡ false
unfolding str_lt
str_lt_asym a b = lex_lt_asym (codes a) (codes b)

before_lem : str_lt "item-1" "item-2" ≡ true
unfolding str_lt
before_lem = refl
