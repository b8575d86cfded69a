-- ===== src/Prelude/Decimal.antt =====
-- Decimal text: `%u` of `printf`, and the number that `atoi` and `strtol` read.
use Prim.Native.Nat.{ℕ, zero, suc, ◌+◌, ◌-◌, ◌*◌, ◌/◌, ◌%◌}
use mathlib.Core.Bool.{Bool, ◌&&◌, ◌||◌}
use mathlib.Core.List.{List, [], ◌∷◌}
use gearmand.Prelude.Tests.{ltb, leb, ◌==◌, if◌then◌else◌}
use gearmand.Prelude.Int.{ℤ, pos, negsuc}

-- The digits of `n`, the last ones in `acc`; a `uint32_t` has at most ten.
pub digits_onto : ℕ → ℕ → List ℕ → List ℕ
digits_onto zero n acc = acc
digits_onto (suc f) n acc =
    let rest = digits_onto f (n / 10) ((48 + n % 10) ∷ acc) in
    if ltb n 10 then (48 + n) ∷ acc else rest

unfoldable pub print_u32 : ℕ → List ℕ
unfolding digits_onto
print_u32 n = digits_onto 10 n []

abbrev is_digit : ℕ → Bool
is_digit c = leb 48 c && leb c 57

read_digits : ℕ → List ℕ → ℕ
read_digits acc [] = acc
read_digits acc (c ∷ cs) =
    let rest = read_digits (acc * 10 + (c - 48)) cs in if is_digit c then rest else acc

abbrev is_space : ℕ → Bool
is_space c = (c == 32) || (leb 9 c && leb c 13)

skip_spaces : List ℕ → List ℕ
skip_spaces [] = []
skip_spaces (c ∷ cs) = let rest = skip_spaces cs in if is_space c then rest else c ∷ cs

abbrev negate : ℕ → ℤ
negate zero = pos 0
negate (suc n) = negsuc n

read_signed : List ℕ → ℤ
unfolding read_digits
read_signed [] = pos 0
read_signed (c ∷ cs) =
    if c == 45
    then negate (read_digits 0 cs)
    else if c == 43
    then pos (read_digits 0 cs)
    else pos (read_digits 0 (c ∷ cs))

-- Blanks, a sign, digits up to the first other byte.
unfoldable pub read_decimal : List ℕ → ℤ
unfolding skip_spaces read_signed
read_decimal s = read_signed (skip_spaces s)
