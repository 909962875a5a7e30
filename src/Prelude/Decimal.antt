-- ===== src/Prelude/Decimal.antt =====
-- Go's `int` and how `%d` and `strconv.Itoa` print it. The values stay far from the machine's
-- bounds, and nothing here computes with them.
use Prim.Native.Nat.{ℕ, zero, suc, ◌+◌, ◌/◌, ◌%◌}
use Prim.Native.String.{String, ◌++◌}
use mathlib.Core.Path.{◌≡◌, refl}
use mathlib.Core.Bool.{Bool, false}
use kcp_operator.Prelude.Tests.{ltb, eqb, if◌then◌else◌}

-- `negsuc n` is -(n + 1).
pub data ℤ : Type 0 where
  pos : ℕ → ℤ
  negsuc : ℕ → ℤ

abbrev pub is_zero : ℤ → Bool
is_zero (pos n) = eqb n 0
is_zero (negsuc n) = false

digit : ℕ → String
digit zero = "0"
digit (suc zero) = "1"
digit (suc (suc zero)) = "2"
digit (suc (suc (suc zero))) = "3"
digit (suc (suc (suc (suc zero)))) = "4"
digit (suc (suc (suc (suc (suc zero))))) = "5"
digit (suc (suc (suc (suc (suc (suc zero)))))) = "6"
digit (suc (suc (suc (suc (suc (suc (suc zero))))))) = "7"
digit (suc (suc (suc (suc (suc (suc (suc (suc zero)))))))) = "8"
digit _ = "9"

-- A number has at most as many digits as its value, plus one.
digits : ℕ → ℕ → String
digits zero n = ""
digits (suc fuel) n =
    let rest = digits fuel (n / 10) in if ltb n 10 then digit n else rest ++ digit (n % 10)

unfoldable pub print_nat : ℕ → String
unfolding digits digit
print_nat n = digits (n + 1) n

unfoldable pub print_int : ℤ → String
unfolding print_nat
print_int (pos n) = print_nat n
print_int (negsuc n) = "-" ++ print_nat (n + 1)

print_int_samples :
    (print_int (pos 0) ≡ "0") × (print_int (pos 6443) ≡ "6443") × (print_int (negsuc 41) ≡ "-42")
unfolding print_int
print_int_samples = (refl, refl, refl)
