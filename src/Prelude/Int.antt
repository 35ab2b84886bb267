-- ===== src/Prelude/Int.antt =====
-- Go's int and int64 as integers, with strconv.Atoi. `negsuc n` is -(n + 1).
use Prim.Native.Nat.{ℕ, zero, suc, ◌-◌, ◌%◌, ◌^◌, ◌<◌}
use mathlib.Core.Path.{◌≡◌}
use mathlib.Core.Bool.{Bool, true, false}
use mathlib.Core.Option.{Option, none, some}
use mathlib.Core.List.{[], ◌∷◌}
use native.Mathlib.Omega.{arith}
use tor_rotating_http_proxy.Prelude.Tests.{ltb, leb, ◌==◌, if◌then◌else◌}
use tor_rotating_http_proxy.Prelude.Bytes.{Bytes, unsigned}

pub data ℤ : Type 0 where
  pos : ℕ → ℤ
  negsuc : ℕ → ℤ

abbrev pub neg : ℕ → ℤ
neg zero = pos 0
neg (suc n) = negsuc n

abbrev pub int_eq : ℤ → ℤ → Bool
int_eq (pos m) (pos n) = m == n
int_eq (pos m) (negsuc n) = false
int_eq (negsuc m) (pos n) = false
int_eq (negsuc m) (negsuc n) = m == n

-- z < n and n < z, for a natural number
abbrev pub lt_nat : ℤ → ℕ → Bool
lt_nat (pos m) n = ltb m n
lt_nat (negsuc m) n = true

abbrev pub gt_nat : ℤ → ℕ → Bool
gt_nat (pos m) n = ltb n m
gt_nat (negsuc m) n = false

-- A negative number counts as zero.
abbrev pub pos_part : ℤ → ℕ
pos_part (pos n) = n
pos_part (negsuc n) = 0

-- The int64 whose bit pattern a product of naturals leaves
abbrev pub wrap64 : ℕ → ℤ
wrap64 n = if ltb (n % 2 ^ 64) (2 ^ 63) then pos (n % 2 ^ 64) else negsuc (2 ^ 64 - n % 2 ^ 64 - 1)

abbrev in_range : (ℕ → ℤ) → ℕ → Option ℕ → Option ℤ
in_range sign limit none = none
in_range sign limit (some n) = if leb n limit then some (sign n) else none

-- strconv.Atoi: a sign, or none, and digits, of an int of 64 bits
unfoldable pub atoi : Bytes → Option ℤ
atoi [] = none
atoi (b ∷ bs) =
    if b == b'+'
    then in_range pos (2 ^ 63 - 1) (unsigned bs)
    else (if b == b'-'
        then in_range neg (2 ^ 63) (unsigned bs)
        else in_range pos (2 ^ 63 - 1) (unsigned (b ∷ bs)))

-- A product below 2 ^ 63 does not wrap.
pub wrap64_of_lt : (n : ℕ) → n < 2 ^ 63 → wrap64 n ≡ pos n
wrap64_of_lt n h = ground arith
