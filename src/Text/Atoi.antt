-- ===== src/Text/Atoi.antt =====
-- strconv.Atoi on a 64-bit platform, and the decimal form that `%d` prints.
use Prim.Native.String.{[], ◌∷◌, char_at, ◌++◌}
use pangolin_gateway.Prelude.{
  ℕ, zero, suc, ◌+◌, ◌-◌, ◌*◌, ◌/◌, ◌%◌, ◌^◌, Bool, ◌&&◌, Option, none, some, String, Char, code,
  leb, ltb, nat_beq, if◌then◌else◌,
}
use pangolin_gateway.Prelude.Int.{ℤ, pos, negsuc}

unfoldable pub is_digit : Char → Bool
is_digit c = leb b'0' (code c) && leb (code c) b'9'

-- The value of a run of digits, read on from `acc`.
unfoldable pub digits_from : ℕ → String → Option ℕ
unfolding is_digit
digits_from acc [] = some acc
digits_from acc (c ∷ s) =
    let rest = digits_from (10 * acc + (code c - b'0')) s in if is_digit c then rest else none

-- At least one digit, and nothing else.
unfoldable pub digits_value : String → Option ℕ
unfolding digits_from
digits_value [] = none
digits_value (c ∷ s) = digits_from 0 (c ∷ s)

abbrev pub to_positive : Option ℕ → Option ℤ
to_positive none = none
to_positive (some n) = if ltb n (2 ^ 63) then some (pos n) else none

abbrev to_negative : Option ℕ → Option ℤ
to_negative none = none
to_negative (some zero) = some (pos 0)
to_negative (some (suc n)) = if ltb n (2 ^ 63) then some (negsuc n) else none

-- `none` is a syntax error or a number out of the range of int64.
unfoldable pub atoi : String → Option ℤ
unfolding digits_value
atoi [] = none
atoi (c ∷ s) =
    if nat_beq (code c) b'-'
    then to_negative (digits_value s)
    else if nat_beq (code c) b'+'
    then to_positive (digits_value s)
    else to_positive (digits_value (c ∷ s))

abbrev digit : ℕ → Char
digit d = char_at "0123456789" d

-- A number has at most as many digits as its own size.
unfoldable pub itoa_from : ℕ → ℕ → String → String
itoa_from zero n acc = acc
itoa_from (suc fuel) n acc =
    let shown = digit (n % 10) ∷ acc in
    let more = itoa_from fuel (n / 10) shown in if ltb n 10 then shown else more

unfoldable pub itoa : ℕ → String
unfolding itoa_from
itoa n = itoa_from (n + 1) n ""

unfoldable pub itoa_ℤ : ℤ → String
unfolding itoa
itoa_ℤ (pos n) = itoa n
itoa_ℤ (negsuc n) = "-" ++ itoa (n + 1)
