-- ===== src/Pincode.antt =====
-- internal/gateway/pincode.go: the PIN of a public resource.
pub mod Digits
use pangolin_gateway.Annotation
use Prim.Native.String.{len, [], ◌∷◌}
use pangolin_gateway.Prelude.{
  [], ◌∷◌, Bool, Option, Result, String, code, err, if◌then◌else◌, ltb, none, not, ok, some, true,
  ℕ, ◌==◌, ◌||◌, string_eq, nat_eq,
}
use pangolin_gateway.Annotations.{Annotations, value_of}
use pangolin_gateway.Prelude.Int.{ℤ, pos}
use pangolin_gateway.Text.{atoi, concat, quote, trim_space}

-- raw[0] < '1' || raw[0] > '9', for a text that is not empty.
abbrev bad_first : String → Bool
bad_first [] = true
bad_first (c ∷ s) = ltb (code c) b'1' || ltb b'9' (code c)

abbrev pin_error : String → Result String (Option ℕ)
pin_error raw = err (
    concat (
      "annotation "
      ∷ Annotation.pincode
      ∷ " must be six digits not starting with 0, got "
      ∷ quote raw
      ∷ []))

-- The number of a text that parses. A text that starts with a digit other than 0 has no sign, so a
-- negative number is never kept.
abbrev kept_pin : String → Option ℤ → Result String (Option ℕ)
kept_pin raw (some (pos n)) =
    if not (len raw == 6) || bad_first raw then pin_error raw else ok (some n)
kept_pin raw _ = pin_error raw

-- pincodeFor
unfoldable pub pincode_for : Annotations → Result String (Option ℕ)
pincode_for m =
    let raw = trim_space (value_of m Annotation.pincode) in
    if raw == "" then ok none else kept_pin raw (atoi raw)
