-- ===== src/Regex.antt =====
-- Regular expressions of the package `regexp`, as far as the source's patterns go, matched against
-- the whole text (each pattern is anchored at both ends), by derivatives.
pub mod Language
use Prim.Native.String.{[], ◌∷◌}
use pangolin_gateway.Prelude.{
  Bool, String, code, false, if◌then◌else◌, suc, true, zero, ℕ, ◌&&◌, ◌||◌,
}

-- A class is a set of runes; `rep_between` is a counted repetition.
pub data Regex : Type 0 where
  never : Regex
  empty : Regex
  class : (ℕ → Bool) → Regex
  seq : Regex → Regex → Regex
  alt : Regex → Regex → Regex
  star : Regex → Regex

-- Whether the empty text matches.
unfoldable pub nullable : Regex → Bool
nullable never = false
nullable empty = true
nullable (class p) = false
nullable (seq r s) = nullable r && nullable s
nullable (alt r s) = nullable r || nullable s
nullable (star r) = true

-- What is left to match once a rune is read.
unfoldable pub deriv : ℕ → Regex → Regex
unfolding nullable
deriv c never = never
deriv c empty = never
deriv c (class p) = if p c then empty else never
deriv c (seq r s) =
    let first = seq (deriv c r) s in if nullable r then alt first (deriv c s) else first
deriv c (alt r s) = alt (deriv c r) (deriv c s)
deriv c (star r) = seq (deriv c r) (star r)

-- MatchString of an anchored pattern.
unfoldable pub matches : Regex → String → Bool
unfolding deriv
matches r [] = nullable r
matches r (c ∷ s) = matches (deriv (code c) r) s

-- `r?`, `r+`, and `r{0,n}`.
abbrev pub opt : Regex → Regex
opt r = alt r empty

abbrev pub plus : Regex → Regex
plus r = seq r (star r)

unfoldable pub up_to : ℕ → Regex → Regex
up_to zero r = empty
up_to (suc n) r = opt (seq r (up_to n r))
