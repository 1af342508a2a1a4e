-- ===== src/Ports.antt =====
-- internal/gateway/privateresource.go: checkPortRanges and portNumber.
pub mod Ranges
use Prim.Native.String
use pangolin_gateway.Prelude.{
  Bool, List, Option, Result, String, [], err, false, if◌then◌else◌, leb, ltb, none, ok, some, true,
  ℕ, ◌==◌, ◌>>=◌, ◌||◌, ◌∷◌, string_eq,
}
use pangolin_gateway.Prelude.Int.{ℤ, pos, negsuc}
use pangolin_gateway.Text.{atoi, concat, cut, quote, split, trim_space}

abbrev pub port_error : String → Result String ℕ
port_error s = err (concat (quote (trim_space s) ∷ " is not a port between 1 and 65535" ∷ []))

abbrev pub port_of : String → Option ℤ → Result String ℕ
port_of s (some (pos n)) = if ltb n 1 || ltb 65535 n then port_error s else ok n
port_of s _ = port_error s

-- portNumber
unfoldable pub port_number : String → Result String ℕ
port_number s = port_of s (atoi (trim_space s))

abbrev pub in_raw : {A : Type 0} → String → Result String A → Result String A
in_raw raw (ok a) = ok a
in_raw raw (err e) = err (concat (quote raw ∷ ": " ∷ e ∷ []))

-- One trimmed part: a port or a range.
unfoldable pub port_range : String → String → Result String (ℕ × ℕ)
unfolding port_number
port_range raw part =
    if part == ""
    then err (concat (quote raw ∷ " has an empty entry" ∷ []))
    else let (lo, hi, ranged) = cut part b'-' in
      in_raw raw (port_number lo) >>= λ start.
      (if ranged then in_raw raw (port_number hi) else ok start) >>= λ end.
      if ltb end start
      then err (concat (quote raw ∷ ": range " ∷ part ∷ " starts after it ends" ∷ []))
      else ok (start, end)

-- The loop over the parts. The ranges are what the source checks and drops.
unfoldable pub port_ranges : String → List String → Result String (List (ℕ × ℕ))
unfolding port_range
port_ranges raw [] = ok []
port_ranges raw (part ∷ parts) = port_range raw (trim_space part) >>= λ range.
    port_ranges raw parts >>= λ ranges. ok (range ∷ ranges)

-- checkPortRanges
unfoldable pub check_port_ranges : String → Result String (List (ℕ × ℕ))
unfolding port_ranges
check_port_ranges raw =
    if trim_space raw == "" || trim_space raw == "*"
    then ok []
    else port_ranges raw (split raw b',')
