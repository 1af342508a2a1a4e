-- ===== src/Text/Quote.antt =====
-- strconv.Quote, which `%q` prints. Runes beyond ASCII are taken to be printable.
use Prim.Native.String.{[], ◌∷◌, char_at, ◌++◌}
use pangolin_gateway.Prelude.{ℕ, ◌/◌, ◌%◌, ◌||◌, String, Char, code, ltb, nat_beq, if◌then◌else◌}

abbrev hex_digit : ℕ → Char
hex_digit d = char_at "0123456789abcdef" d

abbrev hex_escape : ℕ → String
hex_escape n = "\\x" ++ (hex_digit (n / 16) ∷ hex_digit (n % 16) ∷ [])

-- One rune between the quotes.
unfoldable pub escape : Char → String
escape c =
    let n = code c in
    if nat_beq n b'"'
    then "\\\""
    else if nat_beq n b'\\'
    then "\\\\"
    else if nat_beq n 7
    then "\\a"
    else if nat_beq n 8
    then "\\b"
    else if nat_beq n 12
    then "\\f"
    else if nat_beq n 10
    then "\\n"
    else if nat_beq n 13
    then "\\r"
    else if nat_beq n 9
    then "\\t"
    else if nat_beq n 11
    then "\\v"
    else if ltb n 32 || nat_beq n 127
    then hex_escape n
    else c ∷ []

unfoldable pub escape_all : String → String
unfolding escape
escape_all [] = ""
escape_all (c ∷ s) = escape c ++ escape_all s

unfoldable pub quote : String → String
unfolding escape_all
quote s = "\"" ++ escape_all s ++ "\""
