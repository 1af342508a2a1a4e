-- ===== src/Text/Escape.antt =====
-- url.PathEscape: a text as one segment of a path.
use Prim.Native.String.{[], ◌∷◌, char_at, ◌++◌}
use pangolin_gateway.Prelude.{
  Bool, Char, String, code, if◌then◌else◌, leb, ltb, nat_beq, ℕ, ◌%◌, ◌&&◌, ◌+◌, ◌/◌, ◌||◌,
}

abbrev upper_hex : ℕ → Char
upper_hex d = char_at "0123456789ABCDEF" d

abbrev percent : ℕ → String
percent n = "%" ++ (upper_hex (n / 16) ∷ upper_hex (n % 16) ∷ [])

-- The bytes of a character's UTF-8, each as an escape.
unfoldable pub escape_bytes : ℕ → String
escape_bytes n =
    if ltb n 0x80
    then percent n
    else if ltb n 0x800
    then percent (0xc0 + n / 64) ++ percent (0x80 + n % 64)
    else if ltb n 0x10000
    then percent (0xe0 + n / 4096) ++ (percent (0x80 + n / 64 % 64) ++ percent (0x80 + n % 64))
    else percent (0xf0 + n / 262144)
      ++ (percent (0x80 + n / 4096 % 64)
          ++ (percent (0x80 + n / 64 % 64) ++ percent (0x80 + n % 64)))

-- What stands for itself: letters, digits, `-_.~`, and the reserved `$&+:=@`.
unfoldable pub is_plain : Char → Bool
is_plain c =
    let n = code c in
    (leb b'a' n && leb n b'z')
    || (leb b'A' n && leb n b'Z')
    || (leb b'0' n && leb n b'9')
    || nat_beq n b'-'
    || nat_beq n b'_'
    || nat_beq n b'.'
    || nat_beq n b'~'
    || nat_beq n b'$'
    || nat_beq n b'&'
    || nat_beq n b'+'
    || nat_beq n b':'
    || nat_beq n b'='
    || nat_beq n b'@'

unfoldable pub path_escape : String → String
unfolding escape_bytes is_plain
path_escape [] = []
path_escape (c ∷ s) =
    if is_plain c then c ∷ path_escape s else escape_bytes (code c) ++ path_escape s
