-- ===== src/Network.antt =====
-- The addresses of the package `net` that the source checks: net.ParseIP and net.ParseCIDR, as
-- tests. An address with a zone is refused by both.
use Prim.Native.String.{[], ◌∷◌}
use pangolin_gateway.Prelude.{
  Bool, Char, List, Option, String, code, false, if◌then◌else◌, leb, nat_beq, none, not, refl, some,
  suc, true, zero, ℕ, ◌&&◌, ◌+◌, ◌-◌, ◌==◌, ◌||◌, ◌≡◌, [], ◌∷◌, string_eq, nat_eq,
}
use pangolin_gateway.Text.{cut, digits_value, is_digit, split}

unfoldable pub is_hex : Char → Bool
is_hex c =
    let n = code c in
    (leb b'0' n && leb n b'9') || (leb b'a' n && leb n b'f') || (leb b'A' n && leb n b'F')

-- A part of a dotted address: digits without a leading zero, at most 255.
abbrev small : Option ℕ → Bool
small none = false
small (some n) = leb n 255

unfoldable pub is_octet : String → Bool
is_octet [] = false
is_octet (c ∷ []) = is_digit c
is_octet (c ∷ d ∷ s) = not (nat_beq (code c) b'0') && small (digits_value (c ∷ d ∷ s))

abbrev four_octets : List String → Bool
four_octets (a ∷ b ∷ c ∷ d ∷ []) = is_octet a && is_octet b && is_octet c && is_octet d
four_octets _ = false

unfoldable pub is_ipv4 : String → Bool
unfolding is_octet
is_ipv4 s = four_octets (split s b'.')

-- The leading hexadecimal digits, counted, and what stands behind them.
unfoldable pub span_hex : String → ℕ × String
unfolding is_hex
span_hex [] = (0, [])
span_hex (c ∷ s) = let (n, rest) = span_hex s in if is_hex c then (n + 1, rest) else (0, c ∷ s)

-- The groups are complete, or the ellipsis stands for at least one.
abbrev complete : ℕ → Bool → Bool
complete room ellipsis = if room == 0 then not ellipsis else ellipsis

abbrev dotted_tail : ℕ → Bool → String → Bool
dotted_tail room ellipsis s =
    (ellipsis || room == 2) && leb 2 room && is_ipv4 s && complete (room - 2) ellipsis

-- Behind the colon that follows a group: an ellipsis, or the next group.
abbrev next_group : (Bool → String → Bool) → ℕ → Bool → String → Bool
next_group more room ellipsis [] = false
next_group more room ellipsis (c ∷ s) =
    if nat_beq (code c) b':'
    then not ellipsis && (if s == "" then complete room true else more true s)
    else more ellipsis (c ∷ s)

abbrev after_group : (Bool → String → Bool) → ℕ → Bool → String → String → Bool
after_group more room ellipsis whole [] = complete room ellipsis
after_group more room ellipsis whole (c ∷ s) =
    if nat_beq (code c) b'.'
    then dotted_tail (suc room) ellipsis whole
    else nat_beq (code c) b':' && next_group more room ellipsis s

-- The groups from here on, of which `room` fit.
unfoldable pub groups : ℕ → Bool → String → Bool
unfolding span_hex is_ipv4
groups zero ellipsis s = false
groups (suc room) ellipsis s =
    let (n, rest) = span_hex s in
    leb 1 n && leb n 4 && after_group (λ e t. groups room e t) room ellipsis s rest

unfoldable pub is_ipv6 : String → Bool
unfolding groups
is_ipv6 [] = false
is_ipv6 (c ∷ []) = false
is_ipv6 (c ∷ d ∷ s) =
    if nat_beq (code c) b':' && nat_beq (code d) b':'
    then (s == "" || groups 8 true s)
    else groups 8 false (c ∷ d ∷ s)

-- netip.ParseAddr: the number of bits of the address, by the first of `.`, `:` and `%`.
abbrev bits_if : Bool → ℕ → Option ℕ
bits_if valid n = if valid then some n else none

unfoldable pub address_from : String → String → Option ℕ
unfolding is_ipv6 is_ipv4
address_from whole [] = none
address_from whole (c ∷ s) =
    if nat_beq (code c) b'.'
    then bits_if (is_ipv4 whole) 32
    else if nat_beq (code c) b':'
    then bits_if (is_ipv6 whole) 128
    else if nat_beq (code c) b'%'
    then none
    else address_from whole s

unfoldable pub address_bits : String → Option ℕ
unfolding address_from
address_bits s = address_from s s

abbrev is_some {ℓ} : {A : Type ℓ} → Option A → Bool
is_some none = false
is_some (some a) = true

-- net.ParseIP(s) != nil
unfoldable pub is_ip : String → Bool
unfolding address_bits
is_ip s = is_some (address_bits s)

abbrev mask_fits : Option ℕ → Option ℕ → Bool
mask_fits (some bits) (some n) = leb n bits
mask_fits _ _ = false

-- net.ParseCIDR without an error.
unfoldable pub is_cidr : String → Bool
unfolding address_bits
is_cidr s =
    let (addr, mask, found) = cut s b'/' in
    found && mask_fits (address_bits addr) (digits_value mask)

ip_tests :
    (is_ip "10.0.0.1" ≡ true)
    × (is_ip "10.0.0.01" ≡ false)
    × (is_ip "256.0.0.1" ≡ false)
    × (is_ip "fe80::1" ≡ true)
    × (is_ip "::" ≡ true)
    × (is_ip "::ffff:192.0.2.1" ≡ true)
    × (is_ip "1:2:3:4:5:6:7:8" ≡ true)
    × (is_ip "1:2:3:4:5:6:7::8" ≡ false)
    × (is_ip "1::2::3" ≡ false)
    × (is_ip "fe80::1%eth0" ≡ false)
    × (is_ip "example" ≡ false)
    × (is_ip "" ≡ false)
unfolding is_ip digits_value split is_digit
ip_tests = (refl, refl, refl, refl, refl, refl, refl, refl, refl, refl, refl, refl)

cidr_tests :
    (is_cidr "10.0.0.0/8" ≡ true)
    × (is_cidr "10.0.0.0/33" ≡ false)
    × (is_cidr "2001:db8::/64" ≡ true)
    × (is_cidr "10.0.0.0" ≡ false)
    × (is_cidr "10.0.0.0/" ≡ false)
unfolding is_cidr digits_value split is_digit cut
cidr_tests = (refl, refl, refl, refl, refl)
