-- ===== src/Text/Laws.antt =====
-- Facts on texts that several components use.
use Prim.Native.String.{[], ◌∷◌}
use pangolin_gateway.Prelude.{◌≡◌, refl}
use pangolin_gateway.Text.{trim_space, split, atoi, to_lower, quote, itoa, join}
use pangolin_gateway.Prelude.Int.{pos}
use mathlib.Core.List.{[], ◌∷◌}
use mathlib.Core.Option.{some}

trim_test : trim_space " \t a b \n" ≡ "a b"
unfolding trim_space
trim_test = refl

split_test : split "a,,b" b',' ≡ "a" ∷ "" ∷ "b" ∷ []
unfolding split
split_test = refl

atoi_test : atoi "00120" ≡ some (pos 120)
unfolding atoi
atoi_test = refl

lower_test : to_lower "AbC.De" ≡ "abc.de"
unfolding to_lower
lower_test = refl

quote_test : quote "a\"b\n" ≡ "\"a\\\"b\\n\""
unfolding quote
quote_test = refl

itoa_test : itoa 65535 ≡ "65535"
unfolding itoa
itoa_test = refl

join_test : join ("a" ∷ "b" ∷ []) ", " ≡ "a, b"
unfolding join
join_test = refl
