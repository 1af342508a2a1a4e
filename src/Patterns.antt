-- ===== src/Patterns.antt =====
-- The regular expressions of internal/gateway: privateresource.go (hostnamePattern, aliasPattern),
-- emailwhitelist.go (emailPattern, wildcardPattern) and policy.go (pincodePattern).
use pangolin_gateway.Prelude.{Bool, false, leb, refl, true, ℕ, ◌&&◌, ◌==◌, ◌||◌, ◌≡◌, nat_eq}
use pangolin_gateway.Regex.{Regex, class, matches, opt, plus, seq, star, up_to}

abbrev lowers : ℕ → Bool
lowers c = leb b'a' c && leb c b'z'

abbrev letters : ℕ → Bool
letters c = lowers c || (leb b'A' c && leb c b'Z')

abbrev digits : ℕ → Bool
digits c = leb b'0' c && leb c b'9'

abbrev alnum : ℕ → Bool
alnum c = letters c || digits c

abbrev one : ℕ → ℕ → Bool
one a c = c == a

-- One label: `edge(?:inner{0,61}edge)?`
unfoldable pub label : (ℕ → Bool) → (ℕ → Bool) → Regex
unfolding up_to
label edge inner = seq (class edge) (opt (seq (up_to 61 (class inner)) (class edge)))

abbrev dot : Regex
dot = class (one b'.')

unfoldable pub host_label : Regex
unfolding label
host_label = label alnum (λ c. alnum c || one b'-' c)

unfoldable pub hostname_pattern : Regex
unfolding host_label
hostname_pattern = seq (star (seq host_label dot)) host_label

abbrev wild : ℕ → Bool
wild c = alnum c || one b'*' c || one b'?' c

unfoldable pub alias_label : Regex
unfolding label
alias_label = label wild (λ c. wild c || one b'-' c)

unfoldable pub alias_pattern : Regex
unfolding host_label alias_label
alias_pattern = seq (plus (seq alias_label dot)) host_label

-- `[A-Za-z]{2,}`
abbrev top_level : Regex
top_level = seq (class letters) (plus (class letters))

unfoldable pub email_pattern : Regex
email_pattern =
    seq
      (star
        (class (λ c. alnum c || one b'_' c || one 39 c || one b'+' c || one b'-' c || one b'.' c)))
      (seq (class (λ c. alnum c || one b'_' c || one b'+' c || one b'-' c)) (
        seq (class (one b'@')) (
          seq (plus (seq (class alnum) (seq (star (class (λ c. alnum c || one b'-' c))) dot)))
            top_level)))

unfoldable pub wildcard_pattern : Regex
wildcard_pattern = seq (class (one b'*')) (
    seq (class (one b'@')) (
      seq (plus (class (λ c. alnum c || one b'_' c || one b'.' c || one b'-' c)))
        (seq dot top_level)))

unfoldable pub pincode_pattern : Regex
pincode_pattern = seq (class digits) (
    seq (class digits)
      (seq (class digits) (seq (class digits) (seq (class digits) (class digits)))))

hostname_test : matches hostname_pattern "db-1.internal.example.com" ≡ true
unfolding matches hostname_pattern
hostname_test = refl

alias_test : matches alias_pattern "*.internal.example" ≡ true
unfolding matches alias_pattern
alias_test = refl

alias_reject_test : matches alias_pattern "localhost" ≡ false
unfolding matches alias_pattern
alias_reject_test = refl

email_test : matches email_pattern "alice.b@mail.example.com" ≡ true
unfolding matches email_pattern
email_test = refl
