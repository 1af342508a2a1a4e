-- ===== src/PrivateResources/Shape.antt =====
-- internal/gateway/privateresource.go: what a private entry that is published looks like.
use pangolin_gateway.Api
use pangolin_gateway.Prelude.{
  negated_true, ==_false, ==_sound, Bool, Bool-cases, List, Option, String, [], false, inl, inr,
  none, not, ok, refl, some, true, ℕ, ◌&&◌, ◌==◌, ◌∷◌, ◌≡◌, ◌≢◌, ◌⊎◌, string_eq, nat_eq,
  guard-eq-ok,
}
use pangolin_gateway.Blueprint.{PrivateResource}
use pangolin_gateway.Network.{is_cidr, is_ip}
use pangolin_gateway.Patterns.{alias_pattern, hostname_pattern}
use pangolin_gateway.Ports.{check_port_ranges}
use pangolin_gateway.PrivateResources.{check_cidr, check_host, check_http}
use pangolin_gateway.Regex.{matches}
use pangolin_gateway.Text.{has_prefix, trim_space}

-- An address, or a hostname, which needs an alias without wildcards.
pub data IsHostTarget (destination alias : String) : Type 0 where
  address : is_ip destination ≡ true → IsHostTarget destination alias
  named :
      matches hostname_pattern destination ≡ true
      → alias ≢ ""
      → matches hostname_pattern alias ≡ true
      → IsHostTarget destination alias

-- The names that an alias makes resolvable.
pub data IsAlias (alias : String) (names : List String) : Type 0 where
  without : alias ≡ "" → names ≡ [] → IsAlias alias names
  given : alias ≢ "" → matches alias_pattern alias ≡ true → names ≡ alias ∷ [] → IsAlias alias names

-- A list of ports that was accepted, as it is published.
abbrev pub IsPorts : String → Option String → Type 0
IsPorts raw shown =
    (ranges : List (ℕ × ℕ)) × (check_port_ranges raw ≡ ok ranges) × (shown ≡ some (trim_space raw))

abbrev pub NoDomain : PrivateResource → Type 0
NoDomain pr = (pr.full_domain ≡ "") × (pr.scheme ≡ "") × (pr.ssl ≡ none) × (pr.destination_port ≡ 0)

abbrev pub NoPorts : PrivateResource → Type 0
NoPorts pr =
    (pr.alias ≡ "") × (pr.tcp_ports ≡ none) × (pr.udp_ports ≡ none) × (pr.disable_icmp ≡ none)

-- What an entry of each mode has, and what it leaves out.
pub data IsPrivate (spec : Api.PrivateResource) (pr : PrivateResource) (names : List String)
    : Type 0 where
  host :
      pr.mode ≡ "host"
      → IsHostTarget pr.destination pr.alias
      → IsAlias pr.alias names
      → IsPorts spec.tcp_ports pr.tcp_ports
      → IsPorts spec.udp_ports pr.udp_ports
      → NoDomain pr
      → IsPrivate spec pr names
  cidr :
      pr.mode ≡ "cidr"
      → is_cidr pr.destination ≡ true
      → pr.alias ≡ ""
      → names ≡ []
      → IsPorts spec.tcp_ports pr.tcp_ports
      → IsPorts spec.udp_ports pr.udp_ports
      → NoDomain pr
      → IsPrivate spec pr names
  http :
      pr.mode ≡ "http"
      → has_prefix pr.full_domain "*" ≡ false
      → matches hostname_pattern pr.full_domain ≡ true
      → (is_ip pr.destination ≡ true) ⊎ (matches hostname_pattern pr.destination ≡ true)
      → pr.destination_port ≢ 0
      → pr.scheme ≢ ""
      → names ≡ pr.full_domain ∷ []
      → NoPorts pr
      → IsPrivate spec pr names

either : (a b : Bool) → (not a && not b) ≡ false → (a ≡ true) ⊎ (b ≡ true)
either true b h = inl refl
either false true h = inr refl
either false false h = cc

module _ (spec : Api.PrivateResource) where
  alias_text :
      ((spec.alias == "") ≡ true) ⊎ (matches alias_pattern spec.alias ≡ true)
      → (spec.alias ≡ "") ⊎ (matches alias_pattern spec.alias ≡ true)
  alias_text (inl blank) = inl (==_sound spec.alias "" blank)
  alias_text (inr good) = inr good

  pub check_host-IsHostTarget :
      check_host spec ≡ ok tt
      → IsHostTarget spec.destination spec.alias
        × ((spec.alias ≡ "") ⊎ (matches alias_pattern spec.alias ≡ true))
  unfolding check_host
  check_host-IsHostTarget h =
      let ip = is_ip spec.destination in
      let (target, h₁) =
        guard-eq-ok (not ip && not (matches hostname_pattern spec.destination)) _ _ h in
      let (aliased, h₂) = guard-eq-ok (not ip && spec.alias == "") _ _ h₁ in
      let (qualified, h₃) =
        guard-eq-ok (not (spec.alias == "") && not (matches alias_pattern spec.alias)) _ _ h₂ in
      let (plain, h₄) = guard-eq-ok (not ip && not (matches hostname_pattern spec.alias)) _ _ h₃ in
      let names = alias_text (either _ _ qualified) in
      elim (Bool-cases (is_ip spec.destination)) [
        | inl ip ↦ (IsHostTarget.address ip, names)
        | inr hostname ↦ (
          IsHostTarget.named (negated_true _ (rw hostname at target))
              (==_false spec.alias "" (rw hostname at aliased))
              (negated_true _ (rw hostname at plain)),
          names,
        )
      ]

  pub check_http-eq-ok :
      check_http spec ≡ ok tt
      → (has_prefix spec.full_domain "*" ≡ false)
        × (matches hostname_pattern spec.full_domain ≡ true)
        × ((is_ip spec.destination ≡ true) ⊎ (matches hostname_pattern spec.destination ≡ true))
        × (spec.destination_port ≢ 0)
  unfolding check_http
  check_http-eq-ok h =
      let (domain, h₁) = guard-eq-ok _ _ _ h in
      let (single, h₂) = guard-eq-ok _ _ _ h₁ in
      let (hostname, h₃) = guard-eq-ok _ _ _ h₂ in
      let (target, h₄) = guard-eq-ok _ _ _ h₃ in
      let (port, h₅) = guard-eq-ok _ _ _ h₄ in
      (single, negated_true _ hostname, either _ _ target, ==_false spec.destination_port 0 port)

  pub check_cidr-eq-ok :
      check_cidr spec ≡ ok tt → (is_cidr spec.destination ≡ true) × (spec.alias ≡ "")
  unfolding check_cidr
  check_cidr-eq-ok h =
      let (block, h₁) = guard-eq-ok _ _ _ h in
      let (plain, h₂) = guard-eq-ok _ _ _ h₁ in
      (negated_true _ block, ==_sound spec.alias "" (negated_true _ plain))
