-- ===== src/PrivateResources/Modes.antt =====
-- internal/gateway/privateresource.go: the entry of each mode has its shape.
use pangolin_gateway.Api
use pangolin_gateway.Prelude.{
  ==_false, ==_sound, >>=-eq-ok, Bool-cases, List, Result, String, [], err, if◌then◌else◌, inl, inr,
  not, ok, ok-injective, refl, some, subst, true, ℕ, ◌==◌, ◌||◌, ◌∷◌, ◌≡◌, ◌≢◌, ◌⊎◌, string_eq,
  nat_eq,
}
use pangolin_gateway.Blueprint.{PrivateResource}
use pangolin_gateway.Patterns.{alias_pattern}
use pangolin_gateway.Ports.{check_port_ranges}
use pangolin_gateway.PrivateResources.{
  invalid, check_cidr, check_host, check_http, checked, http_mode, moded, network_mode, plain_entry,
  ports_of, refuse_fields,
}
use pangolin_gateway.Regex.{matches}
use pangolin_gateway.Text.{concat, trim_space}
use pangolin_gateway.Verdict.{ConditionResult}
use pangolin_gateway.PrivateResources.Shape.{
  IsAlias, IsPorts, IsPrivate, check_cidr-eq-ok, check_host-IsHostTarget, check_http-eq-ok,
}

accepted_ports :
    (field : String) (m : Result String (List (ℕ × ℕ)))
    → (let r : Result ConditionResult (Unit {0}) = elim m [
      | ok ranges ↦ ok tt
      | err e ↦ invalid (concat (field ∷ ": " ∷ e ∷ []))
    ] in
        r ≡ ok tt)
    → (ranges : List (ℕ × ℕ)) × (m ≡ ok ranges)
accepted_ports field (ok ranges) h = (ranges, refl)
accepted_ports field (err e) h = cc

ports_of-IsPorts :
    (field raw : String) → ports_of field raw ≡ ok tt → IsPorts raw (some (trim_space raw))
ports_of-IsPorts field raw h =
    let (ranges, e) = accepted_ports field (check_port_ranges raw) h in (ranges, e, refl)

IsAlias-of_text :
    (alias : String)
    → (alias ≡ "") ⊎ (matches alias_pattern alias ≡ true)
    → IsAlias alias (if not (alias == "") then alias ∷ [] else [])
IsAlias-of_text alias h = elim (Bool-cases (alias == "")) [
  | inl blank ↦ rw blank (IsAlias.without (==_sound alias "" blank) refl)
  | inr filled ↦ elim h [
    | inl blank ↦ absurd (==_false alias "" filled blank)
    | inr good ↦ rw filled (IsAlias.given (==_false alias "" filled) good refl)
  ]
]

scheme_given : (scheme : String) → (if scheme == "" then "http" else scheme) ≢ ""
scheme_given scheme h = elim (Bool-cases (scheme == "")) [
  | inl blank ↦ (let q = rw blank at h in cc)
  | inr filled ↦ ==_false scheme "" filled (rw filled at h)
]

module _ (spec : Api.PrivateResource) (name : String) (sites : List String) where
  -- The entry of an accepted mode.
  abbrev pub IsModed : PrivateResource × List String → Type 0
  IsModed out = IsPrivate spec (out.0) (out.1) × (out.0.sites ≡ sites)

  network_mode-IsModed :
      {out : PrivateResource × List String}
      → (spec.mode == "host" || spec.mode == "cidr") ≡ true
      → network_mode spec (plain_entry spec name sites) ≡ ok out
      → IsModed out
  unfolding network_mode
  network_mode-IsModed {out} mode h =
      let (_, _, h₁) = >>=-eq-ok (checked (refuse_fields spec.mode _)) _ h in
      let (_, target, h₂) =
        >>=-eq-ok (if spec.mode == "host" then check_host spec else check_cidr spec) _ h₁ in
      let (_, tcp, h₃) = >>=-eq-ok (ports_of "tcpPorts" spec.tcp_ports) _ h₂ in
      let (_, udp, h₄) = >>=-eq-ok (ports_of "udpPorts" spec.udp_ports) _ h₃ in
      subst IsModed (ok-injective h₄) (elim (Bool-cases (spec.mode == "host")) [
        | inl is ↦
            let (destination, alias) = check_host-IsHostTarget spec (rw is at target) in
            rw is (
              IsPrivate.host (==_sound spec.mode "host" is) destination
                  (IsAlias-of_text spec.alias alias)
                  (ports_of-IsPorts "tcpPorts" spec.tcp_ports tcp)
                  (ports_of-IsPorts "udpPorts" spec.udp_ports udp) (refl, refl, refl, refl),
              refl,
            )
        | inr other ↦
            let (block, _) = check_cidr-eq-ok spec (rw other at target) in
            rw other (
              IsPrivate.cidr (==_sound spec.mode "cidr" (rw other at mode)) block refl refl
                  (ports_of-IsPorts "tcpPorts" spec.tcp_ports tcp)
                  (ports_of-IsPorts "udpPorts" spec.udp_ports udp) (refl, refl, refl, refl),
              refl,
            )
      ])

  http_mode-IsModed :
      {out : PrivateResource × List String}
      → (spec.mode == "http") ≡ true
      → http_mode spec (plain_entry spec name sites) ≡ ok out
      → IsModed out
  unfolding http_mode
  http_mode-IsModed {out} mode h =
      let (_, _, h₁) = >>=-eq-ok (checked (refuse_fields spec.mode _)) _ h in
      let (_, target, h₂) = >>=-eq-ok (check_http spec) _ h₁ in
      let (single, hostname, destination, port) = check_http-eq-ok spec target in
      subst IsModed (ok-injective h₂) (
        IsPrivate.http (==_sound spec.mode "http" mode) single hostname destination port
            (scheme_given spec.scheme) refl (refl, refl, refl, refl),
        refl,
      )

  pub moded-IsModed :
      {out : PrivateResource × List String}
      → moded spec (plain_entry spec name sites) ≡ ok out
      → IsModed out
  unfolding moded
  moded-IsModed h = elim (Bool-cases (spec.mode == "host" || spec.mode == "cidr")) [
    | inl network ↦ network_mode-IsModed network (rw network at h)
    | inr other ↦ elim (Bool-cases (spec.mode == "http")) [
      | inl http ↦ http_mode-IsModed http (rw (other, http) at h)
      | inr unknown ↦ absurd (let q = rw (other, unknown) at h in cc)
    ]
  ]
