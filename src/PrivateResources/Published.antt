-- ===== src/PrivateResources/Published.antt =====
-- internal/gateway/privateresource.go: translatePrivateResource publishes nothing but entries of a
-- known shape, with sites and grants that Pangolin takes.
use pangolin_gateway.Api
use pangolin_gateway.Prelude.{
  ==_false, >>=-eq-ok, All, Bool, Bool-cases, List, Option, Result, String, [], contains, err,
  false, if◌then◌else◌, inl, inr, none, ok, ok-injective, refl, some, subst, sym, true, ◌==◌, ◌∷◌,
  ◌≡◌, ◌≢◌, string_eq, nat_eq, guard-eq-ok,
}
use pangolin_gateway.Blueprint.{PrivateResource}
use pangolin_gateway.Collisions.{Rendered}
use pangolin_gateway.Inputs.{Inputs, member}
use pangolin_gateway.Map.{Map}
use pangolin_gateway.Policies.Translate.{shown_name}
use pangolin_gateway.PrivateGrants.{GrantError, check_private_grants, has_blank}
use pangolin_gateway.PrivateResources.{
  check_sites, checked, granted, moded, plain_entry, sites_of, translate_private_resource,
}
use pangolin_gateway.Text.{trim_space}
use pangolin_gateway.Verdict.{ConditionResult}
use pangolin_gateway.PrivateResources.Shape.{IsPrivate}
use pangolin_gateway.PrivateResources.Modes.{moded-IsModed}

abbrev pub Known : Option (Map String Bool) → String → Type 0
Known none site = Unit
Known (some known) site = member site known ≡ true

-- A site that is named, and that Pangolin has where its sites could be listed.
abbrev pub IsSite : Inputs → String → Type 0
IsSite inputs site = (trim_space site ≢ "") × Known inputs.known_sites site

site-Known :
    (known : Option (Map String Bool)) (site : String) (later : Result ConditionResult (Unit {0}))
    (e : ConditionResult)
    → (let r : Result ConditionResult (Unit {0}) = elim known [
      | none ↦ later
      | some known ↦ if member site known then later else err e
    ] in
        r ≡ ok tt)
    → Known known site × (later ≡ ok tt)
site-Known none site later e h = (tt, h)
site-Known (some known) site later e h = elim (Bool-cases (member site known)) [
  | inl there ↦ (there, rw there at h)
  | inr missing ↦ absurd (let q = rw missing at h in cc)
]

check_sites-All :
    (inputs : Inputs) (sites : List String)
    → check_sites inputs sites ≡ ok tt
    → All (IsSite inputs) sites
unfolding check_sites
check_sites-All inputs [] h = tt
check_sites-All inputs (site ∷ sites) h =
    let (named, h₁) = guard-eq-ok (trim_space site == "") _ _ h in
    let (known, h₂) = site-Known inputs.known_sites site (check_sites inputs sites) _ h₁ in
    ((==_false (trim_space site) "" named, known), check_sites-All inputs sites h₂)

granted-eq-ok :
    (m : Result GrantError (List String)) {notes : List String}
    → granted m ≡ ok notes
    → m ≡ ok notes
granted-eq-ok (ok notes) h = cc
granted-eq-ok (err e) h = cc

-- No entry of the grants is blank, and none of the roles is that of the administrators.
abbrev pub IsGrants : (roles users machines : List String) → Type 0
IsGrants roles users machines =
    (has_blank roles ≡ false)
    × (has_blank users ≡ false)
    × (has_blank machines ≡ false)
    × (contains roles "Admin" ≡ false)

check_private_grants-IsGrants :
    (roles users machines : List String) (inputs : Inputs) {notes : List String}
    → check_private_grants roles users machines inputs ≡ ok notes
    → IsGrants roles users machines
unfolding check_private_grants
check_private_grants-IsGrants roles users machines inputs h =
    let (r, h₁) = guard-eq-ok (has_blank roles) _ _ h in
    let (u, h₂) = guard-eq-ok (has_blank users) _ _ h₁ in
    let (m, h₃) = guard-eq-ok (has_blank machines) _ _ h₂ in
    let (a, h₄) = guard-eq-ok (contains roles "Admin") _ _ h₃ in (r, u, m, a)

-- The grants are no part of the shape.
with_grants :
    (spec : Api.PrivateResource) (pr : PrivateResource) (names roles users machines : List String)
    → IsPrivate spec pr names
    → IsPrivate spec (record pr { roles = roles; users = users; machines = machines }) names
with_grants spec pr names roles users machines (IsPrivate.host m t a tcp udp d) =
    IsPrivate.host m t a tcp udp d
with_grants spec pr names roles users machines (IsPrivate.cidr m b a n tcp udp d) =
    IsPrivate.cidr m b a n tcp udp d
with_grants spec pr names roles users machines (IsPrivate.http m s f t port scheme n p) =
    IsPrivate.http m s f t port scheme n p

-- A rendered entry that is private: its shape, its sites and its grants.
abbrev pub IsRenderedPrivate : Api.PrivateResource → Inputs → Rendered → Type 0
IsRenderedPrivate spec inputs out =
    (pr : PrivateResource) × (out.private ≡ some pr)
    × (out.public ≡ none)
    × IsPrivate spec pr out.hostnames
    × All (IsSite inputs) pr.sites
    × (pr.roles ≡ spec.roles)
    × (pr.users ≡ spec.users)
    × (pr.machines ≡ spec.machines)
    × IsGrants pr.roles pr.users pr.machines

-- A PrivateResource that translates has a private entry and no public one. The entry has the shape
-- of its mode, with the names that it makes resolvable; each of its sites is named, and known where
-- Pangolin's sites could be listed; its grants are those of the spec, none blank, and Admin not among
-- the roles.
pub translate_private_resource-IsRenderedPrivate :
    (spec : Api.PrivateResource) (inputs : Inputs) {out : Rendered}
    → translate_private_resource spec inputs ≡ ok out
    → IsRenderedPrivate spec inputs out
unfolding translate_private_resource
translate_private_resource-IsRenderedPrivate spec inputs h =
    let sites = sites_of inputs spec.sites in
    let (name, _, h₁) =
      >>=-eq-ok (checked (shown_name spec.namespace spec.name spec.display_name)) _ h in
    let (_, sited, h₂) = >>=-eq-ok (check_sites inputs sites) _ h₁ in
    let (out, mode, h₃) = >>=-eq-ok (moded spec (plain_entry spec name sites)) _ h₂ in
    let (notes, grants, h₄) =
      >>=-eq-ok (granted (check_private_grants spec.roles spec.users spec.machines inputs)) _ h₃ in
    let (shape, same) = moded-IsModed spec name sites mode in
    subst (IsRenderedPrivate spec inputs) (ok-injective h₄) (
      record (out.0) { roles = spec.roles; users = spec.users; machines = spec.machines },
      refl,
      refl,
      with_grants spec (out.0) (out.1) spec.roles spec.users spec.machines shape,
      subst (All (IsSite inputs)) (sym same) (check_sites-All inputs sites sited),
      refl,
      refl,
      refl,
      check_private_grants-IsGrants spec.roles spec.users spec.machines inputs
          (granted-eq-ok _ grants),
    )
