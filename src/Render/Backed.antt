-- ===== src/Render/Backed.antt =====
-- internal/gateway/render.go: a route or resource that a render reports as published is in the
-- blueprint of that render.
use pangolin_gateway.Api
use mathlib.Core.List.{Memᴰ}
use pangolin_gateway.Prelude.{
  >>=-eq-ok, All, Bool-cases, List, Option-cases, Result, String, [], inl, inr, ok, ok-injective,
  refl, subst, ◌==◌, ◌∷◌, ◌≡◌, err, All-Memᴰ, All-append, Bool, not, true, ◌&&◌, ◌||◌, string_eq,
}
use pangolin_gateway.Annotations.{Visibility, private_route, public_route, visibility_for}
use pangolin_gateway.Api.{
  NamespacedName, HttpRoute, ParentReference, PrivateResource, Gateway, name_eq,
}
use pangolin_gateway.Blueprint.{Blueprint}
use pangolin_gateway.Collisions.{Rendered, Outcome, Claimant, resolve_collisions}
use pangolin_gateway.Collisions.Backed.{IsWhole, IsBacked, resolve_collisions-Backed}
use pangolin_gateway.Inputs.{Inputs, name_of}
use pangolin_gateway.Map.{All-insert, Map, lookup, has_key}
use pangolin_gateway.Parents.{
  gateways_by_name, has_only_unresolvable_parents, served_classes, served_parents,
}
use pangolin_gateway.Policies.Translate.{render_policies, shown_name}
use pangolin_gateway.PrivateGrants.{check_private_grants}
use pangolin_gateway.PrivateResources.{
  check_sites, checked, granted, moded, plain_entry, sites_of, translate_private_resource,
}
use pangolin_gateway.Render.{
  Judged, unserved, refused, competing, candidates_of, verdicts_from, conclude_all, is_ref_reason,
  judge_resource, judge_route, judge_served, refused_verdict, route_judge, all_candidates,
  concluded, concluded_resource, render_all, resource_name,
}
use pangolin_gateway.Render.Policy.{supported-eq-ok}
use pangolin_gateway.Routes.{Destination, destination_of, supported}
use pangolin_gateway.Routes.Entries.{translate, entry_for, private_resource, public_resource}
use pangolin_gateway.Rules.{RuleSpec}
use pangolin_gateway.Verdict.{ResourceVerdict, ConditionResult, Verdict, published}

module _ (decode : String → Result String (List RuleSpec)) where
  entry_for-IsWhole :
      (r : HttpRoute) (inputs : Inputs) (policies : Map NamespacedName ResourceVerdict)
      (d : Destination) (v : Visibility) {entry : Rendered}
      → entry_for decode r inputs policies d v ≡ ok entry
      → IsWhole entry
  unfolding entry_for
  entry_for-IsWhole r inputs policies d private_route h =
      let (made, _, h₁) = >>=-eq-ok (private_resource r inputs d) _ h in
      subst IsWhole (ok-injective h₁) (inr (refl, (made.0, refl)))
  entry_for-IsWhole r inputs policies d public_route h =
      let (made, _, h₁) = >>=-eq-ok (public_resource decode r inputs policies d) _ h in
      subst IsWhole (ok-injective h₁) (inl (made, refl))

  translate-IsWhole :
      (r : HttpRoute) (inputs : Inputs) (policies : Map NamespacedName ResourceVerdict)
      {entry : Rendered}
      → translate decode r inputs policies ≡ ok entry
      → IsWhole entry
  unfolding translate
  translate-IsWhole r inputs policies h =
      let (d, _, h₁) = >>=-eq-ok (destination_of r inputs) _ h in
      let (v, _, h₂) = >>=-eq-ok (supported (visibility_for r.annotations)) _ h₁ in
      entry_for-IsWhole r inputs policies d v (supported-eq-ok _ h₂)

refused_verdict-key :
    (r : HttpRoute) (served : List ParentReference) (cond : ConditionResult)
    → (refused_verdict r served cond).key ≡ ""
unfolding refused_verdict
refused_verdict-key r served cond = elim (Bool-cases (is_ref_reason cond.reason)) [
  | inl ref ↦ rw ref refl
  | inr other ↦ rw other refl
]

-- What a judgement says is not published yet, and its candidate is whole.
abbrev pub Fair : {V : Type 0} → (V → String) → Judged V → Type 0
Fair key unserved = Unit
Fair key (refused v) = key v ≡ ""
Fair key (competing v c) = (key v ≡ "") × IsWhole c.entry

module _ {O V : Type 0} (name : O → NamespacedName) (judge : O → Judged V) (key : V → String)
    (fair : (o : O) → Fair key (judge o)) where
  candidates-IsWhole : (os : List O) → All (λ c. IsWhole c.entry) (candidates_of name judge os)
  unfolding candidates_of
  candidates-IsWhole [] = tt
  candidates-IsWhole (o ∷ os) = go (judge o) (fair o) (candidates-IsWhole os) refl
    where
      go :
          (j : Judged V)
          → Fair key j
          → All (λ c. IsWhole c.entry) (candidates_of name judge os)
          → judge o ≡ j
          → All (λ c. IsWhole c.entry) (candidates_of name judge (o ∷ os))
      go unserved f ih e = rw (e, candidates_of) ih
      go (refused v) f ih e = rw (e, candidates_of) ih
      go (competing v c) f ih e = rw (e, candidates_of) (f.1, ih)

  verdicts-unpublished :
      (found : Map NamespacedName V) (os : List O)
      → All (λ p. key (p.1) ≡ "") found
      → All (λ p. key (p.1) ≡ "") (verdicts_from name judge found os)
  unfolding verdicts_from
  verdicts-unpublished found [] h = h
  verdicts-unpublished found (o ∷ os) h =
      go (judge o) (fair o) refl (λ m k. verdicts-unpublished m os k)
    where
      go :
          (j : Judged V)
          → Fair key j
          → judge o ≡ j
          → ((m : Map NamespacedName V)
              → All (λ p. key (p.1) ≡ "") m
              → All (λ p. key (p.1) ≡ "") (verdicts_from name judge m os))
          → All (λ p. key (p.1) ≡ "") (verdicts_from name judge found (o ∷ os))
      go unserved f e ih = rw (e, verdicts_from) (ih found h)
      go (refused v) f e ih = rw (e, verdicts_from) (ih _ (All-insert _ (name o) v found f h))
      go (competing v c) f e ih = rw (e, verdicts_from) (ih _ (All-insert _ (name o) v found f.0 h))

-- What holds of all verdicts before, and of each concluded one, holds of all verdicts after.
conclude_all-All :
    {V : Type 0} (kind : String) (f : Outcome → V → V) (P : NamespacedName × V → Type 0)
    (os : List (Claimant × Outcome)) (vs : Map NamespacedName V)
    → ((p : Claimant × Outcome) → Memᴰ p os → (n : NamespacedName) (v : V) → P (n, f (p.1) v))
    → All P vs
    → All P (conclude_all kind f os vs)
unfolding conclude_all
conclude_all-All kind f P [] vs step h = h
conclude_all-All kind f P ((c, o) ∷ os) vs step h = elim (Bool-cases (c.kind == kind)) [
  | inr other ↦ rw other (conclude_all-All kind f P os vs (λ p m. step p (Memᴰ.tail m)) h)
  | inl same ↦ elim (Option-cases (lookup c.name vs)) [
    | inl missing ↦
        rw (same, missing) (conclude_all-All kind f P os vs (λ p m. step p (Memᴰ.tail m)) h)
    | inr (v, there) ↦
        rw (same, there)
          (conclude_all-All kind f P os _ (λ p m. step p (Memᴰ.tail m))
            (All-insert P c.name (f o v) vs (step (c, o) (Memᴰ.head refl) c.name v) h))
  ]
]

-- A key of one of the two sections of the blueprint.
abbrev pub InSections : Blueprint → String → Type 0
InSections bp key = (has_key key bp.public_resources || has_key key bp.private_resources) ≡ true

module _ (decode : String → Result String (List RuleSpec)) (inputs : Inputs) where
  judge_served-Fair :
      (policies : Map NamespacedName ResourceVerdict) (r : HttpRoute)
      (served : List ParentReference)
      → Fair (λ (v : Verdict). v.key) (judge_served decode inputs policies r served)
  judge_served-Fair policies r served = go (translate decode r inputs policies) refl
    where
      go :
          (m : Result ConditionResult Rendered)
          → translate decode r inputs policies ≡ m
          → Fair (λ (v : Verdict). v.key) (judge_served decode inputs policies r served)
      go (err cond) e = rw (e, Fair) (refused_verdict-key r served cond)
      go (ok entry) e = rw (e, Fair) (refl, translate-IsWhole decode r inputs policies e)

  route_judge-Fair : (r : HttpRoute) → Fair (λ (v : Verdict). v.key) (route_judge decode inputs r)
  unfolding route_judge judge_route
  route_judge-Fair r = go (found.0) refl
    where
      gateways : Map NamespacedName Api.Gateway
      gateways = gateways_by_name inputs.gateways

      found : List ParentReference × Bool
      found =
          served_parents r gateways (served_classes inputs.gateway_classes inputs.controller_name)

      go :
          (l : List ParentReference)
          → found.0 ≡ l
          → Fair (λ (v : Verdict). v.key) (route_judge decode inputs r)
      go [] e = elim (Bool-cases (not (found.1) && has_only_unresolvable_parents r gateways)) [
        | inl orphan ↦ rw (e, orphan, Fair) refl
        | inr foreign_route ↦ rw (e, foreign_route, Fair) tt
      ]
      go (ref ∷ refs) e =
          rw (e, Fair) (judge_served-Fair (render_policies inputs).verdicts r (ref ∷ refs))

  translate_private_resource-IsWhole :
      (pr : Api.PrivateResource) {entry : Rendered}
      → translate_private_resource pr inputs ≡ ok entry
      → IsWhole entry
  unfolding translate_private_resource
  translate_private_resource-IsWhole pr h =
      let (name, _, h₁) =
        >>=-eq-ok (checked (shown_name pr.namespace pr.name pr.display_name)) _ h in
      let (_, _, h₂) = >>=-eq-ok (check_sites inputs (sites_of inputs pr.sites)) _ h₁ in
      let (out, _, h₃) =
        >>=-eq-ok (moded pr (plain_entry pr name (sites_of inputs pr.sites))) _ h₂ in
      let (notes, _, h₄) =
        >>=-eq-ok (granted (check_private_grants pr.roles pr.users pr.machines inputs)) _ h₃ in
      subst IsWhole (ok-injective h₄) (inr (refl, (_, refl)))

  judge_resource-Fair :
      (pr : Api.PrivateResource) → Fair (λ (v : ResourceVerdict). v.key) (judge_resource inputs pr)
  unfolding judge_resource
  judge_resource-Fair pr = go (translate_private_resource pr inputs) refl
    where
      go :
          (m : Result ConditionResult Rendered)
          → translate_private_resource pr inputs ≡ m
          → Fair (λ (v : ResourceVerdict). v.key) (judge_resource inputs pr)
      go (err cond) e = rw (e, Fair) refl
      go (ok entry) e = rw (e, Fair) (refl, translate_private_resource-IsWhole pr e)

  all_candidates-IsWhole : All (λ c. IsWhole c.entry) (all_candidates decode inputs)
  unfolding all_candidates
  all_candidates-IsWhole =
      All-append (λ c. IsWhole c.entry)
        (candidates_of name_of (route_judge decode inputs) inputs.routes)
        (candidates_of resource_name (judge_resource inputs) inputs.private_resources)
        (candidates-IsWhole name_of (route_judge decode inputs) (λ (v : Verdict). v.key)
          route_judge-Fair inputs.routes)
        (candidates-IsWhole resource_name (judge_resource inputs) (λ (v : ResourceVerdict). v.key)
          judge_resource-Fair inputs.private_resources)

  -- Every route that a render reports as published has an entry under its key in the blueprint of
  -- the same render, and so has every PrivateResource.
  pub render_all-InSections :
      All
        (λ p.
          published (p.1).key ≡ true → InSections (render_all decode inputs).blueprint (p.1).key)
        (render_all decode inputs).routes
      × All
          (λ p.
            published (p.1).key ≡ true → InSections (render_all decode inputs).blueprint (p.1).key)
          (render_all decode inputs).private_resources
  unfolding render_all
  render_all-InSections =
      let award = resolve_collisions (all_candidates decode inputs) in
      let backed =
        resolve_collisions-Backed (all_candidates decode inputs) all_candidates-IsWhole in
      (
        conclude_all-All "HTTPRoute" concluded _ award.outcomes _
            (λ p m n v. All-Memᴰ (IsBacked award) award.outcomes backed p m)
            (unpublished (λ (v : Verdict). v.key) _
              (verdicts-unpublished name_of (route_judge decode inputs) (λ (v : Verdict). v.key)
                route_judge-Fair [] inputs.routes tt)),
        conclude_all-All "PrivateResource" concluded_resource _ award.outcomes _
            (λ p m n v. All-Memᴰ (IsBacked award) award.outcomes backed p m)
            (unpublished (λ (v : ResourceVerdict). v.key) _
              (verdicts-unpublished resource_name (judge_resource inputs)
                (λ (v : ResourceVerdict). v.key) judge_resource-Fair [] inputs.private_resources
                tt)),
      )
    where
      unpublished :
          {V : Type 0} (key : V → String) (vs : Map NamespacedName V)
          → All (λ p. key (p.1) ≡ "") vs
          → All
              (λ p.
                published (key (p.1)) ≡ true
                → InSections (render_all decode inputs).blueprint (key (p.1)))
              vs
      unpublished key [] h = tt
      unpublished key ((n, v) ∷ vs) (h, hs) =
          ((λ q. absurd (let r : published "" ≡ true = rw h at q in cc)), unpublished key vs hs)
