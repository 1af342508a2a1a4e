-- ===== src/Policies/Keys.antt =====
-- internal/gateway/policy.go: the policies that renderPolicies publishes.
use mathlib.Core.List.Permᴰ as Permutation
use Prim.Native.Nat.{compare}
use Prim.Native.String.{compare as compare_str}
use mathlib.Core.List.{Memᴰ}
use pangolin_gateway.Prelude.{
  ==_sound, Bool-cases, List, Option-cases, Result, String, [], ap, err, inl, inr, none, ok, refl,
  some, sym, ◌==◌, ◌∙◌, ◌∷◌, ◌≡◌, string_eq,
}
use pangolin_gateway.Api.{ResourcePolicy, name_eq}
use pangolin_gateway.Blueprint.{PublicPolicy}
use pangolin_gateway.Inputs.{Inputs}
use pangolin_gateway.Map.{lookup, lookup-insert}
use pangolin_gateway.Order.{
  IsComparison, compare-IsComparison, compare_str-IsComparison, lexicographic-IsComparison,
  on-IsComparison, stable_sort-perm, Memᴰ-Permᴰ,
}
use pangolin_gateway.Policies.{
  Policies, render_policy, render_policies_from, no_policies, policy_key, admit_policy, policy_age,
}
use pangolin_gateway.Policies.Translate.{render_policies, translate_policy}
use pangolin_gateway.Verdict.{ConditionResult}

-- The policy that an entry under a key was built from.
abbrev pub IsSource :
    (ResourcePolicy → Result ConditionResult PublicPolicy)
    → String
    → PublicPolicy
    → ResourcePolicy
    → Type 0
IsSource translate k e rp = (policy_key rp.namespace rp.name ≡ k) × (translate rp ≡ ok e)

module _ (translate : ResourcePolicy → Result ConditionResult PublicPolicy) where
  -- Every entry under a key has a source in the list.
  abbrev pub Backed : List ResourcePolicy → Policies → Type 0
  Backed all s =
      (k : String) (e : PublicPolicy)
      → lookup k s.entries ≡ some e
      → (rp : ResourcePolicy) × Memᴰ rp all × IsSource translate k e rp

  admit-Backed :
      (all : List ResourcePolicy) (s : Policies) (rp : ResourcePolicy) (made : PublicPolicy)
      → Memᴰ rp all
      → translate rp ≡ ok made
      → Backed all s
      → Backed all (admit_policy rp made s)
  admit-Backed all s rp made m t h k e q =
      let key = policy_key rp.namespace rp.name in
      let found = sym (lookup-insert key k made s.entries) ∙ q in
      elim (Bool-cases (key == k)) [
        | inl same ↦
            let eq : made ≡ e = (let f : some made ≡ some e = rw same at found in cc) in
            (rp, m, (==_sound key k same, t ∙ ap ok eq))
        | inr other ↦ h k e (rw other at found)
      ]

  render_policy-Backed :
      (all : List ResourcePolicy) (s : Policies) (rp : ResourcePolicy)
      → Memᴰ rp all
      → Backed all s
      → Backed all (render_policy translate s rp)
  unfolding render_policy
  render_policy-Backed all s rp m h = go (translate rp) refl
    where
      go :
          (r : Result ConditionResult PublicPolicy)
          → translate rp ≡ r
          → Backed all (render_policy translate s rp)
      go (err cond) t = rw (t, render_policy) h
      go (ok made) t = elim (Option-cases (lookup (policy_key rp.namespace rp.name) s.owners)) [
        | inr (owner, p) ↦ rw (t, p, render_policy) h
        | inl free ↦ rw (t, free, render_policy) (admit-Backed all s rp made m t h)
      ]

  render_policies_from-Backed :
      (all : List ResourcePolicy) (s : Policies) (rps : List ResourcePolicy)
      → ((rp : ResourcePolicy) → Memᴰ rp rps → Memᴰ rp all)
      → Backed all s
      → Backed all (render_policies_from translate s rps)
  unfolding render_policies_from
  render_policies_from-Backed all s [] sub h = h
  render_policies_from-Backed all s (rp ∷ rps) sub h =
      render_policies_from-Backed all (render_policy translate s rp) rps
        (λ x m. sub x (Memᴰ.tail m)) (render_policy-Backed all s rp (sub rp (Memᴰ.head refl)) h)

policy_age-IsComparison : IsComparison policy_age
unfolding policy_age
policy_age-IsComparison =
    lexicographic-IsComparison _ _
      (on-IsComparison (λ (rp : ResourcePolicy). rp.created_at) compare compare-IsComparison)
      (lexicographic-IsComparison _ _
        (on-IsComparison (λ (rp : ResourcePolicy). rp.namespace) compare_str
          compare_str-IsComparison)
        (on-IsComparison (λ (rp : ResourcePolicy). rp.name) compare_str compare_str-IsComparison))

-- Every policy that is published under a key was translated without an objection from a
-- ResourcePolicy of the cluster with that key.
pub render_policies-Backed :
    (inputs : Inputs)
    → Backed (translate_policy inputs.licensed) inputs.resource_policies (render_policies inputs)
unfolding render_policies lookup
render_policies-Backed inputs =
    render_policies_from-Backed (translate_policy inputs.licensed) inputs.resource_policies
      no_policies _
      (λ rp m.
        Memᴰ-Permᴰ
          (Permutation.symm
            (stable_sort-perm policy_age policy_age-IsComparison inputs.resource_policies))
          m)
      (λ k e q. absurd (let f : none ≡ some e = q in cc))
