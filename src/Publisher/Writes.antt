-- ===== src/Publisher/Writes.antt =====
-- internal/controller/publisher.go: what an outcome of the apply makes of the verdicts.
use pangolin_gateway.Prelude.{
  Bool, Bool-cases, Option, String, [], ap, false, if◌then◌else◌, inl, inr, none, refl, some, true,
  ◌==◌, ◌↔◌, ◌∷◌, ◌≡◌, string_eq,
}
use pangolin_gateway.Api.{NamespacedName, yes_status, name_eq}
use pangolin_gateway.Map.{Map, lookup}
use pangolin_gateway.Publisher.{mark_published, mark_publish_failed, programmed, publish_failed}
use pangolin_gateway.Verdict.{ConditionResult, ResourceVerdict, Verdict, published}

abbrev pub remarked : ConditionResult → Verdict → Verdict
remarked cond v = if published v.key then record v { accepted = cond } else v

lookup-mark_published :
    (cond : ConditionResult) (name : NamespacedName) (vs : Map NamespacedName Verdict) {v : Verdict}
    → lookup name vs ≡ some v
    → lookup name (mark_published cond vs) ≡ some (remarked cond v)
unfolding mark_published lookup
lookup-mark_published cond name [] h = absurd (cc)
lookup-mark_published cond name ((k, w) ∷ vs) {v} h = elim (Bool-cases (k == name)) [
  | inl same ↦
      let e : w ≡ v = (let q = rw (same, lookup) at h in cc) in
      rw same (ap (λ x. some (remarked cond x)) e)
  | inr other ↦ rw other (lookup-mark_published cond name vs (rw (other, lookup) at h))
]

-- A failed apply leaves no published route accepted, and every other verdict as it was.
pub mark_publish_failed-lookup :
    (e : String) (name : NamespacedName) (vs : Map NamespacedName Verdict) {v : Verdict}
    → lookup name vs ≡ some v
    → (w : Verdict) × (lookup name (mark_publish_failed e vs) ≡ some w)
      × (published v.key ≡ true → w ≡ record v { accepted = publish_failed e })
      × (published v.key ≡ false → w ≡ v)
unfolding mark_publish_failed
mark_publish_failed-lookup e name vs {v} h = (
  remarked (publish_failed e) v,
  lookup-mark_published (publish_failed e) name vs h,
  λ p. rw p refl,
  λ p. rw p refl,
)

-- An object is reported as programmed exactly when it is published, the apply went through, and the
-- pass was no rehearsal.
pub programmed_iff :
    (dry_run : Bool) (v : ResourceVerdict) (publish_error : Option String)
    → ((programmed dry_run v publish_error).status ≡ yes_status)
      ↔ ((published v.key ≡ true) × (publish_error ≡ none) × (dry_run ≡ false))
unfolding programmed
programmed_iff dry_run v (some e) = elim (Bool-cases (published v.key)) [
  | inl shown ↦ rw shown (λ h. absurd (cc), λ h. absurd (let q = h.1 in cc))
  | inr hidden ↦ rw hidden (λ h. absurd (cc), λ h. absurd (let q = h.1 in cc))
]
programmed_iff true v none = elim (Bool-cases (published v.key)) [
  | inl shown ↦ rw shown (λ h. absurd (cc), λ h. absurd (let q = h.2 in cc))
  | inr hidden ↦ rw hidden (λ h. absurd (cc), λ h. absurd (let q = h.0 in cc))
]
programmed_iff false v none = elim (Bool-cases (published v.key)) [
  | inl shown ↦ rw shown (λ h. (refl, refl, refl), λ h. refl)
  | inr hidden ↦ rw hidden (λ h. absurd (cc), λ h. absurd (let q = h.0 in cc))
]
