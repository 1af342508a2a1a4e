-- ===== src/Examples/Status.antt =====
-- Tests and instances for the statuses: a writer of conditions that replaces the one of the same
-- type, as meta.SetStatusCondition does.
use pangolin_gateway.Prelude.{
  All, contains, none, ok, some, ==_refl, ==_sound, ==_of_ne, Bool, Bool-cases, List, [], ap, false,
  if◌then◌else◌, inl, inr, not, refl, sym, true, ◌&&◌, ◌==◌, ◌∙◌, ◌∷◌, ◌≡◌, ◌≢◌, string_eq, nat_eq,
}
use pangolin_gateway.Api.{
  NamespacedName, Condition, ConditionStatus, yes_status, no_status, HttpRoute,
}
use pangolin_gateway.Status.{ref_key, set_route_status}
use pangolin_gateway.Status.Again.{set_route_status_again, set_route_status-Reports}
use pangolin_gateway.Status.Settled.{Idempotent, Reports}
use pangolin_gateway.Examples.Passes.{
  Rows, rows, idle_cluster, refusing, publisher, no_pem, no_yaml,
}
use pangolin_gateway.Examples.Render.{cluster, attached, parent}
use pangolin_gateway.Inputs.{name_of}
use pangolin_gateway.Map.{Map}
use pangolin_gateway.Publisher.{ClusterApi}
use pangolin_gateway.Publisher.Quiet.{told, write_statuses_quiet}
use pangolin_gateway.Publisher.Reconcile.{write_statuses}
use pangolin_gateway.Render.{Rendering}
use pangolin_gateway.Text.{concat}
use pangolin_gateway.Verdict.{Verdict, accepted, resolved, resource_accepted}

abbrev same_status : ConditionStatus → ConditionStatus → Bool
same_status yes_status yes_status = true
same_status no_status no_status = true
same_status yes_status no_status = false
same_status no_status yes_status = false

same_status_refl : (status : ConditionStatus) → same_status status status ≡ true
same_status_refl yes_status = refl
same_status_refl no_status = refl

abbrev same_condition : Condition → Condition → Bool
same_condition x c =
    same_status x.status c.status
    && x.reason == c.reason
    && x.message == c.message
    && x.observed_generation == c.observed_generation

unfoldable pub replace_condition : List Condition → Condition → List Condition × Bool
replace_condition [] c = (c ∷ [], true)
replace_condition (x ∷ xs) c =
    let (rest, changed) = replace_condition xs c in
    if x.typ == c.typ then (c ∷ xs, not (same_condition x c)) else (x ∷ rest, changed)

cons_head : {c x : Condition} {cs xs : List Condition} → c ∷ cs ≡ x ∷ xs → c ≡ x
cons_head h = cc

cons_tail : {c x : Condition} {cs xs : List Condition} → c ∷ cs ≡ x ∷ xs → cs ≡ xs
cons_tail h = cc

same_condition_refl : (c : Condition) → same_condition c c ≡ true
same_condition_refl c =
    rw
      (
        same_status_refl c.status,
        ==_refl c.reason,
        ==_refl c.message,
        ==_refl c.observed_generation,
      )
      refl

replace_condition_again :
    (cs : List Condition) (c : Condition)
    → replace_condition (replace_condition cs c).0 c ≡ ((replace_condition cs c).0, false)
unfolding replace_condition
replace_condition_again [] c = rw (==_refl c.typ, same_condition_refl c) refl
replace_condition_again (x ∷ xs) c = elim (Bool-cases (x.typ == c.typ)) [
  | inl same ↦ rw same (rw (==_refl c.typ, same_condition_refl c) refl)
  | inr other ↦ rw other (rw (other, replace_condition_again xs c) refl)
]

replace_condition_apart :
    (cs : List Condition) (c d : Condition)
    → c.typ ≢ d.typ
    → replace_condition cs c ≡ (cs, false)
    → replace_condition (replace_condition cs d).0 c ≡ ((replace_condition cs d).0, false)
unfolding replace_condition
replace_condition_apart [] c d h q = cc
replace_condition_apart (x ∷ xs) c d h q = elim (Bool-cases (x.typ == c.typ)) [
  | inl same ↦
      let set = rw (same, replace_condition) at q in
      let first : c ≡ x = cons_head (ap (λ (r : List Condition × Bool). r.0) set) in
      let differ = ==_of_ne x.typ d.typ (λ e. h (sym (==_sound x.typ c.typ same) ∙ e)) in
      rw differ (rw same (λ i. (first i ∷ (replace_condition xs d).0, (set i).1)))
  | inr other ↦
      let set = rw (other, replace_condition) at q in
      let rest : replace_condition xs c ≡ (xs, false) =
        λ i. (cons_tail (ap (λ (r : List Condition × Bool). r.0) set) i, (set i).1) in
      elim (Bool-cases (x.typ == d.typ)) [
        | inl too ↦
            let differ = ==_of_ne d.typ c.typ (λ e. h (sym e)) in rw too (rw (differ, rest) refl)
        | inr apart ↦ rw apart (rw (other, replace_condition_apart xs c d h rest) refl)
      ]
]

replace_condition-Idempotent : Idempotent replace_condition
replace_condition-Idempotent = record {
  again = replace_condition_again;
  apart = replace_condition_apart;
}

abbrev stale : Condition
stale = record {
  typ = "Accepted";
  status = no_status;
  reason = "Pending";
  message = "Waiting";
  observed_generation = 1;
}

-- A route that shows two entries of ours: one of a parent that it has left, and an outdated one of
-- the parent that it names, which another controller has told as well.
abbrev told_before : HttpRoute
told_before = record attached {
  parents =
      record {
        parent_ref = record parent { name = "retired" };
        controller_name = "p3l1.de/pangolin";
        conditions = [];
      }
      ∷ record {
        parent_ref = parent;
        controller_name = "p3l1.de/pangolin";
        conditions = stale ∷ [];
      }
      ∷ record { parent_ref = parent; controller_name = "example.com/other"; conditions = [] }
      ∷ [];
}

abbrev verdict : Verdict
verdict = record {
  key = "gw-shop-web";
  generation = 3;
  parent_refs = parent ∷ record parent { section_name = some "https" } ∷ [];
  accepted = accepted;
  resolved_refs = resolved;
}

set_route_status-Reports_example :
    All
      (λ ref.
        Reports replace_condition "p3l1.de/pangolin" "shop" verdict
          (ref_key ref "shop")
          (set_route_status replace_condition told_before verdict "p3l1.de/pangolin").0)
      verdict.parent_refs
set_route_status-Reports_example =
    set_route_status-Reports replace_condition replace_condition-Idempotent told_before verdict
      "p3l1.de/pangolin"

set_route_status_again_example :
    set_route_status replace_condition
      (record told_before {
        parents = (set_route_status replace_condition told_before verdict "p3l1.de/pangolin").0;
      })
      verdict
      "p3l1.de/pangolin"
    ≡ ((set_route_status replace_condition told_before verdict "p3l1.de/pangolin").0, false)
set_route_status_again_example =
    set_route_status_again replace_condition replace_condition-Idempotent told_before verdict
      "p3l1.de/pangolin"

-- The first run does change something.
first_run_changes :
    (set_route_status replace_condition told_before verdict "p3l1.de/pangolin").1 ≡ true
unfolding set_route_status replace_condition contains concat
first_run_changes = refl

-- Any update would empty this world.
abbrev fragile_cluster : ClusterApi Rows
fragile_cluster = record idle_cluster {
  update_route = λ r w. (ok tt, []);
  update_class = λ c w. (ok tt, []);
  update_gateway = λ g w. (ok tt, []);
  update_resource = λ r w. (ok tt, []);
  update_policy = λ r w. (ok tt, []);
}

abbrev verdicts : Map NamespacedName Verdict
verdicts = (name_of attached, verdict) ∷ []

abbrev rendering : Rendering
rendering = record {
  blueprint = record { public_resources = []; private_resources = []; public_policies = [] };
  routes = verdicts;
  private_resources = [];
  policies =
      (
        record { namespace = "shop"; name = "staff" },
        record { key = "gw-policy-shop-staff"; generation = 1; accepted = resource_accepted },
      )
      ∷ [];
}

write_statuses_quiet_example :
    write_statuses fragile_cluster refusing publisher no_pem
      (λ c. "")
      replace_condition
      no_yaml
      (told fragile_cluster publisher replace_condition rendering verdicts none
        (record cluster { routes = told_before ∷ [] }))
      rendering
      verdicts
      none
      rows
    ≡ (ok none, rows)
write_statuses_quiet_example =
    write_statuses_quiet fragile_cluster refusing publisher no_pem (λ c. "") replace_condition
      no_yaml replace_condition-Idempotent (record cluster { routes = told_before ∷ [] }) rendering
      verdicts none rows
