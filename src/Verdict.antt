-- ===== src/Verdict.antt =====
-- internal/gateway/render.go and privateresource.go: the outcome of one condition, and what the
-- renderer concludes about one object.
use Prim.Native.String
use pangolin_gateway.Prelude.{ℕ, Bool, not, List, [], ◌∷◌, String, ◌==◌, string_eq, Result, err}
use pangolin_gateway.Text.{join}
use pangolin_gateway.Api.{ConditionStatus, yes_status, no_status, ParentReference}

pub record ConditionResult : Type 0 where
  pub status : ConditionStatus
  pub reason : String
  pub message : String

pub record Verdict : Type 0 where
  pub key : String
  pub generation : ℕ
  pub parent_refs : List ParentReference
  pub accepted : ConditionResult
  pub resolved_refs : ConditionResult

pub record ResourceVerdict : Type 0 where
  pub key : String
  pub generation : ℕ
  pub accepted : ConditionResult

-- Verdict.Published and ResourceVerdict.Published.
abbrev pub published : String → Bool
published key = not (key == "")

abbrev pub accepted : ConditionResult
accepted = record {
  status = yes_status;
  reason = "Accepted";
  message = "Route published to Pangolin";
}

abbrev pub resolved : ConditionResult
resolved = record { status = yes_status; reason = "ResolvedRefs"; message = "Backend resolved" }

abbrev pub resource_accepted : ConditionResult
resource_accepted = record {
  status = yes_status;
  reason = "Accepted";
  message = "Resource is valid and its names are unclaimed";
}

abbrev pub rejected : String → String → ConditionResult
rejected reason message = record { status = no_status; reason = reason; message = message }

-- `fail` and `invalid`: a validation that ends with this condition.
abbrev pub fail : {A : Type 0} → String → String → Result ConditionResult A
fail reason message = err (rejected reason message)

pub with_notes : ConditionResult → List String → ConditionResult
with_notes c [] = c
with_notes c (n ∷ ns) = record c {
  message = String.◌++◌ c.message (String.◌++◌ "; " (join (n ∷ ns) "; "));
}
