-- ===== src/Healthcheck.antt =====
-- internal/gateway/healthcheck.go: the check of a target, built from a route's annotations.
pub mod Shape
use pangolin_gateway.Annotation
use Prim.Native.String
use pangolin_gateway.Prelude.{
  List, Option, Result, String, [], contains, err, false, if◌then◌else◌, ltb, none, not, ok, some,
  suc, true, zero, ℕ, ◌&&◌, ◌++◌, ◌==◌, ◌>>=◌, ◌||◌, ◌∷◌, string_eq,
}
use pangolin_gateway.Annotations.{Annotations, bool_annotation, refuse_annotations, value_of}
use pangolin_gateway.Blueprint.{Healthcheck, Target}
use pangolin_gateway.Map.{has_key, lookup}
use pangolin_gateway.Prelude.Int.{ℤ, pos, negsuc}
use pangolin_gateway.Text.{atoi, concat, has_prefix, itoa_ℤ, join, quote, to_upper, trim_space}

abbrev pub healthcheck_switches : List String
healthcheck_switches = Annotation.healthcheck_path ∷ Annotation.healthcheck_mode ∷ []

abbrev pub healthcheck_tuning : List String
healthcheck_tuning =
    Annotation.healthcheck_interval ∷ Annotation.healthcheck_timeout ∷ Annotation.healthcheck_status
    ∷ Annotation.healthcheck_method ∷ Annotation.healthcheck_follow_redirects ∷ []

abbrev pub http_only_healthcheck_settings : List String
http_only_healthcheck_settings =
    Annotation.healthcheck_path ∷ Annotation.healthcheck_status ∷ Annotation.healthcheck_method
    ∷ Annotation.healthcheck_follow_redirects ∷ []

abbrev pub healthcheck_annotations : List String
healthcheck_annotations = healthcheck_switches ++ healthcheck_tuning

abbrev pub healthcheck_methods : List String
healthcheck_methods = "DELETE" ∷ "GET" ∷ "HEAD" ∷ "OPTIONS" ∷ "PATCH" ∷ "POST" ∷ "PUT" ∷ []

-- healthcheckMode
unfoldable pub healthcheck_mode : Annotations → Result String String
healthcheck_mode m = elim (lookup Annotation.healthcheck_mode m) [
  | none ↦ ok ""
  | some raw ↦
      if raw == "http" || raw == "tcp"
      then ok raw
      else if raw == "snmp" || raw == "icmp"
      then err (
          concat (
            "annotation "
            ∷ Annotation.healthcheck_mode
            ∷ ": Pangolin offers "
            ∷ quote raw
            ∷ " in its dashboard as a paid feature its agent does not implement, so the check would silently run over HTTP"
            ∷ []))
      else err (
          concat (
            "annotation "
            ∷ Annotation.healthcheck_mode
            ∷ " must be \"http\" or \"tcp\", got "
            ∷ quote raw
            ∷ []))
]

-- healthcheckMethod
unfoldable pub healthcheck_method : Annotations → Result String String
healthcheck_method m = elim (lookup Annotation.healthcheck_method m) [
  | none ↦ ok "GET"
  | some raw ↦
      let method = to_upper (trim_space raw) in
      if contains healthcheck_methods method
      then ok method
      else err (
          concat (
            "annotation "
            ∷ Annotation.healthcheck_method
            ∷ " must be one of "
            ∷ join healthcheck_methods ", "
            ∷ ", got "
            ∷ quote raw
            ∷ []))
]

abbrev status_error : String → Result String ℕ
status_error raw = err (
    concat (
      "annotation "
      ∷ Annotation.healthcheck_status
      ∷ " must be an HTTP status code between 100 and 599, got "
      ∷ quote raw
      ∷ []))

abbrev status_code : String → Option ℤ → Result String ℕ
status_code raw (some (pos n)) = if ltb n 100 || ltb 599 n then status_error raw else ok n
status_code raw _ = status_error raw

-- healthcheckStatus
unfoldable pub healthcheck_status : Annotations → Result String ℕ
healthcheck_status m = elim (lookup Annotation.healthcheck_status m) [
  | none ↦ ok 0
  | some raw ↦ status_code raw (atoi (trim_space raw))
]

abbrev seconds : String → String → Option ℤ → Result String ℕ
seconds annotation raw none = err (
    concat
      ("annotation " ∷ annotation ∷ " must be a whole number of seconds, got " ∷ quote raw ∷ []))
seconds annotation raw (some (pos zero)) =
    err (concat ("annotation " ∷ annotation ∷ " must be greater than zero, got 0" ∷ []))
seconds annotation raw (some (pos (suc n))) = ok (suc n)
seconds annotation raw (some (negsuc n)) = err (
    concat
      ("annotation " ∷ annotation ∷ " must be greater than zero, got " ∷ itoa_ℤ (negsuc n) ∷ []))

-- positiveSeconds
unfoldable pub positive_seconds : Annotations → String → ℕ → Result String ℕ
positive_seconds m annotation fallback = elim (lookup annotation m) [
  | none ↦ ok fallback
  | some raw ↦ if raw == "" then ok fallback else seconds annotation raw (atoi raw)
]

-- Tuning without a switch.
unfoldable pub unswitched : Annotations → List String → Result String (Option Healthcheck)
unswitched m [] = ok none
unswitched m (a ∷ rest) =
    let later = unswitched m rest in
    if has_key a m
    then err (
        concat (
          a
          ∷ " is set without "
          ∷ join healthcheck_switches " or "
          ∷ ", so no healthcheck would be created"
          ∷ []))
    else later

-- The settings of an HTTP check, on the strategy and the times.
unfoldable pub http_check : Annotations → Healthcheck → String → Result String (Option Healthcheck)
unfolding healthcheck_method healthcheck_status
http_check m hc path =
    if path == ""
    then err (
        concat (
          Annotation.healthcheck_mode ∷ " is http, which needs " ∷ Annotation.healthcheck_path
          ∷ " to say what to request" ∷ []))
    else if not (has_prefix path "/")
    then err (
        concat (
          "annotation "
          ∷ Annotation.healthcheck_path
          ∷ " must start with \"/\", got "
          ∷ quote path
          ∷ []))
    else do
      method ← healthcheck_method m
      status ← healthcheck_status m
      follow ← bool_annotation m Annotation.healthcheck_follow_redirects true
      ok (
          some (record hc {
            path = path;
            method = method;
            status = status;
            follow_redirects = follow;
          }))

-- The check before its strategy is looked at.
abbrev pub base_check : Target → String → ℕ → ℕ → Healthcheck
base_check target mode interval timeout = record {
  hostname = target.hostname;
  port = target.port;
  interval = interval;
  timeout = timeout;
  mode = mode;
  path = "";
  method = "";
  status = 0;
  follow_redirects = false;
}

abbrev pub refuse_http_settings : Annotations → Result String (Unit {0})
refuse_http_settings m =
    refuse_annotations m "a TCP healthcheck" "a TCP check opens a connection and reads no response"
      http_only_healthcheck_settings

-- The check of a route that has a switch set.
unfoldable pub switched_check :
    Annotations → Target → String → String → Result String (Option Healthcheck)
unfolding http_check positive_seconds
switched_check m target mode path = do
  interval ← positive_seconds m Annotation.healthcheck_interval 30
  timeout ← positive_seconds m Annotation.healthcheck_timeout 5
  if mode == "tcp"
      then (refuse_http_settings m >>= λ _. ok (some (base_check target mode interval timeout)))
      else http_check m (base_check target mode interval timeout) path

-- healthcheckFor
unfoldable pub healthcheck_for : Annotations → Target → Result String (Option Healthcheck)
unfolding healthcheck_mode switched_check unswitched
healthcheck_for m target = do
  mode ← healthcheck_mode m
  let path = value_of m Annotation.healthcheck_path
  if mode == "" && path == ""
      then unswitched m healthcheck_tuning
      else switched_check m target (if mode == "" then "http" else mode) path
