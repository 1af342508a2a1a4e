-- ===== src/Healthcheck/Shape.antt =====
-- internal/gateway/healthcheck.go: what a check that is published looks like.
use pangolin_gateway.Annotation
use pangolin_gateway.Prelude.{contains, true, ℕ, ◌≡◌, ◌≢◌, ◌≤◌, ◌⊎◌, string_eq, nat_eq}
use pangolin_gateway.Annotations.{Annotations}
use pangolin_gateway.Blueprint.{Healthcheck, Target}
use pangolin_gateway.Healthcheck.{healthcheck_methods}
use pangolin_gateway.Text.{has_prefix}

-- Zero stands for any code.
abbrev pub IsStatus : ℕ → Type 0
IsStatus n = (n ≡ 0) ⊎ ((100 ≤ n) × (n ≤ 599))

-- An HTTP check asks for a path with a known method; a TCP check asks for nothing.
pub data IsRequest (hc : Healthcheck) : Type 0 where
  http_request :
      hc.mode ≢ "tcp"
      → has_prefix hc.path "/" ≡ true
      → contains healthcheck_methods hc.method ≡ true
      → IsStatus hc.status
      → IsRequest hc
  tcp_request : hc.mode ≡ "tcp" → hc.path ≡ "" → hc.method ≡ "" → hc.status ≡ 0 → IsRequest hc

abbrev pub IsCheck : Target → Healthcheck → Type 0
IsCheck target hc =
    (hc.hostname ≡ target.hostname)
    × (hc.port ≡ target.port)
    × (1 ≤ hc.interval)
    × (1 ≤ hc.timeout)
    × IsRequest hc
