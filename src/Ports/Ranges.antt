-- ===== src/Ports/Ranges.antt =====
-- internal/gateway/privateresource.go: the port ranges that a PrivateResource may list.
use pangolin_gateway.Prelude.{ℕ, ◌≤◌, string_eq, nat_eq}

abbrev pub IsPort : ℕ → Type 0
IsPort n = (1 ≤ n) × (n ≤ 65535)

-- A range that Pangolin's schema takes.
abbrev pub IsRange : ℕ × ℕ → Type 0
IsRange r = IsPort (r.0) × IsPort (r.1) × (r.0 ≤ r.1)
