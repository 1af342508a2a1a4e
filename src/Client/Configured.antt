-- ===== src/Client/Configured.antt =====
-- internal/pangolin/client.go: which configurations NewHTTPClient accepts.
use pangolin_gateway.Prelude.{
  ==_false, ==_of_ne, Bool, Bool-cases, Result, String, err, false, inl, inr, ok, refl, string_eq,
  nat_eq, true, ◌==◌, ◌≡◌, ◌≢◌, ◌↔◌, ◌||◌, ap,
}
use pangolin_gateway.Client.{HttpClient, Options, Url, checked_url, configured, new_http_client}
use pangolin_gateway.Text.{contains_char}

-- What a configuration must have.
abbrev pub IsComplete : (String → Result String Url) → Options → Type 0
IsComplete parse_url o =
    (o.endpoint ≢ "")
    × (o.org_id ≢ "")
    × (contains_char o.api_key "." ≡ true)
    × (u : Url) × (parse_url o.endpoint ≡ ok u)
    × (u.scheme ≢ "")
    × (u.host ≢ "")

or_false : (a b : Bool) → (a || b) ≡ false → (a ≡ false) × (b ≡ false)
or_false false b h = (refl, h)
or_false true b h = absurd (cc)

checked_url-ok :
    (o : Options) (c : HttpClient) (parsed : Result String Url)
    → checked_url o parsed ≡ ok c
    → ((u : Url) × (parsed ≡ ok u) × (u.scheme ≢ "") × (u.host ≢ "")) × (configured o ≡ c)
checked_url-ok o c (err e) h = absurd (cc)
checked_url-ok o c (ok u) h = elim (Bool-cases (u.scheme == "" || u.host == "")) [
  | inl bad ↦ absurd (let q = rw (bad, checked_url) at h in cc)
  | inr good ↦
      let (a, b) = or_false (u.scheme == "") (u.host == "") good in
      let q = rw (good, checked_url) at h in
      ((u, refl, ==_false u.scheme "" a, ==_false u.host "" b), cc)
]

new_http_client-IsComplete :
    (parse_url : String → Result String Url) (o : Options) (c : HttpClient)
    → new_http_client parse_url o ≡ ok c
    → IsComplete parse_url o × (configured o ≡ c)
unfolding new_http_client
new_http_client-IsComplete parse_url o c h = elim (Bool-cases (o.endpoint == "")) [
  | inl e ↦ absurd (let q = rw (e, new_http_client) at h in cc)
  | inr endpoint ↦ elim (Bool-cases (o.org_id == "")) [
    | inl e ↦ absurd (let q = rw (endpoint, e, new_http_client) at h in cc)
    | inr org ↦ elim (Bool-cases (o.api_key == "")) [
      | inl e ↦ absurd (let q = rw (endpoint, org, e, new_http_client) at h in cc)
      | inr key ↦ elim (Bool-cases (contains_char o.api_key ".")) [
        | inr e ↦ absurd (let q = rw (endpoint, org, key, e, new_http_client) at h in cc)
        | inl dot ↦
            let (u, q) =
              checked_url-ok o c (parse_url o.endpoint)
                (rw (endpoint, org, key, dot, new_http_client) at h) in
            (
              (==_false o.endpoint "" endpoint, ==_false o.org_id "" org, dot, u.0, u.1, u.2, u.3),
              q,
            )
      ]
    ]
  ]
]

nonempty_key : (key : String) → contains_char key "." ≡ true → key ≢ ""
unfolding contains_char
nonempty_key key h e = let q : contains_char "" "." ≡ true = rw e at h in cc

-- A client is made exactly when endpoint and organisation are given, the key holds a dot, and the
-- endpoint parses with a scheme and a host; it is the client of that configuration.
pub new_http_client_iff :
    (parse_url : String → Result String Url) (o : Options) (c : HttpClient)
    → (new_http_client parse_url o ≡ ok c) ↔ (IsComplete parse_url o × (configured o ≡ c))
unfolding new_http_client
new_http_client_iff parse_url o c = (
  new_http_client-IsComplete parse_url o c,
  λ h.
      let ((endpoint, org, dot, u, parsed, scheme, host), q) = h in
      rw
        (
          ==_of_ne o.endpoint "" endpoint,
          ==_of_ne o.org_id "" org,
          ==_of_ne o.api_key "" (nonempty_key o.api_key dot),
          dot,
          parsed,
          ==_of_ne u.scheme "" scheme,
          ==_of_ne u.host "" host,
          new_http_client,
        )
        (ap ok q),
)
