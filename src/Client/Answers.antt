-- ===== src/Client/Answers.antt =====
-- internal/pangolin/client.go: what a request gives.
use Prim.Native.String
use pangolin_gateway.Prelude.{
  ==_sound, Bool-cases, Option, Result, String, arith, err, if◌then◌else◌, inl, inr, ltb, none, ok,
  refl, some, string_eq, nat_eq, ℕ, ◌==◌, ◌≡◌, ◌≤◌, ◌⊎◌, ◌↔◌, ◌||◌, ◌∙◌, ap, sym,
}
use pangolin_gateway.Client.{
  ClientError, Codec, Http, HttpClient, Response, answered, auth_error, api_error, body_limit,
  classified, do_request, encoded, exchange, request_of,
}
use pangolin_gateway.Json.{Json}

-- What a status code makes of a body that was read.
abbrev by_status : ℕ → String → String → Result ClientError String
by_status status action raw =
    if status == 401 || status == 403
    then err (auth_error status action raw)
    else if ltb status 200 || ltb 299 status
    then err (api_error status raw)
    else ok raw

by_status-ok :
    (status : ℕ) (action text raw : String)
    → by_status status action text ≡ ok raw
    → (text ≡ raw) × (200 ≤ status) × (status ≤ 299)
by_status-ok status action text raw h = (ground arith, ground arith, ground arith)

by_status-success :
    (status : ℕ) (action raw : String)
    → 200 ≤ status
    → status ≤ 299
    → by_status status action raw ≡ ok raw
by_status-success status action raw h k = ground arith

by_status-denied :
    (status : ℕ) (action text : String) (s : ℕ) (a b : String)
    → by_status status action text ≡ err (auth_error s a b)
    → (status ≡ s) × (action ≡ a) × (text ≡ b) × ((s ≡ 401) ⊎ (s ≡ 403))
by_status-denied status action text s a b h = elim (Bool-cases (status == 401)) [
  | inl found ↦
      let q = rw found at h in
      let e : status ≡ s = cc in (e, cc, cc, inl (sym e ∙ ==_sound status 401 found))
  | inr other ↦ elim (Bool-cases (status == 403)) [
    | inl found ↦
        let q = rw (other, found) at h in
        let e : status ≡ s = cc in (e, cc, cc, inr (sym e ∙ ==_sound status 403 found))
    | inr another ↦ elim (Bool-cases (ltb status 200 || ltb 299 status)) [
      | inl bad ↦ absurd (let q = rw (other, another, bad) at h in cc)
      | inr good ↦ absurd (let q = rw (other, another, good) at h in cc)
    ]
  ]
]

module _ {W : Type 0} (http : Http W) (codec : Codec) (c : HttpClient) where
  -- A request that was sent, and answered by a success.
  abbrev pub Answered : String → String → Option Json → W → String → W → Type 0
  Answered method path body w raw v =
      (content : Option String) × (encoded http codec c body ≡ ok content)
      × (http.complaint method (String.◌++◌ c.endpoint path) ≡ none)
      × (r : Response) × (http.send (request_of c method path content) w ≡ (ok r, v))
      × (r.read body_limit ≡ ok raw)
      × (200 ≤ r.status)
      × (r.status ≤ 299)

  classified-ok :
      (method path action : String) (r : Response) (raw : String)
      → classified method path action r ≡ ok raw
      → (r.read body_limit ≡ ok raw) × (200 ≤ r.status) × (r.status ≤ 299)
  unfolding classified
  classified-ok method path action r raw h = go (r.read body_limit) refl
    where
      go :
          (read : Result String String)
          → r.read body_limit ≡ read
          → (r.read body_limit ≡ ok raw) × (200 ≤ r.status) × (r.status ≤ 299)
      go (err e) q = absurd (let k = rw (q, classified) at h in cc)
      go (ok text) q =
          let (e, low, high) = by_status-ok r.status action text raw (rw (q, classified) at h) in
          (q ∙ ap ok e, low, high)

  classified-denied :
      (method path action : String) (r : Response) (s : ℕ) (a b : String)
      → classified method path action r ≡ err (auth_error s a b)
      → (r.read body_limit ≡ ok b) × (r.status ≡ s) × (action ≡ a) × ((s ≡ 401) ⊎ (s ≡ 403))
  unfolding classified
  classified-denied method path action r s a b h = go (r.read body_limit) refl
    where
      go :
          (read : Result String String)
          → r.read body_limit ≡ read
          → (r.read body_limit ≡ ok b) × (r.status ≡ s) × (action ≡ a) × ((s ≡ 401) ⊎ (s ≡ 403))
      go (err e) q = absurd (let k = rw (q, classified) at h in cc)
      go (ok text) q =
          let (status, named, body, which) =
            by_status-denied r.status action text s a b (rw (q, classified) at h) in
          (q ∙ ap ok body, status, named, which)

  answered-ok :
      (method path action : String) (made : Result String Response × W) (raw : String) (v : W)
      → answered method path action made ≡ (ok raw, v)
      → (r : Response) × (made ≡ (ok r, v))
        × (r.read body_limit ≡ ok raw)
        × (200 ≤ r.status)
        × (r.status ≤ 299)
  answered-ok method path action (err e, w) raw v h = absurd (let q = ap (λ p. p.0) h in cc)
  answered-ok method path action (ok r, w) raw v h =
      let (read, low, high) = classified-ok method path action r raw (ap (λ p. p.0) h) in
      (r, ap (λ u. (ok r, u)) (ap (λ p. p.1) h), read, low, high)

  answered-denied :
      (method path action : String) (made : Result String Response × W) (s : ℕ) (a b : String)
      → (answered method path action made).0 ≡ err (auth_error s a b)
      → (r : Response) × (made.0 ≡ ok r)
        × (r.read body_limit ≡ ok b)
        × (r.status ≡ s)
        × (action ≡ a)
        × ((s ≡ 401) ⊎ (s ≡ 403))
  answered-denied method path action (err e, w) s a b h = absurd (cc)
  answered-denied method path action (ok r, w) s a b h =
      let (read, status, named, which) = classified-denied method path action r s a b h in
      (r, refl, read, status, named, which)

  do_request-Answered :
      (method path action : String) (body : Option Json) (w v : W) (raw : String)
      → do_request http codec c method path action body w ≡ (ok raw, v)
      → Answered method path body w raw v
  unfolding do_request
  do_request-Answered method path action body w v raw h =
      go (encoded http codec c body) refl (http.complaint method (String.◌++◌ c.endpoint path)) refl
    where
      go :
          (content : Result String (Option String))
          → encoded http codec c body ≡ content
          → (refusal : Option String)
          → http.complaint method (String.◌++◌ c.endpoint path) ≡ refusal
          → Answered method path body w raw v
      go (err e) q _ _ = absurd (let k = ap (λ p. p.0) (rw (q, do_request) at h) in cc)
      go (ok content) q (some e) f =
          absurd (let k = ap (λ p. p.0) (rw (q, f, do_request, exchange) at h) in cc)
      go (ok content) q none f =
          let (r, sent, read, low, high) =
            answered-ok method path action _ raw v (rw (q, f, do_request, exchange) at h) in
          (content, q, f, r, sent, read, low, high)

  -- A request gives bytes exactly when its body encodes, the request can be built, it is sent, with
  -- the key of the client, and the response can be read and has a status from 200 to 299. The bytes
  -- are those of the response, and the world is as the request left it.
  pub do_request_iff :
      (method path action : String) (body : Option Json) (w v : W) (raw : String)
      → (do_request http codec c method path action body w ≡ (ok raw, v))
        ↔ Answered method path body w raw v
  unfolding do_request classified
  do_request_iff method path action body w v raw = (
    do_request-Answered method path action body w v raw,
    λ h.
        let (content, q, f, r, sent, read, low, high) = h in
        let status = by_status-success r.status action raw low high in
        rw (q, f, sent, read, status, do_request, exchange, classified) refl,
  )

  -- A request is denied only for a response with status 401 or 403, and the error names that status,
  -- the action of the call and the body of the response.
  pub do_request_denied :
      (method path action : String) (body : Option Json) (w : W) (s : ℕ) (a b : String)
      → (do_request http codec c method path action body w).0 ≡ err (auth_error s a b)
      → (content : Option String) × (r : Response) × ((http.send
            (request_of c method path content)
            w).0
          ≡ ok r)
        × (r.read body_limit ≡ ok b)
        × (r.status ≡ s)
        × (action ≡ a)
        × ((s ≡ 401) ⊎ (s ≡ 403))
  unfolding do_request
  do_request_denied method path action body w s a b h =
      go (encoded http codec c body) refl (http.complaint method (String.◌++◌ c.endpoint path)) refl
    where
      go :
          (content : Result String (Option String))
          → encoded http codec c body ≡ content
          → (refusal : Option String)
          → http.complaint method (String.◌++◌ c.endpoint path) ≡ refusal
          → (content : Option String) × (r : Response) × ((http.send
                (request_of c method path content)
                w).0
              ≡ ok r)
            × (r.read body_limit ≡ ok b)
            × (r.status ≡ s)
            × (action ≡ a)
            × ((s ≡ 401) ⊎ (s ≡ 403))
      go (err e) q _ _ = absurd (let k = rw (q, do_request) at h in cc)
      go (ok content) q (some e) f = absurd (let k = rw (q, f, do_request, exchange) at h in cc)
      go (ok content) q none f =
          let (r, sent, read, status, named, which) =
            answered-denied method path action (http.send (request_of c method path content) w) s a
              b (rw (q, f, do_request, exchange) at h) in
          (content, r, sent, read, status, named, which)
