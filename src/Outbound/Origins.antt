-- ===== src/Outbound/Origins.antt =====
-- src/utils/outboundHttp.ts: where requests go, how many there are, and how much of a body is kept.
use background_jobs.Prelude.{
  ℕ, zero, suc, ◌+◌, ◌≤◌, String, Option, none, some, List, [], ◌∷◌, ◌++◌, In, In-append, not, ◌&&◌,
  ◌||◌, length, length-append, ◌≡◌, ◌≢◌, ◌⊎◌, refl, ◌∙◌, sym, ap, subst, inl, inr, ⊎_elim, arith,
  Bool-cases, Option-cases, ◌==◌,
}
use background_jobs.Outbound.{
  Urls, manual, RequestInit, Response, sent, is_redirect, redirect_request, http_url, origin_or,
  follow, fetch_same_origin,
}

module _ {U : Type 0} (urls : Urls U) where
  abbrev pub IsHttp : U → Type 0
  IsHttp u = ((urls.protocol u ≡ "http:") ⊎ (urls.protocol u ≡ "https:")) × (urls.hostname u ≢ "")

  http_url-IsHttp : (o : Option U) (u : U) → http_url urls o ≡ some u → IsHttp u
  http_url-IsHttp none u h = absurd (ground arith)
  http_url-IsHttp (some v) u h =
      elim (Bool-cases (
        (urls.protocol v == "http:" || urls.protocol v == "https:")
        && not (urls.hostname v == ""))) [
          | inr e ↦ absurd (ground arith)
          | inl e ↦ let q : v ≡ u = ground arith in subst IsHttp q (ground arith)
        ]

module _ {U B : Type 0} (urls : Urls U) (origin : String) where
  -- Each request goes to a URL of HTTP with a host in the origin, and there are no more than `most`.
  abbrev pub Confined : ℕ → List (U × RequestInit B) → Type 0
  Confined most log =
      ((r : U × RequestInit B)
        → In r log
        → (urls.origin r.0 ≡ origin) × IsHttp urls r.0 × (r.1.redirect ≡ some manual))
      × (length log ≤ most)

  Confined-append :
      (most : ℕ) (log : List (U × RequestInit B)) (u : U) (request : RequestInit B)
      → Confined most log
      → urls.origin u ≡ origin
      → IsHttp urls u
      → request.redirect ≡ some manual
      → Confined (most + 1) (log ++ (u, request) ∷ [])
  Confined-append most log u request (h, n) o i d = (
    λ r m.
        ⊎_elim (h r)
          (λ k.
            ⊎_elim
              (λ e.
                subst
                  (λ z. (urls.origin z.0 ≡ origin) × IsHttp urls z.0 × (z.1.redirect ≡ some manual))
                  (sym e) (o, i, d))
              (λ z. absurd z) k)
          ((In-append r log ((u, request) ∷ [])).0 m),
    omega (arith, n, length-append log ((u, request) ∷ [])),
  )

  Confined-weaken :
      (m n : ℕ) (log : List (U × RequestInit B)) → m ≤ n → Confined m log → Confined n log
  Confined-weaken m n log le (h, k) = (h, omega (arith, k, le))

  redirect_request_manual :
      (status : ℕ) (request : RequestInit B)
      → (redirect_request urls status request).redirect ≡ request.redirect
  unfolding redirect_request
  redirect_request_manual status request = ground arith

  follow-Confined :
      (fetch : List (U × RequestInit B) → U → RequestInit B → Response) (left most : ℕ)
      (log : List (U × RequestInit B)) (u : U) (request : RequestInit B)
      → Confined most log
      → urls.origin u ≡ origin
      → IsHttp urls u
      → request.redirect ≡ some manual
      → Confined (most + 1 + left) (sent (follow urls fetch origin left log u request))
  unfolding follow
  follow-Confined fetch zero most log u request h o i d =
      let next = log ++ (u, request) ∷ [] in
      let q : sent (follow urls fetch origin zero log u request) ≡ next = ground arith in
      subst (Confined (most + 1 + 0)) (sym q) (
        Confined-weaken (most + 1) (most + 1 + 0) next (omega arith)
          (Confined-append most log u request h o i d))
  follow-Confined fetch (suc left) most log u request h o i d =
      let response = fetch log u request in
      let next = log ++ (u, request) ∷ [] in
      let now = Confined-append most log u request h o i d in
      let all = follow urls fetch origin (suc left) log u request in
      let stop : sent all ≡ next → Confined (most + 1 + suc left) (sent all) = λ q.
        subst (Confined (most + 1 + suc left)) (sym q)
          (Confined-weaken (most + 1) (most + 1 + suc left) next (omega arith) now) in
      elim (Bool-cases (is_redirect response.status)) [
        | inr e ↦ stop (ground arith)
        | inl e ↦ elim (Option-cases response.location) [
          | inl n ↦ stop (ground arith)
          | inr (place, p) ↦ elim (Option-cases (http_url urls (urls.relative place u))) [
            | inl n ↦ stop (ground arith)
            | inr (v, w) ↦ elim (Bool-cases (urls.origin v == origin)) [
              | inr n ↦ stop (ground arith)
              | inl y ↦
                  let q : all
                      ≡ follow urls fetch origin left next v
                          (redirect_request urls response.status request) =
                    ground arith in
                  let r =
                    follow-Confined fetch left (most + 1) next v
                      (redirect_request urls response.status request) now (ground arith)
                      (http_url-IsHttp urls (urls.relative place u) v w)
                      (redirect_request_manual response.status request ∙ d) in
                  subst (λ f. Confined (most + 1 + suc left) (sent f)) (sym q)
                    (Confined-weaken (most + 1 + 1 + left) (most + 1 + suc left) _ (omega arith) r)
            ]
          ]
        ]
      ]

module _ {U : Type 0} (urls : Urls U) where
  -- The origin to which a call is bound: the one that is allowed, or that of its first URL.
  abbrev pub BoundTo : String → Option String → String → Type 0
  BoundTo raw allowed origin = (u : U) → urls.parse raw ≡ some u → origin ≡ origin_or urls allowed u

module _ {U B : Type 0} (urls : Urls U) where
  -- Whatever is answered, all requests of fetchSameOrigin go to one origin, which is the allowed one or
  -- that of the first URL, by HTTP or HTTPS and to a host, and each tells `fetch` not to follow redirects
  -- itself; there are at most as many as redirects are allowed, and one.
  pub fetch_same_origin-Confined :
      (fetch : List (U × RequestInit B) → U → RequestInit B → Response) (raw : String)
      (allowed : Option String) (most : ℕ) (init : RequestInit B)
      → (origin : String) × BoundTo urls raw allowed origin
        × Confined urls origin
            (most + 1)
            (sent (fetch_same_origin urls fetch raw allowed most init))
  unfolding fetch_same_origin
  fetch_same_origin-Confined fetch raw allowed most init = elim (Option-cases (urls.parse raw)) [
    | inl e ↦
        let q : sent (fetch_same_origin urls fetch raw allowed most init) ≡ [] = ground arith in
        (
          "",
          λ u p. absurd (ground arith),
          subst (Confined urls "" (most + 1)) (sym q) (λ r m. absurd m, omega arith),
        )
    | inr (u, e) ↦
        let origin = origin_or urls allowed u in
        let bound : BoundTo urls raw allowed origin =
          λ v p. let q : u ≡ v = ground arith in ap (origin_or urls allowed) q in
        let all = fetch_same_origin urls fetch raw allowed most init in
        let none_sent : sent all ≡ [] → Confined urls origin (most + 1) (sent all) =
          λ q. subst (Confined urls origin (most + 1)) (sym q) (λ r m. absurd m, omega arith) in
        elim (Option-cases (http_url urls (urls.parse raw))) [
          | inl n ↦ (origin, bound, none_sent (ground arith))
          | inr (v, w) ↦
              let same : v ≡ u = ground arith in
              elim (Bool-cases (urls.origin v == origin_or urls allowed v)) [
                | inr n ↦ (origin, bound, none_sent (ground arith))
                | inl y ↦
                    let q : all
                        ≡ follow urls fetch (origin_or urls allowed v) most [] v
                            (record init { redirect = some manual }) =
                      ground arith in
                    let r =
                      follow-Confined urls (origin_or urls allowed v) fetch most 0 [] v
                        (record init { redirect = some manual }) (λ z m. absurd m, omega arith)
                        (ground arith) (http_url-IsHttp urls (urls.parse raw) v w) refl in
                    (
                      origin_or urls allowed v,
                      subst (λ z. BoundTo urls raw allowed (origin_or urls allowed z)) (sym same)
                          bound,
                      subst (λ f. Confined urls (origin_or urls allowed v) (most + 1) (sent f))
                          (sym q)
                          (Confined-weaken urls (origin_or urls allowed v) (0 + 1 + most) (most + 1)
                            _ (omega arith) r),
                    )
              ]
        ]
  ]
