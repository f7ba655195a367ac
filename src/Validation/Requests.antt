-- ===== src/Validation/Requests.antt =====
-- src/utils/jobValidator.ts: what the parameters of a REST step are in which the validator finds no issue.
use background_jobs.Prelude.{
  ℕ, zero, suc, ◌+◌, ◌<◌, String, true, false, Option, none, some, [], ◌∷◌, Map, get, In, has_iff,
  not, ◌&&◌, ◌||◌, ◌≡◌, ◌≢◌, ◌⊎◌, refl, subst, inl, inr, arith, Bool-cases, Option-cases, ◌==◌,
  String_discrete,
}
use background_jobs.Json.{
  Json, null, boolean, number, string, array, object, Fields, entries, record_of, is_present,
}
use background_jobs.Platform.{Platform, Url}
use background_jobs.Registry.{Plugin}
use background_jobs.Validation.{
  FieldPath, unless, ◌◂◌, is_text, absent_or, is_integer_within, is_one_of, required_string,
}
use background_jobs.Validation.Silence.{append_silent, unless_silent}
use background_jobs.Validation.Parameters.{
  PluginValidator, response_types, validate_timeout, authority_of, is_origin, validate_origin_at,
  validate_by_type, min_response_bytes, max_response_bytes, validate_rest_origin, validate_rest_url,
  validate_rest_api_parameters, has_no_body, method_of, validate_method, http_methods,
}
use background_jobs.Validation.Definition.{validate_job_definition, valid}
use background_jobs.Validation.Valid.{StepOf, sound_step, validate_job_definition-SoundJob}
use background_jobs.Validation.Safety.{sound-Parameters}

module _ (js : Platform) where
  -- A URL with no template up to the end of its first "://", that parses as one of HTTP with a host.
  pub record FixedOrigin (text : String) : Type 0 where
    pub scheme_end : ℕ
    pub has_scheme : js.index_of "://" (js.trim text) ≡ some scheme_end
    pub from_one : 0 < scheme_end
    pub fixed_scheme : js.has_template (js.slice_to (scheme_end + 3) (js.trim text)) ≡ false
    pub url : Url
    pub parsed : js.parse_url (js.trim text) ≡ some url
    pub is_http : (url.protocol ≡ "http:") ⊎ (url.protocol ≡ "https:")
    pub has_host : url.hostname ≢ ""

  record HttpUrl (text : String) : Type 0 where
    url : Url
    parsed : js.parse_url text ≡ some url
    is_http : (url.protocol ≡ "http:") ⊎ (url.protocol ≡ "https:")
    has_host : url.hostname ≢ ""

  http_url :
      (u : Url)
      → ((u.protocol == "http:" || u.protocol == "https:") && not (u.hostname == "")) ≡ true
      → ((u.protocol ≡ "http:") ⊎ (u.protocol ≡ "https:")) × (u.hostname ≢ "")
  http_url u h = ground arith

  origin_HttpUrl : (text : String) → is_origin js text ≡ true → HttpUrl text
  origin_HttpUrl text h = elim (Option-cases (js.parse_url text)) [
    | inl e ↦ absurd (ground arith)
    | inr (u, e) ↦
        let (a, b) = http_url u (ground arith) in
        record { url = u; parsed = e; is_http = a; has_host = b }
  ]

  origin_silent :
      (text : String) (path : FieldPath) → validate_rest_origin js text path ≡ [] → FixedOrigin text
  unfolding validate_rest_origin
  origin_silent text path h = elim (Option-cases (js.index_of "://" (js.trim text))) [
    | inl e ↦ absurd (ground arith)
    | inr (zero, e) ↦ absurd (ground arith)
    | inr (suc n, e) ↦
        let q : validate_origin_at js (suc n) (js.trim text) path ≡ [] = ground arith in
        elim (Bool-cases (js.has_template (js.slice_to (suc n + 3) (js.trim text)))) [
          | inl t ↦ absurd (ground arith)
          | inr a ↦
              elim (Bool-cases
                (js.has_template (authority_of js (js.slice_from (suc n + 3) (js.trim text))))) [
                  | inl t ↦ absurd (ground arith)
                  | inr b ↦
                      let u = origin_HttpUrl (js.trim text) (ground arith) in
                      record {
                        scheme_end = suc n;
                        has_scheme = e;
                        from_one = ground arith;
                        fixed_scheme = a;
                        url = u.url;
                        parsed = u.parsed;
                        is_http = u.is_http;
                        has_host = u.has_host;
                      }
                ]
        ]
  ]

  -- The verb of a request: GET if METHOD is absent, else its text, trimmed and in upper case.
  abbrev pub Means : Option Json → String → Type 0
  Means v verb =
      ((v ≡ none) × (verb ≡ "GET"))
      ⊎ ((t : String) × (v ≡ some (string t)) × (verb ≡ js.upper (js.trim t)))

  pub record SafeRequest (params : Map Json) : Type 0 where
    pub text : String
    pub has_url : get "URL" params ≡ some (string text)
    pub not_blank : (js.trim text == "") ≡ false
    pub origin : FixedOrigin text
    pub verb : String
    pub of_method : Means (get "METHOD" params) verb
    pub supported : In verb ("GET" ∷ "POST" ∷ "PUT" ∷ "PATCH" ∷ "DELETE" ∷ "HEAD" ∷ "OPTIONS" ∷ [])
    pub no_body : (get "BODY" params ≡ none) ⊎ ((verb ≢ "GET") × (verb ≢ "HEAD"))

  record Located (v : Option Json) : Type 0 where
    text : String
    shape : v ≡ some (string text)
    not_blank : (js.trim text == "") ≡ false
    origin : FixedOrigin text

  url_silent :
      (v : Option Json) (path : FieldPath)
      → required_string js v path "REST_URL_REQUIRED" ≡ []
      → validate_rest_url js v path ≡ []
      → Located v
  url_silent (some (string s)) path a h =
      let t = unless_silent (is_text js (some (string s))) path "REST_URL_REQUIRED" a in
      let n : (js.trim s == "") ≡ false = ground arith in
      let q : validate_rest_origin js s path ≡ [] = ground arith in
      record { text = s; shape = refl; not_blank = n; origin = origin_silent s path q }
  url_silent none path a h = absurd (ground arith)
  url_silent (some null) path a h = absurd (ground arith)
  url_silent (some (boolean _)) path a h = absurd (ground arith)
  url_silent (some (number _)) path a h = absurd (ground arith)
  url_silent (some (array _)) path a h = absurd (ground arith)
  url_silent (some (object _)) path a h = absurd (ground arith)

  method_silent :
      (v : Option Json) (path : FieldPath)
      → validate_method js v path ≡ []
      → Means v (method_of js v) × In (method_of js v) http_methods
  method_silent none path h = (inl (refl, refl), inl refl)
  method_silent (some (string s)) path h = (
    inr (s, refl, refl),
    (has_iff (js.upper (js.trim s)) http_methods).0
        (unless_silent _ path "UNSUPPORTED_HTTP_METHOD" h),
  )
  method_silent (some null) path h = absurd (ground arith)
  method_silent (some (boolean _)) path h = absurd (ground arith)
  method_silent (some (number _)) path h = absurd (ground arith)
  method_silent (some (array _)) path h = absurd (ground arith)
  method_silent (some (object _)) path h = absurd (ground arith)

  absent :
      (verb : String) (v : Option Json)
      → not (has_no_body js verb && is_present v) ≡ true
      → (v ≡ none) ⊎ ((verb ≢ "GET") × (verb ≢ "HEAD"))
  absent verb none h = inl refl
  absent verb (some v) h = inr (λ e. ground arith, λ e. ground arith)

  request_silent :
      (params : Map Json) (path : FieldPath)
      → validate_rest_api_parameters js params path ≡ []
      → SafeRequest params
  unfolding validate_rest_api_parameters
  request_silent params path h =
      let (a, r) =
        append_silent (required_string js (get "URL" params) (path ◂ "URL") "REST_URL_REQUIRED") _
          h in
      let (b, r2) = append_silent (validate_rest_url js (get "URL" params) (path ◂ "URL")) _ r in
      let (c, r3) =
        append_silent (validate_method js (get "METHOD" params) (path ◂ "METHOD")) _ r2 in
      let (_, r4) = append_silent (validate_timeout params path) _ r3 in
      let (_, r5) =
        append_silent
          (unless
            (absent_or (is_integer_within min_response_bytes max_response_bytes)
              (get "MAX_RESPONSE_BYTES" params))
            (path ◂ "MAX_RESPONSE_BYTES") "INVALID_RESPONSE_LIMIT")
          _ r4 in
      let (_, r6) =
        append_silent
          (unless (absent_or (is_one_of response_types) (get "RESPONSE_TYPE" params))
            (path ◂ "RESPONSE_TYPE") "INVALID_RESPONSE_TYPE")
          _ r5 in
      let (d, _) =
        append_silent
          (unless
            (not (
              has_no_body js (method_of js (get "METHOD" params))
              && is_present (get "BODY" params)))
            (path ◂ "BODY") "BODY_NOT_ALLOWED")
          _ r6 in
      let url = url_silent (get "URL" params) (path ◂ "URL") a b in
      record {
        text = url.text;
        has_url = url.shape;
        not_blank = url.not_blank;
        origin = url.origin;
        verb = method_of js (get "METHOD" params);
        of_method = (method_silent (get "METHOD" params) (path ◂ "METHOD") c).0;
        supported = (method_silent (get "METHOD" params) (path ◂ "METHOD") c).1;
        no_body =
            absent (method_of js (get "METHOD" params)) (get "BODY" params)
              (unless_silent _ (path ◂ "BODY") "BODY_NOT_ALLOWED" d);
      }

module _ (js : Platform) (plugins : Map (Plugin (Option PluginValidator))) where
  -- In a definition that validateJobDefinition accepts, a step of type RESTAPI has a URL, not blank, that
  -- holds no template up to the end of its first "://" and parses as one of HTTP or HTTPS with a host;
  -- its verb, GET without a METHOD and else METHOD trimmed and in upper case, is one of the seven that are
  -- supported; and with GET or HEAD there is no BODY. The condition: a text that was trimmed is not changed
  -- by trimming it again.
  pub request-SafeRequest :
      (trims : (s : String) → js.trim (js.trim s) ≡ js.trim s) (input job : Json) (step : Fields)
      (text : String)
      → validate_job_definition js plugins input ≡ valid job
      → StepOf job step
      → get "TYPE" (entries step) ≡ some (string text)
      → js.upper (js.trim text) ≡ "RESTAPI"
      → (params : Map Json) × (record_of (get "STEP_PARAMS" (entries step)) ≡ some params)
        × SafeRequest js params
  unfolding String_discrete
  request-SafeRequest trims input job step text accepted here type is_request =
      let p =
        sound-Parameters js plugins step
          (sound_step js plugins job step
            (validate_job_definition-SoundJob js plugins trims input job accepted) here)
          text type in
      (
        p.params,
        p.shape,
        request_silent js p.params p.place
            (subst (λ t. validate_by_type js t p.params p.place ≡ []) is_request p.by_type),
      )
