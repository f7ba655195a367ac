-- ===== src/Outbound.antt =====
-- src/utils/outboundHttp.ts: requests that follow redirects within one origin, and bodies that are read
-- up to a limit. What the library answers to a request is given, as are URLs and their origins; a request
-- that fails is left out.
pub mod Origins
pub mod Bodies
use background_jobs.Prelude.{
  ℕ, zero, suc, ◌+◌, ◌-◌, String, Bool, true, false, Option, none, some, List, [], ◌∷◌, ◌++◌, Map,
  delete, not, ◌&&◌, ◌||◌, leb, length, if◌then◌else◌, ◌==◌, ◌==ℕ◌,
}

-- `U` is a URL that the library has parsed.
pub record Urls (U : Type 0) : Type 0 where
  -- `new URL(text)` and `new URL(text, base)`
  pub parse : String → Option U
  pub relative : String → U → Option U
  pub protocol : U → String
  pub hostname : U → String
  pub origin : U → String
  -- `toUpperCase`
  pub upper : String → String

-- RequestRedirect: whether `fetch` itself follows a redirect.
pub data Redirect : Type 0 where
  follows manual fails : Redirect

-- What of a request the code looks at or changes; `redirect` may be left out.
pub record RequestInit (B : Type 0) : Type 0 where
  pub method : Option String
  pub headers : Map String
  pub body : Option B
  pub redirect : Option Redirect

pub record Response : Type 0 where
  pub status : ℕ
  pub location : Option String

pub data OutboundError : Type 0 where
  bad_url no_http other_origin redirected_origin too_many_redirects : OutboundError

-- The result of a call, with the requests that were made.
pub data Fetched (U B : Type 0) : Type 0 where
  answered : Response → List (U × RequestInit B) → Fetched U B
  rejected : OutboundError → List (U × RequestInit B) → Fetched U B

abbrev pub sent : {U B : Type 0} → Fetched U B → List (U × RequestInit B)
sent (answered r log) = log
sent (rejected e log) = log

-- REDIRECT_STATUSES
unfoldable pub is_redirect : ℕ → Bool
is_redirect s = s ==ℕ 301 || s ==ℕ 302 || s ==ℕ 303 || s ==ℕ 307 || s ==ℕ 308

abbrev pub default_max_redirects : ℕ
default_max_redirects = 5

module _ {U : Type 0} (urls : Urls U) where
  -- httpUrl, for a text that the library has parsed or not.
  abbrev pub http_url : Option U → Option U
  http_url none = none
  http_url (some u) =
      if (urls.protocol u == "http:" || urls.protocol u == "https:") && not (urls.hostname u == "")
      then some u
      else none

  abbrev pub origin_or : Option String → U → String
  origin_or none u = urls.origin u
  origin_or (some o) u = o

module _ {U B : Type 0} (urls : Urls U) where
  abbrev pub method_of : RequestInit B → String
  method_of init = urls.upper (elim init.method [ none ↦ "GET" | some m ↦ m ])

  -- redirectRequest
  unfoldable pub redirect_request : ℕ → RequestInit B → RequestInit B
  redirect_request status init =
      if not (status ==ℕ 303)
        && not ((status ==ℕ 301 || status ==ℕ 302) && method_of init == "POST")
      then init
      else record init {
        method = some "GET";
        headers = delete "content-length" (delete "content-type" init.headers);
        body = none;
      }

  -- The rest of the loop: `left` more redirects may be followed. `fetch` is told of what was sent before.
  unfoldable pub follow :
      (List (U × RequestInit B) → U → RequestInit B → Response)
      → String
      → ℕ
      → List (U × RequestInit B)
      → U
      → RequestInit B
      → Fetched U B
  follow fetch origin zero log current request =
      let response = fetch log current request in
      let next = log ++ (current, request) ∷ [] in
      if is_redirect response.status
      then elim response.location [
        | none ↦ answered response next
        | some _ ↦ rejected too_many_redirects next
      ]
      else answered response next
  follow fetch origin (suc left) log current request =
      let response = fetch log current request in
      let next = log ++ (current, request) ∷ [] in
      elim (is_redirect response.status) [
        | false ↦ answered response next
        | true ↦ elim response.location [
          | none ↦ answered response next
          | some place ↦ elim (http_url urls (urls.relative place current)) [
            | none ↦ rejected no_http next
            | some u ↦ elim (urls.origin u == origin) [
              | false ↦ rejected redirected_origin next
              | true ↦ follow fetch origin left next u (redirect_request response.status request)
            ]
          ]
        ]
      ]

  -- fetchSameOrigin
  unfoldable pub fetch_same_origin :
      (List (U × RequestInit B) → U → RequestInit B → Response)
      → String
      → Option String
      → ℕ
      → RequestInit B
      → Fetched U B
  unfolding follow redirect_request
  fetch_same_origin fetch raw allowed_origin max_redirects init =
      elim (http_url urls (urls.parse raw)) [
        | none ↦ rejected bad_url []
        | some current ↦
            let origin = origin_or urls allowed_origin current in
            elim (urls.origin current == origin) [
              | false ↦ rejected other_origin []
              | true ↦
                  follow fetch origin max_redirects [] current
                    (record init { redirect = some manual })
            ]
      ]

-- A body as the chunks that the library reads: their sizes, or texts of bytes.
abbrev pub Chunk : Type 0
Chunk = List ℕ

pub data TextRead : Type 0 where
  whole_text : List ℕ → TextRead
  over_limit : TextRead

unfoldable pub read_chunks : ℕ → List ℕ → List Chunk → TextRead
read_chunks limit read [] = whole_text read
read_chunks limit read (c ∷ cs) =
    let rest = read_chunks limit (read ++ c) cs in
    if leb (length read + length c) limit then rest else over_limit

-- readResponseText, up to the decoding of its bytes; `declared` is the length that the headers give.
unfoldable pub read_response_text : Option ℕ → ℕ → List Chunk → TextRead
unfolding read_chunks
read_response_text none limit chunks = read_chunks limit [] chunks
read_response_text (some n) limit chunks =
    if leb n limit then read_chunks limit [] chunks else over_limit

abbrev pub take : ℕ → List ℕ → List ℕ
take zero xs = []
take (suc n) [] = []
take (suc n) (x ∷ xs) = x ∷ take n xs

abbrev pub has_more : List Chunk → Bool
has_more [] = false
has_more (_ ∷ _) = true

unfoldable pub read_prefix : ℕ → List ℕ → List Chunk → List ℕ × Bool
read_prefix limit read [] = (read, false)
read_prefix limit read (c ∷ cs) =
    let remaining = limit - length read in
    let rest = read_prefix limit (read ++ c) cs in
    if not (leb (length c) remaining)
    then (read ++ take remaining c, true)
    else if (length read + length c) ==ℕ limit
    then (read ++ c, has_more cs)
    else rest

-- readResponsePrefix, up to the decoding of its bytes.
unfoldable pub read_response_prefix : ℕ → List Chunk → List ℕ × Bool
unfolding read_prefix
read_response_prefix limit chunks = read_prefix limit [] chunks
