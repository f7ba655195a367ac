-- ===== src/Tests/Requests.antt =====
-- A redirect within an origin, and bodies at their limit.
use background_jobs.Prelude.{ℕ, String, List, [], ◌∷◌, none, some, ◌==◌, if◌then◌else◌}
use background_jobs.Outbound.{
  Urls, RequestInit, Response, fetch_same_origin, read_response_prefix, read_response_text, sent,
}
use background_jobs.Outbound.Origins.{BoundTo, Confined, fetch_same_origin-Confined}
use background_jobs.Outbound.Bodies.{
  Kept, Reads, bytes_of, read_response_prefix-Kept, read_response_text-Reads,
}

-- A URL is its path, on one host.
abbrev urls : Urls String
urls = record {
  parse = λ s. some s;
  relative = λ s u. some s;
  protocol = λ u. "http:";
  hostname = λ u. "localhost";
  origin = λ u. if u == "away" then "http://away" else "http://localhost";
  upper = λ s. s;
}

abbrev answer : List (String × RequestInit String) → String → RequestInit String → Response
answer [] u r = record { status = 302; location = some "next" }
answer (_ ∷ _) u r = record { status = 303; location = some "away" }

abbrev post : RequestInit String
post = record {
  method = some "POST";
  headers = ("content-type", "text/plain") ∷ [];
  body = some "body";
  redirect = none;
}

fetch_same_origin_example :
    (origin : String) × BoundTo urls "first" none origin
    × Confined urls origin 6 (sent (fetch_same_origin urls answer "first" none 5 post))
fetch_same_origin_example = fetch_same_origin-Confined urls answer "first" none 5 post

abbrev chunks : List (List ℕ)
chunks = (1 ∷ 2 ∷ []) ∷ (3 ∷ 4 ∷ []) ∷ []

prefix_example : Kept 3 (bytes_of chunks) (read_response_prefix 3 chunks)
prefix_example = read_response_prefix-Kept 3 chunks

text_example : Reads (some 4) 4 (bytes_of chunks) (read_response_text (some 4) 4 chunks)
text_example = read_response_text-Reads (some 4) 4 chunks
