-- ===== src/Upstream/Client.antt =====
-- crates/cachic/src/upstream/client.rs: fetching a range of an object from its origin. What reqwest sends back is an
-- argument, by the number of the attempt; the resolver's verdict on the host is one too. Waiting for permits
-- only delays a fetch.
pub mod Bounded
use cachic.Common.{
  ℕ, zero, suc, ◌+◌, ◌-◌, ◌*◌, min, Bool, true, false, ◌&&◌, ◌||◌, Option, none, some, List, [],
  ◌∷◌, ◌++◌, ltb, leb, ◌==◌, if◌then◌else◌, Result, ok, err, ◌>>=◌, ◌>>?◌, length,
}
use cachic.Common.Words.{saturating_add_u64}
use cachic.Common.Text.{codes, trim, rsplit_once}
use cachic.Common.Decimal.{parse_u64}
use cachic.Common.Headers.{HeaderMap, header_value, to_str}

abbrev pub default_max_body_bytes : ℕ
default_max_body_bytes = 64 * 1024 * 1024

abbrev pub range_slack : ℕ
range_slack = 64 * 1024

abbrev pub partial_content : ℕ
partial_content = 206

-- What the program asks of a `reqwest::Error`.
pub record SendError : Type 0 where
  pub is_timeout : Bool
  pub is_connect : Bool
  pub is_request : Bool

pub data UpstreamError : Type 0 where
  body_too_large : ℕ → UpstreamError
  build : UpstreamError
  resolve : UpstreamError
  request : SendError → UpstreamError
  status : ℕ → UpstreamError
  redirect : List ℕ → UpstreamError

pub record UpstreamResponse : Type 0 where
  pub status : ℕ
  pub headers : HeaderMap
  pub body : List ℕ

-- `headers.get(name).and_then(|v| v.to_str().ok())`.
unfoldable pub text_header : List ℕ → HeaderMap → Option (List ℕ)
text_header name headers = header_value name headers >>? to_str

unfoldable pub header : UpstreamResponse → List ℕ → Option (List ℕ)
unfolding text_header
header r name = text_header name r.headers

unfoldable pub content_length : UpstreamResponse → Option ℕ
unfolding header
content_length r = header r (codes "content-length") >>? λ v. parse_u64 (trim v)

unfoldable pub content_range_total : UpstreamResponse → Option ℕ
unfolding header
content_range_total r = header r (codes "content-range") >>? λ value.
    rsplit_once 47 value >>? λ (before, total). parse_u64 (trim total)

-- A response of reqwest before its body is read: the chunks come one by one.
pub record Incoming : Type 0 where
  pub status : ℕ
  pub headers : HeaderMap
  pub declared : Option ℕ
  pub chunks : List (Result (List ℕ) SendError)

unfoldable pub is_redirection : ℕ → Bool
is_redirection s = leb 300 s && ltb s 400

unfoldable pub is_success : ℕ → Bool
is_success s = leb 200 s && ltb s 300

unfoldable pub is_server_error : ℕ → Bool
is_server_error s = leb 500 s && ltb s 600

-- The loop on `response.chunk()`.
unfoldable pub read_body :
    ℕ → List ℕ → List (Result (List ℕ) SendError) → Result (List ℕ) UpstreamError
read_body limit body [] = ok body
read_body limit body (err source ∷ rest) = err (request source)
read_body limit body (ok chunk ∷ rest) =
    let more = read_body limit (body ++ chunk) rest in
    if ltb limit (length body + length chunk) then err (body_too_large limit) else more

unfoldable pub body_limit : ℕ → ℕ → ℕ → ℕ
body_limit max_body_bytes start end =
    min (saturating_add_u64 (saturating_add_u64 (end - start) 1) range_slack) max_body_bytes

unfoldable pub over : Option ℕ → ℕ → Bool
over none limit = false
over (some declared) limit = ltb limit declared

unfoldable pub location_of : Option (List ℕ) → List ℕ
location_of none = []
location_of (some location) = location

-- What `fetch_range` does with a response, from its status to its body.
unfoldable pub accept : ℕ → ℕ → ℕ → Incoming → Result UpstreamResponse UpstreamError
unfolding is_redirection is_success read_body body_limit over location_of text_header
accept max_body_bytes start end r =
    if is_redirection r.status
    then err (redirect (location_of (text_header (codes "location") r.headers)))
    else if is_success r.status
    then (if r.status == partial_content
        then (if over r.declared (body_limit max_body_bytes start end)
            then err (body_too_large (body_limit max_body_bytes start end))
            else (read_body (body_limit max_body_bytes start end) [] r.chunks >>= λ body.
                ok (record { status = r.status; headers = r.headers; body = body })))
        else ok (record { status = r.status; headers = r.headers; body = [] }))
    else err (status r.status)

-- What the last attempt gives, and one that may be followed by `again`.
unfoldable pub last_attempt :
    ℕ → ℕ → ℕ → Result Incoming SendError → Result UpstreamResponse UpstreamError
unfolding accept
last_attempt max_body_bytes start end (ok r) = accept max_body_bytes start end r
last_attempt max_body_bytes start end (err source) = err (request source)

unfoldable pub attempt :
    ℕ
    → ℕ
    → ℕ
    → Result UpstreamResponse UpstreamError
    → Result Incoming SendError
    → Result UpstreamResponse UpstreamError
unfolding accept
attempt max_body_bytes start end again (ok r) = accept max_body_bytes start end r
attempt max_body_bytes start end again (err source) =
    if source.is_connect || source.is_timeout then again else err (request source)

-- The attempts from the `n`th on, with the number of retries that are left.
unfoldable pub attempts :
    ℕ → ℕ → ℕ → ℕ → (ℕ → Result Incoming SendError) → ℕ → Result UpstreamResponse UpstreamError
unfolding last_attempt attempt
attempts zero max_body_bytes start end send n = last_attempt max_body_bytes start end (send n)
attempts (suc retries) max_body_bytes start end send n =
    attempt max_body_bytes start end (attempts retries max_body_bytes start end send (n + 1))
      (send n)

pub record ClientConfig : Type 0 where
  pub retries : ℕ
  pub max_body_bytes : ℕ

unfoldable pub fetch_range :
    ClientConfig
    → Result (Unit {0}) UpstreamError
    → ℕ
    → ℕ
    → (ℕ → Result Incoming SendError)
    → Result UpstreamResponse UpstreamError
unfolding attempts
fetch_range config check_url start end send =
    check_url >>= λ _. attempts config.retries config.max_body_bytes start end send 0

-- `fetch_stream`: the status is checked, the body is left to the caller.
unfoldable pub fetch_stream :
    Result (Unit {0}) UpstreamError
    → Result Incoming SendError
    → Result (HeaderMap × List (Result (List ℕ) SendError)) UpstreamError
unfolding is_redirection is_success location_of text_header
fetch_stream check_url (err source) = check_url >>= λ _. err (request source)
fetch_stream check_url (ok r) = check_url >>= λ _.
    if is_redirection r.status
    then err (redirect (location_of (text_header (codes "location") r.headers)))
    else if is_success r.status
    then ok (r.headers, r.chunks)
    else err (status r.status)
