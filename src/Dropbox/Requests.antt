-- ===== src/Dropbox/Requests.antt =====
-- src/migrator/providers/dropbox_api.py: the requests and their retries, `_call` and `download`. What
-- a request comes to at each attempt is an argument, and so is the reading of a number of seconds.
-- The log, the pacing of requests and the bytes written to the disk are left out; times are
-- numbers.
pub mod Answered
use dropbox_mirror.Base.{
  ◌>>=◌, ◌>>◌, ℕ, zero, suc, ◌+◌, ◌-◌, ◌*◌, ◌≤◌, ◌<◌, min, max, Bool, true, false, ◌&&◌, ◌||◌, not,
  Option, none, some, List, [], ◌∷◌, ◌++◌, map, sum, length, keep, any, all, find, concat, In, All,
  Text, codes, ◌==◌, nat_eq, text_eq, option_eq, nat_beq_iff, text_iff, if◌then◌else◌, ltb, leb, ok,
  err, Result, guard, ◌≡◌, ◌≢◌, refl, sym, ap, subst, ◌∙◌, ◌⊎◌, inl, inr, arith, Bool-cases,
}
use dropbox_mirror.Base.Json.{get_field, Json, obj, str}
use dropbox_mirror.Failure.{
  dropbox_json, other, dropbox_missing, dropbox_http, dropbox_retries, Outcome,
}

pub record Response : Type 0 where
  pub status_code : ℕ
  pub retry_after : Option Text
  pub body : Option Json

-- What `session.post` returns or raises; a failure of the network may also come while the body of
-- a download is read.
pub data Sent : Type 0 where
  network_failure : Sent
  responded : Response → Sent

pub record Http : Type 0 where
  pub max_attempts : ℕ
  pub initial_backoff : ℕ
  pub maximum_backoff : ℕ
  pub seconds : Text → Option ℕ

abbrev or_sixty : Option ℕ → ℕ
or_sixty none = 60
or_sixty (some n) = n

abbrev or_default : Option Text → Text
or_default none = codes "60"
or_default (some raw) = raw

-- `max(0.0, float(raw_retry))`, or 60 seconds.
unfoldable pub retry_wait : Http → Response → ℕ
retry_wait http r = or_sixty (http.seconds (or_default r.retry_after))

-- `status_code in {500, 502, 503, 504}`
abbrev pub is_server_error : ℕ → Bool
is_server_error code = (code == 500) || (code == 502) || (code == 503) || (code == 504)

-- After a request: the outcome, or the seconds to wait and the next delay.
pub data Next {ℓ} (A : Type ℓ) : Type ℓ where
  answered : Outcome A → Next A
  retried : ℕ → ℕ → Next A

pub record Requested {ℓ} (A : Type ℓ) : Type ℓ where
  pub outcome : Outcome A
  pub slept : List ℕ
  pub made : ℕ

abbrev one_more {ℓ} : {A : Type ℓ} → ℕ → Requested A → Requested A
one_more seconds r = record { outcome = r.outcome; slept = seconds ∷ r.slept; made = r.made }

-- The end of a round at an attempt with `left` attempts to come.
abbrev pub next_round {ℓ} : {A : Type ℓ} → ℕ → ℕ → Next A → (ℕ → Requested A) → Requested A
next_round left attempt (answered outcome) rest = record {
  outcome = outcome;
  slept = [];
  made = attempt;
}
next_round zero attempt (retried seconds delay) rest = record {
  outcome = err dropbox_retries;
  slept = [];
  made = attempt;
}
next_round (suc left) attempt (retried seconds delay) rest = one_more seconds (rest delay)

-- `for attempt in range(attempt, attempt + left)`; the end of the range is not reached.
unfoldable pub retry_loop {ℓ} : {A : Type ℓ} → (ℕ → ℕ → Next A) → ℕ → ℕ → ℕ → Requested A
retry_loop judge zero attempt delay = record { outcome = err other; slept = []; made = attempt - 1 }
retry_loop judge (suc left) attempt delay =
    next_round left attempt (judge attempt delay) (λ d. retry_loop judge left (attempt + 1) d)

abbrev pub json_of : Option Json → Outcome Json
json_of none = err dropbox_json
json_of (some value) = ok value

-- The response to a call of the API.
unfoldable pub judge_call : Http → Sent → ℕ → Next Json
unfolding retry_wait
judge_call http network_failure delay = retried delay (min (delay * 2) http.maximum_backoff)
judge_call http (responded r) delay =
    if r.status_code == 200
    then answered (json_of r.body)
    else if r.status_code == 429
    then retried (retry_wait http r) delay
    else if is_server_error r.status_code
    then retried delay (min (delay * 2) http.maximum_backoff)
    else answered (err dropbox_http)

-- `_call`
unfoldable pub call : Http → (ℕ → Sent) → Requested Json
unfolding retry_loop judge_call
call http post =
    retry_loop (λ attempt delay. judge_call http (post attempt) delay) http.max_attempts 1
      http.initial_backoff

abbrev tag_of : Json → Bool
tag_of (str tag) = tag == codes "not_found"
tag_of _ = false

abbrev path_tag : Json → Bool
path_tag (obj path) = tag_of (get_field (codes ".tag") path)
path_tag _ = false

abbrev error_path : Json → Bool
error_path (obj error) = path_tag (get_field (codes "path") error)
error_path _ = false

-- `_path_not_found`
unfoldable pub path_not_found : Option Json → Bool
unfolding get_field
path_not_found (some (obj body)) = error_path (get_field (codes "error") body)
path_not_found _ = false

-- `_download_wait`
unfoldable pub download_wait : Http → Response → ℕ → Next (Unit {0})
unfolding retry_wait path_not_found
download_wait http r delay =
    if r.status_code == 409
    then (if path_not_found r.body
        then answered (err dropbox_missing)
        else answered (err dropbox_http))
    else if r.status_code == 429
    then retried (retry_wait http r) delay
    else if is_server_error r.status_code
    then retried delay (min (delay * 2) http.maximum_backoff)
    else answered (err dropbox_http)

unfoldable pub judge_download : Http → Sent → ℕ → Next (Unit {0})
unfolding download_wait
judge_download http network_failure delay = retried delay (min (delay * 2) http.maximum_backoff)
judge_download http (responded r) delay =
    if r.status_code == 200 then answered (ok tt) else download_wait http r delay

-- `download`
unfoldable pub download : Http → (ℕ → Sent) → Requested (Unit {0})
unfolding retry_loop judge_download
download http post =
    retry_loop (λ attempt delay. judge_download http (post attempt) delay) http.max_attempts 1
      http.initial_backoff
