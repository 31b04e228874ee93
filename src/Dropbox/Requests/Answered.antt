-- ===== src/Dropbox/Requests/Answered.antt =====
-- The retries of src/migrator/providers/dropbox_api.py: which attempt is the last, and its outcome.
use dropbox_mirror.Base.{
  ℕ, zero, suc, ◌+◌, ◌*◌, ◌≤◌, ◌<◌, min, Bool, true, false, ◌&&◌, ◌||◌, ◌==◌, nat_eq, text_eq,
  option_eq, nat_beq_iff, if◌then◌else◌, ok, err, ◌≡◌, refl, ◌⊎◌, inl, inr, arith, Bool-cases,
}
use dropbox_mirror.Dropbox.Requests.{
  download, call, judge_download, download_wait, retry_wait, network_failure, responded, answered,
  retried, dropbox_missing, dropbox_http, path_not_found, json_of, is_server_error, judge_call,
  Json, Http, Sent, dropbox_retries, retry_loop, Requested, Next,
}
use dropbox_mirror.Failure.{Outcome}

-- The attempts before the last are transient failures; if the last is one too, every attempt was
-- made and the retries are exhausted, and otherwise the outcome is the last attempt's.
pub record Retries {ℓ} {A : Type ℓ} (attempt left : ℕ) (transient : ℕ → Bool)
    (final : ℕ → Outcome A) (r : Requested A) : Type ℓ where
  pub at_least : attempt ≤ r.made
  pub at_most : r.made < attempt + left
  pub before : (n : ℕ) → attempt ≤ n → n < r.made → transient n ≡ true
  pub exhausted :
      transient r.made ≡ true → (r.made + 1 ≡ attempt + left) × (r.outcome ≡ err dropbox_retries)
  pub settled : transient r.made ≡ false → r.outcome ≡ final r.made

-- What a round makes of an attempt.
pub data Judged {ℓ} {A : Type ℓ} (judge : ℕ → ℕ → Next A) (transient : ℕ → Bool)
    (final : ℕ → Outcome A) (n delay : ℕ) : Type ℓ where
  is_transient :
      (seconds next : ℕ)
      → transient n ≡ true
      → judge n delay ≡ retried seconds next
      → Judged judge transient final n delay
  is_final :
      transient n ≡ false
      → judge n delay ≡ answered (final n)
      → Judged judge transient final n delay

module _ {A : Type 0} (judge : ℕ → ℕ → Next A) (transient : ℕ → Bool) (final : ℕ → Outcome A)
    (judged : (n delay : ℕ) → Judged judge transient final n delay) where
  loop-Retries :
      (left attempt delay : ℕ)
      → Retries attempt (suc left) transient final (retry_loop judge (suc left) attempt delay)
  unfolding retry_loop
  loop-Retries zero attempt delay = elim (judged attempt delay) [
    | is_final f e ↦ rw e (record {
      at_least = omega arith;
      at_most = omega arith;
      before = λ n low high. absurd (omega (arith, low, high));
      exhausted = λ t. cc (t, f);
      settled = λ _. refl;
    })
    | is_transient seconds next t e ↦ rw e (record {
      at_least = omega arith;
      at_most = omega arith;
      before = λ n low high. absurd (omega (arith, low, high));
      exhausted = λ _. (omega arith, refl);
      settled = λ f. cc (t, f);
    })
  ]
  loop-Retries (suc left) attempt delay = elim (judged attempt delay) [
    | is_final f e ↦ rw e (record {
      at_least = omega arith;
      at_most = omega arith;
      before = λ n low high. absurd (omega (arith, low, high));
      exhausted = λ t. cc (t, f);
      settled = λ _. refl;
    })
    | is_transient seconds next t e ↦
        let rest = loop-Retries left (attempt + 1) next in
        rw e (record {
          at_least = omega (arith, rest.at_least);
          at_most = omega (arith, rest.at_most);
          before = λ n low high. earlier n attempt t low (λ above. rest.before n above high);
          exhausted = λ s. (omega (arith, (rest.exhausted s).0), (rest.exhausted s).1);
          settled = λ s. rest.settled s;
        })
  ]
    where
      earlier :
          (n k : ℕ)
          → transient k ≡ true
          → k ≤ n
          → (k + 1 ≤ n → transient n ≡ true)
          → transient n ≡ true
      earlier n k t low later = elim (Bool-cases (n == k)) [
        | inl same ↦ rw ((nat_beq_iff n k).0 same) t
        | inr apart ↦ later (ground (arith, low, apart))
      ]

-- A failure of the network, a rate limit, or an error of the server.
abbrev pub is_transient_failure : Sent → Bool
is_transient_failure network_failure = true
is_transient_failure (responded r) = (r.status_code == 429) || is_server_error r.status_code

-- The outcome of an answer that is not retried.
abbrev pub call_outcome : Sent → Outcome Json
call_outcome network_failure = err dropbox_retries
call_outcome (responded r) = if r.status_code == 200 then json_of r.body else err dropbox_http

abbrev pub download_outcome : Sent → Outcome (Unit {0})
download_outcome network_failure = err dropbox_retries
download_outcome (responded r) =
    if r.status_code == 200
    then ok tt
    else if (r.status_code == 409) && path_not_found r.body
    then err dropbox_missing
    else err dropbox_http

judged_call :
    (http : Http) (s : Sent) (delay : ℕ)
    → ((is_transient_failure s ≡ true)
        × ((seconds : ℕ) × (next : ℕ) × (judge_call http s delay ≡ retried seconds next)))
      ⊎ ((is_transient_failure s ≡ false) × (judge_call http s delay ≡ answered (call_outcome s)))
unfolding judge_call
judged_call http network_failure delay =
    inl (refl, (delay, min (delay * 2) http.maximum_backoff, refl))
judged_call http (responded r) delay =
    let slower = min (delay * 2) http.maximum_backoff in
    elim (Bool-cases (r.status_code == 200)) [
      | inl t ↦ rw ((nat_beq_iff r.status_code 200).0 t) (inr (refl, refl))
      | inr not_ok ↦ elim (Bool-cases (r.status_code == 429)) [
        | inl t ↦ rw (not_ok, t) (inl (refl, (retry_wait http r, delay, refl)))
        | inr f ↦ elim (Bool-cases (is_server_error r.status_code)) [
          | inl server ↦ rw (not_ok, f, server) (inl (refl, (delay, slower, refl)))
          | inr wrong ↦ rw (not_ok, f, wrong) (inr (refl, refl))
        ]
      ]
    ]

judged_download :
    (http : Http) (s : Sent) (delay : ℕ)
    → ((is_transient_failure s ≡ true)
        × ((seconds : ℕ) × (next : ℕ) × (judge_download http s delay ≡ retried seconds next)))
      ⊎ ((is_transient_failure s ≡ false)
          × (judge_download http s delay ≡ answered (download_outcome s)))
unfolding judge_download download_wait
judged_download http network_failure delay =
    inl (refl, (delay, min (delay * 2) http.maximum_backoff, refl))
judged_download http (responded r) delay =
    let slower = min (delay * 2) http.maximum_backoff in
    elim (Bool-cases (r.status_code == 200)) [
      | inl t ↦ rw ((nat_beq_iff r.status_code 200).0 t) (inr (refl, refl))
      | inr not_ok ↦ elim (Bool-cases (r.status_code == 409)) [
        | inl t ↦
            rw ((nat_beq_iff r.status_code 409).0 t) (elim (Bool-cases (path_not_found r.body)) [
              | inl gone ↦ rw gone (inr (refl, refl))
              | inr there ↦ rw there (inr (refl, refl))
            ])
        | inr not_409 ↦ elim (Bool-cases (r.status_code == 429)) [
          | inl t ↦ rw (not_ok, not_409, t) (inl (refl, (retry_wait http r, delay, refl)))
          | inr f ↦ elim (Bool-cases (is_server_error r.status_code)) [
            | inl server ↦ rw (not_ok, not_409, f, server) (inl (refl, (delay, slower, refl)))
            | inr wrong ↦ rw (not_ok, not_409, f, wrong) (inr (refl, refl))
          ]
        ]
      ]
    ]

started-Retries :
    {A : Type 0} (judge : ℕ → ℕ → Next A) (transient : ℕ → Bool) (final : ℕ → Outcome A)
    (attempts delay : ℕ)
    → ((n d : ℕ) → Judged judge transient final n d)
    → 0 < attempts
    → Retries 1 attempts transient final (retry_loop judge attempts 1 delay)
started-Retries judge transient final zero delay judged h = absurd (omega (arith, h))
started-Retries judge transient final (suc left) delay judged h =
    loop-Retries judge transient final judged left 1 delay

-- A call of the API makes at least one attempt and at most the configured number. Every attempt
-- before the last failed in the network, at the rate limit or with a server error; if the last
-- one did so too, all were made and the call fails for exhausted retries, and otherwise the last
-- answer is the outcome: its JSON under status 200, an error under another.
pub call-Retries :
    (http : Http) (post : ℕ → Sent)
    → 0 < http.max_attempts
    → Retries 1 http.max_attempts
        (λ n. is_transient_failure (post n))
        (λ n. call_outcome (post n))
        (call http post)
unfolding call
call-Retries http post positive =
    started-Retries (λ attempt delay. judge_call http (post attempt) delay)
      (λ n. is_transient_failure (post n)) (λ n. call_outcome (post n)) http.max_attempts
      http.initial_backoff
      (λ n d. elim (judged_call http (post n) d) [
        | inl (t, (seconds, next, e)) ↦ is_transient seconds next t e
        | inr (f, e) ↦ is_final f e
      ])
      positive

-- The same of a download, whose outcome is success under status 200, a missing file where Dropbox
-- says 409 and names the path as not found, and an error under any other status: a file that is
-- gone is never asked for again.
pub download-Retries :
    (http : Http) (post : ℕ → Sent)
    → 0 < http.max_attempts
    → Retries 1 http.max_attempts
        (λ n. is_transient_failure (post n))
        (λ n. download_outcome (post n))
        (download http post)
unfolding download
download-Retries http post positive =
    started-Retries (λ attempt delay. judge_download http (post attempt) delay)
      (λ n. is_transient_failure (post n)) (λ n. download_outcome (post n)) http.max_attempts
      http.initial_backoff
      (λ n d. elim (judged_download http (post n) d) [
        | inl (t, (seconds, next, e)) ↦ is_transient seconds next t e
        | inr (f, e) ↦ is_final f e
      ])
      positive
