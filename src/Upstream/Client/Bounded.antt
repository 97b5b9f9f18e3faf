-- ===== src/Upstream/Client/Bounded.antt =====
-- What a fetch may cost: the size of its body and the number of its attempts.
use cachic.Common.{
  ℕ, zero, suc, ◌+◌, ◌≤◌, ◌≡◌, ◌≢◌, ◌-◌, ◌*◌, ◌<◌, append_assoc, append-nil, ==_iff, refl, sym, ap,
  ◌∙◌, true, subst, if-elim, ◌⊎◌, Bool-cases, inl, inr, ◌||◌, List, [], ◌∷◌, ◌++◌, ltb, ◌==◌,
  Result, ok, err, >>=-eq-ok, ok-injective, length, length-append, arith,
}
use cachic.Upstream.Client.{
  SendError, UpstreamError, UpstreamResponse, Incoming, ClientConfig, is_redirection, is_success,
  read_body, body_limit, over, accept, attempts, last_attempt, attempt, fetch_range,
  partial_content, request,
}

read_body_bounded :
    (limit : ℕ) (body : List ℕ) (chunks : List (Result (List ℕ) SendError)) {out : List ℕ}
    → length body ≤ limit
    → read_body limit body chunks ≡ ok out
    → length out ≤ limit
unfolding read_body
read_body_bounded limit body [] h e = omega (arith, ap length (ok-injective e))
read_body_bounded limit body (err source ∷ rest) h e = cc
read_body_bounded limit body (ok chunk ∷ rest) {out} h e =
    elim (Bool-cases (ltb limit (length body + length chunk))) [
      | inl over ↦ cc (rw over at e)
      | inr fits ↦
          read_body_bounded limit (body ++ chunk) rest (ground (arith, length-append body chunk))
            (rw fits at e)
    ]

-- The chunks of a stream that breaks off nowhere, one after the other.
pub data Delivers : List (Result (List ℕ) SendError) → List ℕ → Type 0 where
  no_more : Delivers [] []
  and_then :
      (c : List ℕ) {rest : List (Result (List ℕ) SendError)} {body : List ℕ}
      → Delivers rest body
      → Delivers (ok c ∷ rest) (c ++ body)

read_body-Delivers :
    (limit : ℕ) (body : List ℕ) (chunks : List (Result (List ℕ) SendError)) {out : List ℕ}
    → read_body limit body chunks ≡ ok out
    → (tail : List ℕ) × (out ≡ body ++ tail) × Delivers chunks tail
unfolding read_body
read_body-Delivers limit body [] h = ([], sym (append-nil body ∙ ok-injective h), no_more)
read_body-Delivers limit body (err source ∷ rest) h = cc
read_body-Delivers limit body (ok c ∷ rest) h =
    elim (Bool-cases (ltb limit (length body + length c))) [
      | inl over ↦ cc (rw over at h)
      | inr fits ↦
          let (tail, joined, rest_of) = read_body-Delivers limit (body ++ c) rest (rw fits at h) in
          (c ++ tail, joined ∙ append_assoc body c tail, and_then c rest_of)
    ]

-- A response that the program goes on with, made of what an attempt was sent: its status, a success, and its headers;
-- of a partial response its whole body, which the declared length and the limits let through; else no body.
pub record IsAccepted (max_body_bytes start end : ℕ) (i : Incoming) (r : UpstreamResponse)
    : Type 0 where
  pub same_status : r.status ≡ i.status
  pub same_headers : r.headers ≡ i.headers
  pub success : (200 ≤ r.status) × (r.status < 300)
  pub in_range : length r.body ≤ end - start + 1 + 64 * 1024
  pub in_ceiling : length r.body ≤ max_body_bytes
  pub whole_read :
      ((r.status ≡ 206) × Delivers i.chunks r.body) ⊎ ((r.status ≢ 206) × (r.body ≡ []))

success_range : (s : ℕ) → is_success s ≡ true → (200 ≤ s) × (s < 300)
unfolding is_success
success_range s h = (ground arith, ground arith)

limit_range :
    (max_body start end n : ℕ)
    → n ≤ body_limit max_body start end
    → (n ≤ end - start + 1 + 64 * 1024) × (n ≤ max_body)
unfolding body_limit
limit_range max_body start end n h = (omega arith, omega arith)

accept-IsAccepted :
    (max_body start end : ℕ) (i : Incoming) {r : UpstreamResponse}
    → accept max_body start end i ≡ ok r
    → IsAccepted max_body start end i r
unfolding accept
accept-IsAccepted max_body start end i {r} e =
    if-elim (is_redirection i.status) _ _ e (λ moved x. cc)
      (λ stays e1.
        if-elim (is_success i.status) _ _ e1
          (λ success e2.
            if-elim (i.status == partial_content) _ _ e2
              (λ partial e3.
                if-elim (over i.declared (body_limit max_body start end)) _ _ e3 (λ large x. cc)
                  (λ small e4.
                    let (body, read, made) =
                      >>=-eq-ok (read_body (body_limit max_body start end) [] i.chunks) _ e4 in
                    let (tail, joined, delivered) =
                      read_body-Delivers (body_limit max_body start end) [] i.chunks read in
                    let (range, ceiling) = limit_range max_body start end (length body) (
                      read_body_bounded (body_limit max_body start end) [] i.chunks (omega arith)
                        read) in
                    subst (IsAccepted max_body start end i) (ok-injective made) (record {
                      same_status = refl;
                      same_headers = refl;
                      success = success_range i.status success;
                      in_range = range;
                      in_ceiling = ceiling;
                      whole_read =
                          inl ((==_iff i.status 206).0 partial, rw (sym joined) at delivered);
                    })))
              (λ whole e3. subst (IsAccepted max_body start end i) (ok-injective e3) (record {
                same_status = refl;
                same_headers = refl;
                success = success_range i.status success;
                in_range = omega arith;
                in_ceiling = omega arith;
                whole_read = inr ((λ is. cc (sym whole ∙ (==_iff i.status 206).1 is)), refl);
              })))
          (λ failed x. cc))

-- The attempt that answered.
unfoldable Answered :
    ℕ → ℕ → ℕ → (ℕ → Result Incoming SendError) → ℕ → ℕ → UpstreamResponse → Type 0
Answered max_body start end send n retries r =
    (k : ℕ) × (i : Incoming) × (n ≤ k)
    × (k ≤ n + retries)
    × (send k ≡ ok i)
    × (accept max_body start end i ≡ ok r)

last_attempt-accept :
    (max_body start end : ℕ) (sent : Result Incoming SendError) {r : UpstreamResponse}
    → last_attempt max_body start end sent ≡ ok r
    → (i : Incoming) × (sent ≡ ok i) × (accept max_body start end i ≡ ok r)
unfolding last_attempt
last_attempt-accept max_body start end (ok i) e = (i, refl, e)
last_attempt-accept max_body start end (err source) e = cc

attempt-accept :
    (max_body start end : ℕ) (again : Result UpstreamResponse UpstreamError)
    (sent : Result Incoming SendError) {r : UpstreamResponse}
    → attempt max_body start end again sent ≡ ok r
    → ((i : Incoming) × (sent ≡ ok i) × (accept max_body start end i ≡ ok r)) ⊎ (again ≡ ok r)
unfolding attempt
attempt-accept max_body start end again (ok i) e = inl (i, refl, e)
attempt-accept max_body start end again (err source) {r} e =
    if-elim (source.is_connect || source.is_timeout) again (err (request source)) e
      (λ retried e1. inr e1) (λ final x. cc)

attempts-Answered :
    (retries max_body start end : ℕ) (send : ℕ → Result Incoming SendError) (n : ℕ)
    {r : UpstreamResponse}
    → attempts retries max_body start end send n ≡ ok r
    → Answered max_body start end send n retries r
unfolding attempts Answered
attempts-Answered zero max_body start end send n e =
    let (i, sent, came) = last_attempt-accept max_body start end (send n) e in
    (n, i, omega arith, omega arith, sent, came)
attempts-Answered (suc retries) max_body start end send n e =
    elim (attempt-accept max_body start end (attempts retries max_body start end send (n + 1))
      (send n) e) [
        | inl (i, sent, came) ↦ (n, i, omega arith, omega arith, sent, came)
        | inr again ↦
            let (k, i, a, b, sent, came) =
              attempts-Answered retries max_body start end send (n + 1) again in
            (k, i, omega arith, omega arith, sent, came)
      ]

-- If `fetch_range` returns a response, then the host was allowed, and one of at most `retries + 1` attempts was
-- answered with the status of the response, a success, and its headers; the body of the response is no longer than the
-- range asked for and 64 KiB more, nor than the configured ceiling, and it is all the chunks of that answer if the
-- status is 206, and empty otherwise.
pub fetch_range-IsAccepted :
    (config : ClientConfig) (allowed : Result (Unit {0}) UpstreamError) (start end : ℕ)
    (send : ℕ → Result Incoming SendError) {r : UpstreamResponse}
    → fetch_range config allowed start end send ≡ ok r
    → (allowed ≡ ok tt)
      × (k : ℕ) × (i : Incoming) × (k ≤ config.retries)
      × (send k ≡ ok i)
      × IsAccepted config.max_body_bytes start end i r
unfolding fetch_range Answered
fetch_range-IsAccepted config allowed start end send e =
    let (u, granted, e1) = >>=-eq-ok allowed _ e in
    let (k, i, a, b, sent, came) =
      attempts-Answered config.retries config.max_body_bytes start end send 0 e1 in
    (granted, k, i, omega arith, sent, accept-IsAccepted config.max_body_bytes start end i came)
