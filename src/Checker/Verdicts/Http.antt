-- ===== src/Checker/Verdicts/Http.antt =====
-- When an http run passes.
use tenpm_uptime_monitor.Prelude.{
  ◌≡◌, refl, ◌⊎◌, inl, inr, ◌↔◌, true, false, Option, none, some, List, [], ◌∷◌, arith, take,
  Option-cases, All,
}
use tenpm_uptime_monitor.Prelude.Text.{Text}
use tenpm_uptime_monitor.Model.Check.{Check, Result}
use tenpm_uptime_monitor.Model.Verdict.Rules.{
  Matches, Accepts, match_content-Matches, status_code_acceptable-Accepts,
}
use tenpm_uptime_monitor.Model.Verdict.{
  match_content, status_code_acceptable, response_time_exceeded,
}
use tenpm_uptime_monitor.Model.Content.{sample_content}
use tenpm_uptime_monitor.Egress.{check_url}
use tenpm_uptime_monitor.Checker.{judged, started_result}
use tenpm_uptime_monitor.Checker.Tls.{Certificate}
use tenpm_uptime_monitor.Checker.Http.{
  HttpWorld, HttpChecker, Response, Body, readable, unreadable, Done, responded, do_error,
  max_body_read_len, request_method, built_request, cert_verdict, http_responded, http_done,
  http_run,
}
use tenpm_uptime_monitor.Checker.Verdicts.{judged-success, InTime, InTime-iff, Lasts, Lasts-iff}

Body-cases : (b : Body) → ((s : Text) × (b ≡ readable s)) ⊎ ((e : Text) × (b ≡ unreadable e))
Body-cases (readable s) = inl (s, refl)
Body-cases (unreadable e) = inr (e, refl)

-- The leaf certificate, if there is one, lasts.
abbrev pub LeafLasts : Check → Option (List Certificate) → Type 0
LeafLasts c none = Unit {0}
LeafLasts c (some []) = Unit {0}
LeafLasts c (some (leaf ∷ chain)) = Lasts c leaf.days_remaining

module _ {Conn : Type 0} (w : HttpWorld Conn) (c : Check) where
  -- The response satisfies every rule of the check.
  pub record ResponsePasses (resp : Response) : Type 0 where
    pub content : Text
    pub read : resp.body ≡ readable content
    pub status : Accepts c resp.status_code
    pub matches : Matches c (take max_body_read_len content)
    pub in_time : InTime c w.latency_ms
    pub leaf : LeafLasts c resp.peer_certificates

  cert_verdict_iff :
      (certs : Option (List Certificate))
      → All (λ m. m ≡ []) (cert_verdict c certs) ↔ LeafLasts c certs
  unfolding cert_verdict
  cert_verdict_iff none = (λ h. tt, λ h. tt)
  cert_verdict_iff (some []) = (λ h. tt, λ h. tt)
  cert_verdict_iff (some (leaf ∷ chain)) =
      let (there, back) = Lasts-iff c leaf.days_remaining in (λ h. there h.0, λ h. (back h, tt))

  -- The result of a body that could be read, before the verdicts.
  abbrev sampled : Response → Text → Result
  sampled resp content = record (started_result w.ran_at c) {
    latency_ms = w.latency_ms;
    http_status = resp.status_code;
    response_sample = sample_content w.to_valid_utf8 (take max_body_read_len content);
  }

  abbrev verdicts : Response → Text → List Text
  verdicts resp content =
      status_code_acceptable w.quote c resp.status_code
      ∷ match_content c (take max_body_read_len content)
      ∷ response_time_exceeded c w.latency_ms
      ∷ cert_verdict c resp.peer_certificates

  http_responded-readable :
      (resp : Response) (content : Text)
      → resp.body ≡ readable content
      → http_responded w c resp ≡ judged (sampled resp content) (verdicts resp content)
  unfolding http_responded
  http_responded-readable resp content e = rw e refl

  http_responded-unreadable :
      (resp : Response) (x : Text)
      → resp.body ≡ unreadable x
      → (http_responded w c resp).success ≡ false
  unfolding http_responded
  http_responded-unreadable resp x e = rw e refl

  verdicts_iff :
      (resp : Response) (content : Text)
      → resp.body ≡ readable content
      → All (λ m. m ≡ []) (verdicts resp content) ↔ ResponsePasses resp
  verdicts_iff resp content e =
      let (status, status') = status_code_acceptable-Accepts w.quote c resp.status_code in
      let (matches, matches') = match_content-Matches c (take max_body_read_len content) in
      let (time, time') = InTime-iff c w.latency_ms in
      let (leaf, leaf') = cert_verdict_iff resp.peer_certificates in
      (
        (λ h. record {
          content = content;
          read = e;
          status = status h.0;
          matches = matches h.1.0;
          in_time = time h.1.1.0;
          leaf = leaf h.1.1.1;
        }),
        (λ p.
            let same : p.content ≡ content = ground (arith, p.read) in
            (
              status' p.status,
              (matches' (rw (← same) p.matches), (time' p.in_time, leaf' p.leaf)),
            )),
      )

  http_responded_iff :
      (resp : Response) → ((http_responded w c resp).success ≡ true) ↔ ResponsePasses resp
  http_responded_iff resp = elim (Body-cases resp.body) [
    | inl (content, e) ↦
        let (judge, judge') = judged-success (sampled resp content) (verdicts resp content) refl in
        let (pass, pass') = verdicts_iff resp content e in
        rw (http_responded-readable resp content e) (λ h. pass (judge h), λ p. judge' (pass' p))
    | inr (x, e) ↦ (
      (λ h. absurd (ground (arith, http_responded-unreadable resp x e))),
      (λ p. absurd (ground (arith, p.read))),
    )
  ]

-- A run passes: the policy lets the URL through, a request can be made, and the response that it
-- gets satisfies every rule of the check.
pub record HttpPasses {Conn : Type 0} (w : HttpWorld Conn) (h : HttpChecker) (c : Check)
    : Type 0 where
  pub allowed : check_url w.net h.policy c.url ≡ none
  pub requested : w.request_error (request_method c) c.url ≡ none
  pub jar : w.jar_error ≡ none
  pub response : Response
  pub answered : w.do_request (built_request h c) ≡ responded response
  pub passes : ResponsePasses w c response

http_done_iff :
    {Conn : Type 0} (w : HttpWorld Conn) (c : Check) (d : Done)
    → ((http_done w c d).success ≡ true)
      ↔ ((resp : Response) × (d ≡ responded resp) × ResponsePasses w c resp)
unfolding http_done
http_done_iff w c (responded resp) =
    let (there, back) = http_responded_iff w c resp in
    (
      (λ h. (resp, refl, there h)),
      (λ p. let same : p.0 ≡ resp = ground (arith, p.1) in back (rw (← same) p.2)),
    )
http_done_iff w c (do_error e) = (λ h. absurd (ground arith), λ p. absurd (ground (arith, p.1)))

-- An http run passes exactly when the policy lets the URL through, the request can be made, the
-- target responds with a body that can be read, and the status, the first mebibyte of the body, the
-- latency and the leaf certificate, if there is one, satisfy the check's rules.
pub http_run-HttpPasses :
    {Conn : Type 0} (w : HttpWorld Conn) (h : HttpChecker) (c : Check)
    → ((http_run w h c).0.success ≡ true) ↔ HttpPasses w h c
unfolding http_run
http_run-HttpPasses w h c = elim (Option-cases (check_url w.net h.policy c.url)) [
  | inr (x, e) ↦ (λ k. absurd (ground (arith, e)), λ p. absurd (ground (arith, p.allowed)))
  | inl allowed ↦ elim (Option-cases (w.request_error (request_method c) c.url)) [
    | inr (x, e) ↦ (λ k. absurd (ground (arith, e)), λ p. absurd (ground (arith, p.requested)))
    | inl requested ↦ elim (Option-cases w.jar_error) [
      | inr (x, e) ↦ (λ k. absurd (ground (arith, e)), λ p. absurd (ground (arith, p.jar)))
      | inl jar ↦
          let same : (http_run w h c).0 ≡ http_done w c (w.do_request (built_request h c)) =
            rw (allowed, requested, jar, http_run) refl in
          let (there, back) = http_done_iff w c (w.do_request (built_request h c)) in
          rw same (
            (λ k.
                let (resp, answered, passes) = there k in
                record {
                  allowed = allowed;
                  requested = requested;
                  jar = jar;
                  response = resp;
                  answered = answered;
                  passes = passes;
                }),
            (λ p. back (p.response, p.answered, p.passes)),
          )
    ]
  ]
]
