-- ===== src/AdminApi/Spent.antt =====
-- adminapi/renew.go: the client and the handler together, over a network that may fail at any point.
use go_certs_manager.Base.{
  Bool, Bool-cases, List, Option, Text, [], codes, false, inl, inr, none, refl, some, subst, sym,
  true, ℕ, ◌∷◌, ◌≡◌, ◌≢◌, ◌⊎◌,
}
use go_certs_manager.AdminApi.{
  Attempt, HttpResponse, RenewRequest, Wire, is_not_persisted, issued, read_limited, refused,
  requested_domain, run_renewal, serve_renewal, write_json,
}
use go_certs_manager.AdminApi.Classified.{
  RoundTrips, exit_of, exit_of_refused, is_not_persisted_lem, outcome_of_error,
  renew_outcome-write_renew_result,
}
use go_certs_manager.AdminApi.Client.{
  Answer, answered, cut_off, exit_failed, exit_ok, exit_stored, make_request, no_answer, post,
  renew, renew_outcome, renew_transport_failure, report_answer, request_of, send_request,
}
use go_certs_manager.Effects.{Error, order_not_persisted}

module _ {S : Type 0} (serve : RenewRequest → S → HttpResponse × S) where
  -- net/http: an error of dialling is one before anything was sent, a status line comes after it,
  -- and a whole response is the handler's. Any other error says nothing of whether it ran.
  pub record IsTransport (send : RenewRequest → S → Answer × S) : Type 0 where
    pub unsent :
        (r : RenewRequest) (s : S) (text : Text)
        → (send r s).0 ≡ no_answer true text
        → (send r s).1 ≡ s
    pub connected :
        (r : RenewRequest) (s : S) (dialling : Bool) (text : Text)
        → (send r s).0 ≡ cut_off dialling text
        → dialling ≡ false
    pub arrived :
        (r : RenewRequest) (s : S) (code : ℕ) (body : Text)
        → (send r s).0 ≡ answered code body
        → serve r s ≡ (record { code = code; body = body }, (send r s).1)

module _ {S : Type 0} (renewer : Option (Text → S → Attempt × S)) (domain : Text) (s : S) where
  -- The service ran one renewal of the domain, with this outcome.
  unfoldable pub Ran : Attempt → S → Type 0
  Ran a s' = elim renewer [ none ↦ ⊥ | some f ↦ f domain s ≡ (a, s') ]

  -- Success: the renewal ran and was stored. Failure: the service did nothing, or the renewal ran
  -- and failed with nothing to serve. Otherwise: the code that says not to run it again.
  abbrev pub IsTold : ℕ × S → Type 0
  IsTold x =
      ((x.0 ≡ exit_ok) × ((renewed : List Text) × Ran (issued renewed) x.1))
      ⊎ (((x.0 ≡ exit_failed)
            × ((x.1 ≡ s) ⊎ ((e : Error) × ((e ≢ order_not_persisted) × Ran (refused e) x.1))))
          ⊎ (x.0 ≡ exit_stored))

module _ (wire : Wire) (round : RoundTrips wire) where
  module _ {S : Type 0} (f : Text → S → Attempt × S) (domain : Text) (s s' : S) where
    ran-IsTold : (a : Attempt) → f domain s ≡ (a, s') → IsTold (some f) domain s (exit_of a, s')
    unfolding exit_of Ran
    ran-IsTold (issued renewed) ran = inl (refl, (renewed, ran))
    ran-IsTold (refused e) ran = elim (Bool-cases (is_not_persisted e)) [
      | inl y ↦ inr (inr (rw (exit_of_refused e, y)))
      | inr n ↦ inr (inl (rw (exit_of_refused e, n), inr (e, (is_not_persisted_lem e n, ran))))
    ]

  exit_of_response : HttpResponse → ℕ
  exit_of_response r = (renew_outcome wire r.code r.body).1

  run_renewal-IsTold :
      {S : Type 0} (f : Text → S → Attempt × S) (domain : Text) (s : S)
      → IsTold
          (some f)
          domain
          s
          (exit_of_response (run_renewal wire f domain s).0, (run_renewal wire f domain s).1)
  unfolding run_renewal exit_of_response write_json
  run_renewal-IsTold f [] s =
      inr (
        inl (outcome_of_error wire round 400 (codes "domain parameter is required") refl, inl refl))
  run_renewal-IsTold f (c ∷ domain) s =
      let x = f (c ∷ domain) s in
      subst (λ n. IsTold (some f) (c ∷ domain) s (n, x.1))
        (sym (renew_outcome-write_renew_result wire round (c ∷ domain) x.0))
        (ran-IsTold f (c ∷ domain) s x.1 x.0 refl)

  -- What the client makes of the handler's answer to a POST.
  serve_renewal-IsTold :
      {S : Type 0} (renewer : Option (Text → S → Attempt × S)) (query body : Text) (s : S)
      → IsTold renewer (requested_domain wire (post query body)) s (
        exit_of_response (serve_renewal wire renewer (post query body) s).0,
        (serve_renewal wire renewer (post query body) s).1,
      )
  unfolding serve_renewal write_json renew_outcome exit_of_response
  serve_renewal-IsTold none query body s = inr (inl (refl, inl refl))
  serve_renewal-IsTold (some f) query body s =
      run_renewal-IsTold f (requested_domain wire (post query body)) s

  module _ {S : Type 0} (renewer : Option (Text → S → Attempt × S))
      (send : RenewRequest → S → Answer × S)
      (net : IsTransport (serve_renewal wire renewer) send) where
    send-IsTold :
        (query body domain : Text) (s : S)
        → requested_domain wire (post query body) ≡ domain
        → (x : Answer) → (send (post query body) s).0 ≡ x
        → IsTold renewer domain s ((report_answer wire x).1, (send (post query body) s).1)
    unfolding report_answer renew_transport_failure exit_of_response
    send-IsTold query body domain s asks (no_answer true text) e =
        inr (inl (refl, inl (net.unsent _ s text e)))
    send-IsTold query body domain s asks (no_answer false text) e = inr (inr refl)
    send-IsTold query body domain s asks (cut_off dialling text) e =
        subst
          (λ b.
            IsTold renewer domain s
              ((renew_transport_failure b text).1, (send (post query body) s).1))
          (sym (net.connected (post query body) s dialling text e)) (inr (inr refl))
    send-IsTold query body domain s asks (answered code text) e =
        subst (λ p. IsTold renewer domain s ((renew_outcome wire p.0.code p.0.body).1, p.1))
          (net.arrived (post query body) s code text e)
          (subst
            (λ d. IsTold renewer d s (
              exit_of_response (serve_renewal wire renewer (post query body) s).0,
              (serve_renewal wire renewer (post query body) s).1,
            ))
            asks (serve_renewal-IsTold renewer query body s))

    module _ (endpoint domain : Text) (s : S)
        (bare : (query : Text) → wire.query_domain endpoint ≡ some query → query ≡ [])
        (carries : (body : Text)
          → wire.encode_domain domain ≡ some body
          → wire.decode_domain (read_limited body) ≡ domain) where
      asked :
          (query body : Text)
          → wire.query_domain endpoint ≡ some query
          → wire.encode_domain domain ≡ some body
          → requested_domain wire (post query body) ≡ domain
      unfolding requested_domain
      asked query body q b =
          subst (λ v. requested_domain wire (post v body) ≡ domain) (sym (bare query q))
            (carries body b)

      send_request-IsTold :
          (unsent : Text) (body query : Option Text)
          → wire.encode_domain domain ≡ body
          → wire.query_domain endpoint ≡ query
          → IsTold renewer domain s (
            (send_request wire send unsent (request_of body query) s).0.1,
            (send_request wire send unsent (request_of body query) s).1,
          )
      unfolding send_request request_of
      send_request-IsTold unsent none query b q = inr (inl (refl, inl refl))
      send_request-IsTold unsent (some body) none b q = inr (inl (refl, inl refl))
      send_request-IsTold unsent (some body) (some query) b q =
          send-IsTold query body domain s (asked query body q b) _ refl

      -- What the exit code of a renewal tells of the service, whatever the network does: after 0 the
      -- renewal of the domain ran and was stored; after 1 the service did nothing, or the renewal ran
      -- and failed with another error than ErrOrderNotPersisted; and there is no other code but 2.
      -- The endpoint has no query, and the handler reads the domain that the client wrote.
      pub renew-IsTold :
          (unsent : Text)
          → IsTold renewer domain s (
            (renew wire send unsent endpoint domain s).0.1,
            (renew wire send unsent endpoint domain s).1,
          )
      unfolding renew make_request
      renew-IsTold unsent = send_request-IsTold unsent _ _ refl refl
