-- ===== src/AdminApi/Client.antt =====
-- adminapi/renew.go, the client's side: what the command line prints and what it exits with. The
-- HTTP client is the parameter `send`: it turns the state of the service and gives an `Answer`.
use go_certs_manager.Base.{
  Bool, List, Option, Text, [], codes, false, if◌then◌else◌, map, none, some, text_eq, trim_space,
  true, ℕ, ◌++◌, ◌==◌, ◌||◌, ◌∷◌,
}
use go_certs_manager.AdminApi.{RenewRequest, RenewResult, Wire, dash, status_stored, status_success}

-- Exit codes.
abbrev pub exit_ok : ℕ
exit_ok = 0

abbrev pub exit_failed : ℕ
exit_failed = 1

abbrev pub exit_stored : ℕ
exit_stored = 2

-- What comes of a request: an error, with whether it is a net.OpError with Op "dial" and its text,
-- or a status line whose body was cut off, or a whole response.
pub data Answer : Type 0 where
  no_answer : Bool → Text → Answer
  cut_off : Bool → Text → Answer
  answered : ℕ → Text → Answer

-- What is printed, and the exit code.
abbrev pub Report : Type 0
Report = List Text × ℕ

-- "✓", "⚠" and "✗" in UTF-8.
abbrev tick : Text
tick = 226 ∷ 156 ∷ 147 ∷ []

abbrev warning : Text
warning = 226 ∷ 154 ∷ 160 ∷ []

abbrev cross : Text
cross = 226 ∷ 156 ∷ 151 ∷ []

abbrev indented : Text → Text
indented = ◌++◌ (codes "  ")

-- `if s != "" { lines = append(lines, "  "+s) }`
unfoldable note : Text → List Text
note [] = []
note (c ∷ s) = indented (c ∷ s) ∷ []

unfoldable pub renew_preamble : Text → List Text
renew_preamble domain =
    (codes "Renewing "
      ++ domain
      ++ codes " "
      ++ dash
      ++ codes " this places a NEW order with Let's Encrypt.")
    ∷ codes "Let's Encrypt allows 5 certificates per name per week."
    ∷ []

unfoldable pub renew_transport_failure : Bool → Text → Report
renew_transport_failure true text = (
  (cross ++ codes " Could not reach the service " ++ dash ++ codes " nothing was ordered")
      ∷ indented text
      ∷ codes "  Check that it is running and the URL is right, then run it again."
      ∷ [],
  exit_failed,
)
renew_transport_failure false text = (
  (warning ++ codes " No answer from the service " ++ dash ++ codes " the outcome is unknown")
      ∷ indented text
      ∷ codes "  The order may have gone ahead. DO NOT re-run this until the"
      ∷ codes "  certificate listing shows it did not: re-running spends another."
      ∷ [],
  exit_stored,
)

abbrev renewal_failed : Text
renewal_failed = cross ++ codes " Certificate renewal failed"

unfoldable pub report_success : RenewResult → Report
unfolding note
report_success r = (
  (tick ++ codes " Certificate ordered and stored") ∷ note r.message
      ++ map indented r.renewed
      ++ (codes "  It is in service on this node and in shared storage." ∷ []),
  exit_ok,
)

unfoldable pub report_stored : RenewResult → Report
unfolding note
report_stored r = (
  (warning ++ codes " Certificate ordered, but NOT written to shared storage") ∷ note r.error
      ++ map indented r.renewed
      ++ (codes "  This node is serving it and retries the write every few minutes."
          ∷ codes "  DO NOT re-run this: the order is already spent, and another would"
          ∷ codes "  buy a certificate we hold. Fix storage instead, then check the"
          ∷ codes "  certificate listing."
          ∷ []),
  exit_stored,
)

abbrev pub post : Text → Text → RenewRequest
post query body = record { is_post = true; query = query; body = body }

unfoldable pub request_of : Option Text → Option Text → Option RenewRequest
request_of none query = none
request_of (some body) none = none
request_of (some body) (some query) = some (post query body)

module _ (wire : Wire) where
  unfoldable pub report_error : ℕ → RenewResult → Report
  report_error code r = (
    renewal_failed
        ∷ elim r.error [ [] ↦ codes "  HTTP " ++ wire.print_number code | c ∷ s ↦ indented (c ∷ s) ]
        ∷ codes "  Check the certificate listing before re-running: if the failure"
        ∷ codes "  came after the CA signed, the order is already spent."
        ∷ [],
    exit_failed,
  )

  unfoldable pub report_result : ℕ → RenewResult → Report
  unfolding report_success report_stored report_error
  report_result code r =
      if text_eq r.status status_success
      then report_success r
      else if text_eq r.status status_stored
      then report_stored r
      else report_error code r

  unfoldable pub renew_outcome : ℕ → Text → Report
  unfolding report_result
  renew_outcome code body =
      if (code == 404) || (code == 501)
      then (
        (cross ++ codes " Certificate renewal endpoint not available")
            ∷ codes "  Ensure the service is running with TLS (letsencrypt) enabled"
            ∷ [],
        exit_failed,
      )
      else elim (wire.decode_result body) [
        | none ↦ (
          renewal_failed
              ∷ (codes "  Unreadable response (HTTP "
                  ++ wire.print_number code
                  ++ codes "): "
                  ++ trim_space body)
              ∷ [],
          exit_failed,
        )
        | some r ↦ report_result code r
      ]

  -- The switch of Renew over what the client got.
  unfoldable pub report_answer : Answer → Report
  unfolding renew_transport_failure renew_outcome
  report_answer (no_answer dialled text) = renew_transport_failure dialled text
  report_answer (cut_off dialled text) = renew_transport_failure dialled text
  report_answer (answered code body) = renew_outcome code body

  -- json.Marshal and http.NewRequest; `none` if one of them failed.
  unfoldable pub make_request : Text → Text → Option RenewRequest
  unfolding request_of
  make_request endpoint domain = request_of (wire.encode_domain domain) (wire.query_domain endpoint)

  module _ {S : Type 0} (send : RenewRequest → S → Answer × S) where
    -- What Renew does with its request, if one could be made; `unsent` is the text of the error.
    unfoldable pub send_request : Text → Option RenewRequest → S → Report × S
    unfolding report_answer
    send_request unsent none s = ((renewal_failed ∷ indented unsent ∷ [], exit_failed), s)
    send_request unsent (some r) s = (report_answer (send r s).0, (send r s).1)

    -- Renew, less its `authorize`, which adds the service's credentials.
    unfoldable pub renew : Text → Text → Text → S → Report × S
    unfolding renew_preamble make_request send_request
    renew unsent endpoint domain s =
        let done = send_request unsent (make_request endpoint domain) s in
        ((renew_preamble domain ++ done.0.0, done.0.1), done.1)
