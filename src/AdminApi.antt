-- ===== src/AdminApi.antt =====
-- adminapi/renew.go, the service's side: what a renewal answers over HTTP. `Wire` is what
-- encoding/json, package fmt and net/url do with a value of this API. The manager behind the
-- endpoint is any Renewer, which turns the state `S` of the service; a Go error is one of `Error`.
-- Response headers, log lines and the write deadline are left out.
pub mod Client
pub mod Classified
pub mod Spent
use go_certs_manager.Base.{
  Bool, List, Option, Text, [], codes, false, if◌then◌else◌, none, not, some, take, true, ℕ, ◌++◌,
  ◌∷◌,
}
use go_certs_manager.CertCache.{stored}
use go_certs_manager.Effects.{Certificate, Error, certificate, order_not_persisted}

abbrev pub status_success : Text
status_success = codes "success"

abbrev pub status_stored : Text
status_stored = codes "stored"

abbrev pub status_error : Text
status_error = codes "error"

-- Result, the JSON body of a response; an empty field is left out of the JSON.
pub record RenewResult : Type 0 where
  pub status : Text
  pub message : Text
  pub error : Text
  pub renewed : List Text

pub record Wire : Type 0 where
  pub encode_result : RenewResult → Text
  pub decode_result : Text → Option RenewResult
  pub encode_domain : Text → Option Text
  pub decode_domain : Text → Text
  pub query_domain : Text → Option Text
  pub error_text : Error → Text
  pub print_number : ℕ → Text

pub record HttpResponse : Type 0 where
  pub code : ℕ
  pub body : Text

-- What RenewHandler reads of a request; `query` is `?domain=`, empty if absent.
pub record RenewRequest : Type 0 where
  pub is_post : Bool
  pub query : Text
  pub body : Text

-- What RenewCertificate returns.
pub data Attempt : Type 0 where
  issued : List Text → Attempt
  refused : Error → Attempt

-- `errors.Is(err, certmanager.ErrOrderNotPersisted)`
unfoldable pub is_not_persisted : Error → Bool
is_not_persisted order_not_persisted = true
is_not_persisted e = false

-- "—" in UTF-8.
abbrev pub dash : Text
dash = 226 ∷ 128 ∷ 148 ∷ []

abbrev pub error_result : Text → RenewResult
error_result text = record { status = status_error; message = []; error = text; renewed = [] }

-- `io.LimitReader(r.Body, 1024)`
unfoldable pub read_limited : Text → Text
read_limited = take 1024

module _ (wire : Wire) where
  unfoldable pub write_json : ℕ → RenewResult → HttpResponse
  write_json code r = record { code = code; body = wire.encode_result r }

  unfoldable pub write_renew_result : Text → Attempt → HttpResponse
  unfolding write_json is_not_persisted
  write_renew_result domain (issued renewed) = write_json 200 (record {
    status = status_success;
    message =
        codes "Certificate re-issued for "
        ++ domain
        ++ codes " (persistent key reused "
        ++ dash
        ++ codes " SPKI unchanged)";
    error = [];
    renewed = renewed;
  })
  write_renew_result domain (refused e) =
      if is_not_persisted e
      then write_json 202 (record {
        status = status_stored;
        message = [];
        error = wire.error_text e;
        renewed = domain ∷ [];
      })
      else write_json 500 (error_result (wire.error_text e))

  -- The query string first, then the first 1024 bytes of the body.
  unfoldable pub requested_domain : RenewRequest → Text
  unfolding read_limited
  requested_domain r = elim r.query [
    | [] ↦ wire.decode_domain (read_limited r.body)
    | c ∷ s ↦ c ∷ s
  ]

  module _ {S : Type 0} where
    unfoldable pub run_renewal : (Text → S → Attempt × S) → Text → S → HttpResponse × S
    unfolding write_json write_renew_result
    run_renewal renewer [] s =
        (write_json 400 (error_result (codes "domain parameter is required")), s)
    run_renewal renewer (c ∷ domain) s =
        (write_renew_result (c ∷ domain) (renewer (c ∷ domain) s).0, (renewer (c ∷ domain) s).1)

    -- RenewHandler; `renewer` is the outcome of the call `renewer()`, `none` for nil.
    unfoldable pub serve_renewal :
        Option (Text → S → Attempt × S) → RenewRequest → S → HttpResponse × S
    unfolding write_json requested_domain run_renewal
    serve_renewal renewer r s =
        if r.is_post
        then elim renewer [
          | none ↦ (
            write_json 501 (
                error_result (
                  codes "certificate renewal not configured (no Let's Encrypt manager on "
                  ++ codes "this node)")),
            s,
          )
          | some f ↦ run_renewal f (requested_domain r) s
        ]
        else (record { code = 405; body = codes "Method not allowed\n" }, s)
