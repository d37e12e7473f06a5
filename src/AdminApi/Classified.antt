-- ===== src/AdminApi/Classified.antt =====
-- adminapi/renew.go: what the client makes of the answers of WriteRenewResult.
use go_certs_manager.Base.{
  Bool-cases, Text, ap, arith, false, if◌then◌else◌, inl, inr, refl, some, text_dec, ℕ, ℕ_discrete,
  ◌==◌, ◌||◌, ◌≡◌, ◌≢◌,
}
use go_certs_manager.AdminApi.{
  Attempt, RenewResult, Wire, error_result, is_not_persisted, issued, refused, write_json,
  write_renew_result,
}
use go_certs_manager.AdminApi.Client.{
  exit_failed, exit_ok, exit_stored, renew_outcome, report_error, report_result, report_stored,
  report_success,
}
use go_certs_manager.Effects.{Error, order_not_persisted}

-- The exit code that an attempt deserves.
unfoldable pub exit_of : Attempt → ℕ
exit_of (issued renewed) = exit_ok
exit_of (refused order_not_persisted) = exit_stored
exit_of (refused e) = exit_failed

pub exit_of_refused :
    (e : Error) → exit_of (refused e) ≡ (if is_not_persisted e then exit_stored else exit_failed)
unfolding exit_of is_not_persisted
exit_of_refused order_not_persisted = refl
exit_of_refused e = refl

-- What is not classed as spent is another error.
pub is_not_persisted_lem : (e : Error) → is_not_persisted e ≡ false → e ≢ order_not_persisted
unfolding is_not_persisted
is_not_persisted_lem e plain spent = absurd (ground (arith, ap is_not_persisted spent))

-- encoding/json: what one side encodes is what the other side decodes.
abbrev pub RoundTrips : Wire → Type 0
RoundTrips wire = (r : RenewResult) → wire.decode_result (wire.encode_result r) ≡ some r

module _ (wire : Wire) (round : RoundTrips wire) where
  -- A renewal that failed exits as a failure.
  pub outcome_of_error :
      (code : ℕ) (text : Text)
      → ((code == 404) || (code == 501)) ≡ false
      → (renew_outcome wire code (wire.encode_result (error_result text))).1 ≡ exit_failed
  unfolding renew_outcome report_result report_error text_dec ℕ_discrete
  outcome_of_error code text other = rw (other, round (error_result text))

  -- Over the wire the client exits with 0 for a renewal that was stored, with 2 for one whose order
  -- is spent but not stored, and with 1 for any other failure, if what one side encodes is what the
  -- other decodes.
  pub renew_outcome-write_renew_result :
      (domain : Text) (a : Attempt)
      → (renew_outcome wire
          (write_renew_result wire domain a).code
          (write_renew_result wire domain a).body).1
        ≡ exit_of a
  unfolding write_renew_result write_json renew_outcome report_result report_error report_success
      report_stored exit_of text_dec ℕ_discrete
  renew_outcome-write_renew_result domain (issued renewed) = rw (round _)
  renew_outcome-write_renew_result domain (refused e) = elim (Bool-cases (is_not_persisted e)) [
    | inl y ↦ rw (exit_of_refused e, y, round _)
    | inr n ↦ rw (exit_of_refused e, n, round _)
  ]
