-- ===== src/Manager/Schedule.antt =====
-- The maintenance of one name: renewIfNeeded, flushOne, reconcileCeremony and maintainCompanion of
-- scheduler.go, obtain and RenewCertificate of manager.go. Each is one goroutine's pass: what
-- another goroutine of the process does to the same state between two calls is not modelled.
use go_certs_manager.Base.{
  Bool, List, Map, Option, Text, [], false, if◌then◌else◌, leb, none, some, to_lower, true, ℕ, ◌∷◌,
}
use go_certs_manager.Budget.{reset}
use go_certs_manager.CertCache.{
  PendingPersist, absent_from_storage, confirmed, drop_pending, get, leaf_not_after, persist,
  refresh, stored_not_after,
}
use go_certs_manager.Dane.Controller.{gate_issuance}
use go_certs_manager.Effects.{
  Certificate, Prog, Result, Signer, do_call, err, key_mismatch, lock, not_configured, not_exist,
  not_leader, ok, on_ok, order_not_persisted, ret, storage_unavailable, time_now, try_lock, unlock,
  unparseable, ◌>>=◌,
}
use go_certs_manager.KeyStore.{load_or_create_cert_key}
use go_certs_manager.Layout.{companion}
use go_certs_manager.Lease.{Release}
use go_certs_manager.Manager.{
  Issued, Manager, acquire_issue_lease, failed, in_domain_set, is_fresh, is_leader, issue_with_key,
  issued, not_persisted, release_issue_lease,
}

module _ (normalise : Text → Text) where
  unfoldable pub issue_outcome : Issued × Manager → Result (Unit {0}) × Manager
  issue_outcome (issued cert, m) = (ok tt, m)
  issue_outcome (not_persisted cert, m) = (err order_not_persisted, m)
  issue_outcome (failed e, m) = (err e, m)

  -- From the won mutex on: the second look at memory, the DANE gate, the key, the order.
  unfoldable pub renew_key : Text → Manager → Result Signer → Prog (Result (Unit {0}) × Manager)
  unfolding issue_with_key issue_outcome
  renew_key domain m (err e) = ret (err e, m)
  renew_key domain m (ok signer) = do
    result ← issue_with_key domain signer false m
    ret (issue_outcome result)

  unfoldable pub renew_gated : Text → Manager → Prog (Result (Unit {0}) × Manager)
  unfolding renew_key
  renew_gated domain m = do
    gated ← gate_issuance normalise m.dane domain
    on_ok gated (λ e. ret (err e, m))
        λ _. do signer ← load_or_create_cert_key m.key_store domain; renew_key domain m signer

  unfoldable pub renew_locked : Text → Manager → Prog (Result (Unit {0}) × Manager)
  unfolding renew_gated
  renew_locked domain m = do
    now ← do_call time_now
    if is_fresh now domain m then ret (ok tt, m) else renew_gated domain m

  unfoldable pub renew_due : Text → Manager → Prog (Result (Unit {0}) × Manager)
  unfolding renew_locked
  renew_due domain m = do
    now ← do_call time_now
    if is_fresh now domain m then ret (ok tt, m) else (do
      free ← do_call (try_lock (to_lower domain))
      if free
          then (do
            result ← renew_locked domain m
            _ ← do_call (unlock (to_lower domain))
            ret result)
          else ret (ok tt, m))

  -- With no certificate in memory storage decides, and only a definite "none" may lead on.
  unfoldable pub renew_absent :
      Text → Manager → Result Certificate → Prog (Result (Unit {0}) × Manager)
  unfolding renew_due
  renew_absent domain m (ok cert) = renew_due domain m
  renew_absent domain m (err e) =
      if absent_from_storage e
      then renew_due domain m
      else ret (elim e [ key_mismatch ↦ err key_mismatch | _ ↦ err storage_unavailable ], m)

  -- renewIfNeeded
  unfoldable pub renew_if_needed : Text → Manager → Prog (Result (Unit {0}) × Manager)
  unfolding renew_absent
  renew_if_needed domain m = elim (leaf_not_after domain m.cert_cache) [
    | some t ↦ renew_due domain m
    | none ↦ do
      (found, c) ← refresh m.key_store domain m.cert_cache
      renew_absent domain (record m { cert_cache = c }) found
  ]

  -- maintainCompanion
  unfoldable pub maintain_companion : Bool → Text → Manager → Prog Manager
  unfolding renew_if_needed
  maintain_companion leader domain m =
      if leader
      then (do
        now ← do_call time_now
        if is_fresh now domain m
            then (do (result, m') ← renew_if_needed (companion domain) m; ret m')
            else ret m)
      else (do
        (found, c) ← refresh m.key_store (companion domain) m.cert_cache
        ret (record m { cert_cache = c }))

  -- obtain: what a handshake's miss leads to.
  unfoldable pub obtain_missing : Text → Manager → Prog (Issued × Manager)
  unfolding issue_with_key
  obtain_missing domain m = do
    gated ← gate_issuance normalise m.dane domain
    on_ok gated (λ e. ret (failed e, m))
        λ _. do
          key' ← load_or_create_cert_key m.key_store domain
          on_ok key' (λ e. ret (failed e, m)) λ signer. issue_with_key domain signer false m

  unfoldable pub obtain : Text → Manager → Prog (Issued × Manager)
  unfolding obtain_missing
  obtain name m = do
    let domain = to_lower name
    _ ← do_call (lock domain)
    result ← elim (get domain m.cert_cache) [
      | some cert ↦ ret (issued cert, m)
      | none ↦ obtain_missing domain m
    ]
    _ ← do_call (unlock domain)
    ret result

  -- RenewCertificate: always a new order, and the DANE gate only warns.
  unfoldable pub renew_forced : Text → Manager → Prog (Result (Unit {0}) × Manager)
  unfolding issue_with_key issue_outcome
  renew_forced domain m = do
    gated ← gate_issuance normalise m.dane domain
    key' ← load_or_create_cert_key m.key_store domain
    on_ok key' (λ e. ret (err e, m))
        λ signer. do result ← issue_with_key domain signer true m; ret (issue_outcome result)

  unfoldable pub renew_certificate : Text → Manager → Prog (Result (Unit {0}) × Manager)
  unfolding renew_forced
  renew_certificate name m = do
    leader ← is_leader m
    if leader
        then (if in_domain_set m (normalise name)
            then (do
              _ ← do_call (lock (normalise name))
              result ← renew_forced (normalise name) m
              _ ← do_call (unlock (normalise name))
              ret result)
            else ret (err not_configured, m))
        else ret (err not_leader, m)

-- Whether flushOne writes over what storage answered.
pub data Plan : Type 0 where
  write adopt leave : Plan

-- The switch of flushOne: storage at least as new is adopted; behind, absent or worthless storage
-- is written; a read that failed decides nothing.
unfoldable pub plan : ℕ → Result ℕ → Plan
plan ours (ok theirs) = if leb ours theirs then adopt else write
plan ours (err not_exist) = write
plan ours (err unparseable) = write
plan ours (err e) = leave

unfoldable pub flush_planned : Plan → Text → PendingPersist → Manager → Prog (Bool × Manager)
flush_planned leave domain p m = ret (false, m)
flush_planned adopt domain p m = do
  (found, c) ← refresh m.key_store domain m.cert_cache
  on_ok found (λ e. ret (false, record m { cert_cache = c }))
      λ cert. ret (false, record m { cert_cache = drop_pending domain c })
flush_planned write domain p m = do
  put ← persist 0 m.cert_cache domain p.chain_pem
  on_ok put (λ e. ret (false, m))
      λ _. ret (
        true,
        record m {
          cert_cache = elim (get domain m.cert_cache) [
            | none ↦ drop_pending domain m.cert_cache
            | some cert ↦ confirmed domain (drop_pending domain m.cert_cache)
          ];
        },
      )

unfoldable pub flush_leased : Text → PendingPersist → Manager → Prog (Bool × Manager)
unfolding plan flush_planned
flush_leased domain p m = do
  theirs ← stored_not_after m.cert_cache domain
  flush_planned (plan p.not_after theirs) domain p m

unfoldable pub flush_locked :
    Text → PendingPersist → Manager → Option Release → Prog (Bool × Manager)
unfolding flush_leased
flush_locked domain p m none = ret (false, m)
flush_locked domain p m (some r) = do
  result ← flush_leased domain p m
  _ ← release_issue_lease m r
  ret result

-- flushOne
unfoldable pub flush_one : Text → PendingPersist → Manager → Prog (Bool × Manager)
unfolding flush_locked
flush_one domain p m = do
  free ← do_call (try_lock domain)
  if free
      then (do
        lease ← acquire_issue_lease m domain
        result ← flush_locked domain p m lease
        _ ← do_call (unlock domain)
        ret result)
      else ret (false, m)

-- flushHeldChains, over the snapshot of what is held, with the names that were stored.
unfoldable pub flush_from : Map PendingPersist → Manager → Prog (List Text × Manager)
unfolding flush_one
flush_from [] m = ret ([], m)
flush_from ((domain, p) ∷ held) m = do
  (wrote, m1) ← flush_one domain p m
  let m2 = if wrote then record m1 { retries = reset domain m1.retries } else m1
  (rest, m3) ← flush_from held m2
  ret (if wrote then domain ∷ rest else rest, m3)

unfoldable pub flush_held_chains : Manager → Prog (List Text × Manager)
unfolding flush_from
flush_held_chains m = flush_from m.cert_cache.pending m
