-- ===== src/Manager/Ceremony.antt =====
-- The key-replacement ceremony of scheduler.go: ReplaceCertificateKey stages a key,
-- ActivateCertificateKey orders for it and promotes it, and reconcileCeremony completes a ceremony
-- that was cut short after its chain was stored.
use go_certs_manager.Base.{
  Bool, List, Option, Text, [], if◌then◌else◌, none, not, some, text_eq, ◌&&◌, ◌∷◌,
}
use go_certs_manager.CertCache.{
  CertCache, Stored, built_not_stored, held_chain_for, hold, not_built, refresh, store, stored,
  stored_leaf_spki,
}
use go_certs_manager.Dane.{TlsaRecord, contains_spki_digest, new_spki_record}
use go_certs_manager.Dane.Controller.{is_mx, mark_retiring, records_for_host}
use go_certs_manager.Effects.{
  Content, Prog, Result, Signer, do_call, err, lease_held, lock, lookup_failed, lookup_tlsa,
  lost_leadership, not_configured, not_leader, not_published, ok, on_ok, order_not_persisted, ret,
  unlock, ◌>>=◌,
}
use go_certs_manager.Issuer.{issue}
use go_certs_manager.KeyStore.{
  generate_next_cert_key, load_cert_key, load_next_cert_key, promote_next_cert_key,
}
use go_certs_manager.Lease.{Release}
use go_certs_manager.Manager.{
  Manager, acquire_issue_lease, ensure_issuer, in_domain_set, is_leader, release_issue_lease,
}

module _ (normalise : Text → Text) where
  -- `m.dane != nil && m.dane.isMX(domain)`, and then the retiring digest is recorded.
  unfoldable pub mark_outgoing : Manager → Text → Prog (Result (Unit {0}))
  mark_outgoing m domain = elim m.dane [
    | none ↦ ret (ok tt)
    | some d ↦ if is_mx normalise d domain then mark_retiring d domain else ret (ok tt)
  ]

  -- The tail of reconcileCeremony, once the stored leaf is for the staged key and not the live one.
  unfoldable pub roll_forward : Text → Manager → Prog Manager
  unfolding mark_outgoing
  roll_forward domain m = do
    marked ← mark_outgoing m domain
    on_ok marked (λ e. ret m)
        λ _. do
          promoted ← promote_next_cert_key m.key_store domain
          on_ok promoted (λ e. ret m)
              λ _. do
                (found, c) ← refresh m.key_store domain m.cert_cache
                ret (record m { cert_cache = c })

  unfoldable pub reconcile_keys : Text → Signer → Text → Manager → Prog Manager
  unfolding roll_forward
  reconcile_keys domain next leaf_spki m = do
    live ← load_cert_key m.key_store domain
    on_ok live (λ e. ret m)
        λ key'.
          if text_eq leaf_spki next.spki && not (text_eq key'.spki next.spki)
          then roll_forward domain m
          else ret m

  -- reconcileCeremony
  unfoldable pub reconcile_ceremony : Text → Manager → Prog Manager
  unfolding reconcile_keys
  reconcile_ceremony domain m = do
    next ← load_next_cert_key m.key_store domain
    on_ok next (λ e. ret m)
        λ staged. do
          stored_spki ← stored_leaf_spki m.cert_cache domain
          on_ok stored_spki (λ e. ret m) λ spki. reconcile_keys domain staged spki m

  -- ReplaceCertificateKey, from the staged key on.
  unfoldable pub records_to_publish : Manager → Text → Prog (Result (List TlsaRecord))
  records_to_publish m domain = elim m.dane [
    | some d ↦ records_for_host d domain
    | none ↦ do
      next ← load_next_cert_key m.key_store domain
      ret (on_ok next (λ e. err e) λ s. ok (new_spki_record domain s.spki 3600 ∷ []))
  ]

  unfoldable pub replace_certificate_key : Text → Manager → Prog (Result (List TlsaRecord))
  unfolding records_to_publish
  replace_certificate_key name m = do
    leader ← is_leader m
    if leader
        then (if in_domain_set m (normalise name)
            then (do
              staged ← generate_next_cert_key m.key_store (normalise name)
              on_ok staged (λ e. ret (err e)) λ _. records_to_publish m (normalise name))
            else ret (err not_configured))
        else ret (err not_leader)

  -- The activation gate: DNS must show the staged key's record, unless the operator forces it.
  unfoldable pub gate_activation : Manager → Text → Signer → Bool → Prog (Result (Unit {0}))
  gate_activation m domain next force = elim m.dane [
    | none ↦ ret (ok tt)
    | some d ↦
        if is_mx normalise d domain && d.has_lookup
        then (do
          published ← do_call (lookup_tlsa domain)
          ret (
              if force
              then ok tt
              else (on_ok published (λ e. err lookup_failed)
                  λ r. if contains_spki_digest next.spki r then ok tt else err not_published)))
        else ret (ok tt)
  ]

  -- The chain to activate: one that an earlier attempt ordered for this key, or a new one.
  unfoldable pub chain_for : Text → Signer → Manager → Prog (Result Content × Manager)
  chain_for domain next m = elim (held_chain_for domain next m.cert_cache) [
    | some (data', cert) ↦ ret (ok data', m)
    | none ↦ do
      (ready, m1) ← ensure_issuer m
      on_ok ready (λ e. ret (err e, m1))
          λ registered. do
            (got, now_registered) ← issue m1.cert_cache.prefix registered domain next
            ret (got, record m1 { issuer = some now_registered })
  ]

  -- After the chain is stored: the outgoing digest is recorded, leadership is checked once more,
  -- and only then is the staged key promoted.
  unfoldable pub promote_stored : Text → Manager → Prog (Result (Unit {0}))
  unfolding mark_outgoing
  promote_stored domain m = do
    marked ← mark_outgoing m domain
    on_ok marked (λ e. ret (err e))
        λ _. do
          leader ← is_leader m
          if leader then promote_next_cert_key m.key_store domain else ret (err lost_leadership)

  unfoldable pub activate_stored :
      Text → Content → Manager → Stored × CertCache → Prog (Result (Unit {0}) × Manager)
  unfolding promote_stored
  activate_stored domain data' m (not_built e, c) = ret (err e, record m { cert_cache = c })
  activate_stored domain data' m (built_not_stored cert, c) =
      ret (err order_not_persisted, record m { cert_cache = hold domain cert data' c })
  activate_stored domain data' m (stored cert, c) = do
    promoted ← promote_stored domain m
    ret (promoted, record m { cert_cache = c })

  unfoldable pub activate_chain :
      Text → Signer → Result Content × Manager → Prog (Result (Unit {0}) × Manager)
  unfolding activate_stored
  activate_chain domain next (err e, m) = ret (err e, m)
  activate_chain domain next (ok data', m) = do
    kept ← store domain data' next m.cert_cache
    activate_stored domain data' m kept

  unfoldable pub activate_leased : Text → Bool → Manager → Prog (Result (Unit {0}) × Manager)
  unfolding gate_activation chain_for activate_chain
  activate_leased domain force m = do
    staged ← load_next_cert_key m.key_store domain
    on_ok staged (λ e. ret (err e, m))
        λ next. do
          gated ← gate_activation m domain next force
          on_ok gated (λ e. ret (err e, m))
              λ _. do got ← chain_for domain next m; activate_chain domain next got

  unfoldable pub activate_locked :
      Text → Bool → Manager → Option Release → Prog (Result (Unit {0}) × Manager)
  unfolding activate_leased
  activate_locked domain force m none = ret (err lease_held, m)
  activate_locked domain force m (some r) = do
    result ← activate_leased domain force m
    _ ← release_issue_lease m r
    ret result

  -- ActivateCertificateKey
  unfoldable pub activate_certificate_key :
      Text → Bool → Manager → Prog (Result (Unit {0}) × Manager)
  unfolding activate_locked
  activate_certificate_key name force m = do
    leader ← is_leader m
    if leader
        then (if in_domain_set m (normalise name)
            then (do
              _ ← do_call (lock (normalise name))
              lease ← acquire_issue_lease m (normalise name)
              result ← activate_locked (normalise name) force m lease
              _ ← do_call (unlock (normalise name))
              ret result)
            else ret (err not_configured, m))
        else ret (err not_leader, m)
