-- ===== src/Node/Announced.antt =====
-- What recordIssued of scheduler.go announces.
use go_certs_manager.Base.{
  Map, Option, Text, false, insert, lookup, lookup-insert_self, none, refl, some, subst, sym,
  to_lower, ℕ, ◌≡◌,
}
use go_certs_manager.CertCache.{is_pending, leaf_not_after}
use go_certs_manager.Effects.{Call, err, index_json, ok, put_object, ret}
use go_certs_manager.Effects.Logic.{Safe, Safe-if, forget}
use go_certs_manager.Lease.{unix}
use go_certs_manager.Node.{Node, note_issued_on, record_issued}
use go_certs_manager.OnDemand.{OnDemand, cert_index_key, entries}
use go_certs_manager.OnDemand.Index.{note_issued, publish_index, with_entry}

module _ (host : Text) (n : Node) where
  -- An announcement of a hostname: the chain is not held back, and the whole index is written, in
  -- which the hostname's entry is the end of the certificate that is served.
  abbrev pub MayAnnounce : OnDemand → Unit {0} → Call → Type 0
  MayAnnounce o u (put_object k content p) =
      (is_pending host n.manager.cert_cache ≡ false)
      × (k ≡ cert_index_key o)
      × ((t : ℕ) × (index' : Map ℕ) × (leaf_not_after host n.manager.cert_cache ≡ some t)
          × (content ≡ index_json index')
          × (lookup (to_lower host) index' ≡ some (unix t)))
  MayAnnounce o u c = ⊥

  -- recordIssued writes nothing but the index, and nothing at all for a hostname whose chain is
  -- held back or that this node holds no certificate for; the entry written is the end of the
  -- certificate served. The manager's own state is left alone.
  pub record_issued-IsAnnounced :
      (o : OnDemand)
      → n.on_demand ≡ some o
      → Safe (MayAnnounce o) forget (λ u n'. n'.manager ≡ n.manager) tt (record_issued host n)
  unfolding record_issued note_issued_on note_issued publish_index with_entry entries
  record_issued-IsAnnounced o has =
      Safe-if (MayAnnounce o) forget (λ u n'. n'.manager ≡ n.manager) tt (ret n)
        (elim (leaf_not_after host n.manager.cert_cache) [
          | none ↦ ret n
          | some t ↦ note_issued_on host t n n.on_demand
        ])
        (is_pending host n.manager.cert_cache) (λ held. refl)
        (λ free. announced free (leaf_not_after host n.manager.cert_cache) refl)
    where
      noted :
          (t : ℕ)
          → is_pending host n.manager.cert_cache ≡ false
          → leaf_not_after host n.manager.cert_cache ≡ some t
          → Safe
              (MayAnnounce o)
              forget
              (λ u n'. n'.manager ≡ n.manager)
              tt
              (note_issued_on host t n (some o))
      noted t free e =
          let index' = insert (to_lower host) (unix t) (entries o.index) in
          (
            (
              free,
              refl,
              (t, index', e, refl, lookup-insert_self (to_lower host) (unix t) (entries o.index)),
            ),
            elim [ ok x ↦ refl | err e' ↦ refl ],
          )

      announced :
          is_pending host n.manager.cert_cache ≡ false
          → (found : Option ℕ) → leaf_not_after host n.manager.cert_cache ≡ found
          → Safe
              (MayAnnounce o)
              forget
              (λ u n'. n'.manager ≡ n.manager)
              tt
              (elim found [ none ↦ ret n | some t ↦ note_issued_on host t n n.on_demand ])
      announced free none e = refl
      announced free (some t) e =
          subst
            (λ q.
              Safe (MayAnnounce o) forget (λ u n'. n'.manager ≡ n.manager) tt
                (note_issued_on host t n q))
            (sym has) (noted t free e)
