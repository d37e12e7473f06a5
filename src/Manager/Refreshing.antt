-- ===== src/Manager/Refreshing.antt =====
-- What a refresh (cert_cache.go) lets an attempt of manager.go conclude.
use go_certs_manager.Layout
use go_certs_manager.Base.{
  Bool, Text, ap, arith, inl, inr, lookup-insert_self, none, refl, some, to_lower, ◌≡◌,
}
use go_certs_manager.CertCache.{
  CertCache, absent_from_storage, build_certificate, chain_key, confirmed, get, leaf_not_after,
  load_chain, loaded_chain, refresh, set,
}
use go_certs_manager.CertCache.Build.{build-absent}
use go_certs_manager.Effects.{
  Certificate, Content, Result, Result-cases, Signer, err, key_pem, not_exist, ok, on_ok, ret,
  ◌>>=◌,
}
use go_certs_manager.KeyStore.{
  KeyStore, cert_key_name, load, load_cert_key, loaded, parse_key_pem, read_failure,
}
use go_certs_manager.Manager.{Manager}
use go_certs_manager.Manager.Readiness.{Ordering, learn_get-chain, learn_get-key}
use go_certs_manager.Manager.Recheck.{IsCleared, Refreshed}
use go_certs_manager.Manager.Seen.{IsDue, Seen}

module _ (prefix domain : Text) (force : Bool) (m : Manager) where
  held_after :
      (cert : Certificate) (c : CertCache)
      → leaf_not_after domain (confirmed domain (set domain cert c)) ≡ some cert.leaf.not_after
  unfolding leaf_not_after get confirmed set
  held_after cert c = rw (leaf_not_after, get, lookup-insert_self (to_lower domain) cert c.mem) refl

  Refreshed-built :
      (g : Seen) (d k : Content) (s : Signer) (c : CertCache)
      → c.prefix ≡ prefix
      → g.chain ≡ some (ok d)
      → g.key ≡ some (ok k)
      → g.looked ≡ none
      → parse_key_pem k ≡ ok s
      → IsCleared prefix domain force m g
      → Ordering prefix domain force m {A = Result Certificate × CertCache}
          (λ h r. IsCleared prefix domain force m h × Refreshed prefix domain force m h r)
          g
          (on_ok
            (build_certificate d s)
            (λ e. ret (err e, c))
            λ cert. ret (ok cert, confirmed domain (set domain cert c)))
  unfolding confirmed set
  Refreshed-built g d k s c wired e1 e2 e3 parsed cleared =
      elim (Result-cases (build_certificate d s)) [
        | inl (cert, built) ↦ rw built (
          cleared,
          (
            wired,
            held_after cert c,
            λ now late. rw (e1, e2, e3, IsDue) (cert, s, parsed, built, late),
          ),
        )
        | inr (e, failed') ↦ rw failed' (
          cleared,
          (wired, λ absent. absurd (ground (arith, absent, build-absent d s e failed'))),
        )
      ]

  refresh_keyed :
      (g : Seen) (d : Content) (r : Result Content) (c : CertCache)
      → c.prefix ≡ prefix
      → g.chain ≡ some (ok d)
      → g.key ≡ some r
      → g.looked ≡ none
      → IsCleared prefix domain force m g
      → Ordering prefix domain force m {A = Result Certificate × CertCache}
          (λ h r. IsCleared prefix domain force m h × Refreshed prefix domain force m h r)
          g
          (on_ok
            (loaded r)
            (λ e. ret (err e, c))
            λ signer.
              on_ok
                (build_certificate d signer)
                (λ e. ret (err e, c))
                λ cert. ret (ok cert, confirmed domain (set domain cert c)))
  unfolding loaded parse_key_pem read_failure absent_from_storage
  refresh_keyed g d (ok (key_pem s)) c wired e1 e2 e3 cleared =
      Refreshed-built g d (key_pem s) s c wired e1 e2 e3 refl cleared
  refresh_keyed g d (ok _) c wired e1 e2 e3 cleared =
      (cleared, (wired, λ absent. absurd (ground (arith, absent))))
  refresh_keyed g d (err not_exist) c wired e1 e2 e3 cleared =
      (cleared, (wired, λ absent. rw (e1, e2, IsDue) tt))
  refresh_keyed g d (err _) c wired e1 e2 e3 cleared =
      (cleared, (wired, λ absent. absurd (ground (arith, absent))))

  refresh_got :
      (g : Seen) (k : KeyStore) (c : CertCache) (r : Result Content)
      → k.prefix ≡ prefix
      → c.prefix ≡ prefix
      → g.chain ≡ some r
      → g.looked ≡ none
      → IsCleared prefix domain force m g
      → Ordering prefix domain force m {A = Result Certificate × CertCache}
          (λ h r. IsCleared prefix domain force m h × Refreshed prefix domain force m h r)
          g
          (on_ok
            (loaded_chain r)
            (λ e. ret (err e, c))
            λ data'. do
              key' ← load_cert_key k domain
              on_ok key'
                  (λ e. ret (err e, c))
                  λ signer.
                    on_ok
                      (build_certificate data' signer)
                      (λ e. ret (err e, c))
                      λ cert. ret (ok cert, confirmed domain (set domain cert c)))
  unfolding loaded_chain load_cert_key load cert_key_name read_failure absent_from_storage
  refresh_got g k c (ok d) wired_keys wired e1 e3 cleared = (
    tt,
    λ r.
        rw
          (learn_get-key prefix domain g (Layout.key k.prefix domain) r
            (ap (λ p. Layout.key p domain) wired_keys))
          (refresh_keyed (record g { key = some r }) d r c wired e1 refl e3 cleared),
  )
  refresh_got g k c (err not_exist) wired_keys wired e1 e3 cleared =
      (cleared, (wired, λ absent. rw (e1, IsDue) tt))
  refresh_got g k c (err _) wired_keys wired e1 e3 cleared =
      (cleared, (wired, λ absent. absurd (ground (arith, absent))))

  pub refresh-Ordering :
      (g : Seen) (k : KeyStore) (c : CertCache)
      → k.prefix ≡ prefix
      → c.prefix ≡ prefix
      → IsCleared prefix domain force m g
      → Ordering prefix domain force m {A = Result Certificate × CertCache}
          (λ h r. IsCleared prefix domain force m h × Refreshed prefix domain force m h r)
          g
          (refresh k domain c)
  unfolding refresh load_chain load_cert_key load chain_key cert_key_name
  refresh-Ordering g k c wired_keys wired cleared = (
    tt,
    λ r.
        rw
          (learn_get-chain prefix domain g (Layout.chain c.prefix domain) r
            (ap (λ p. Layout.chain p domain) wired))
          (refresh_got (record g { chain = some r; key = none; looked = none }) k c r wired_keys
            wired refl refl cleared),
  )
