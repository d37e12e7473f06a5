-- ===== src/CertCache/Reads.antt =====
-- Refresh of cert_cache.go only reads.
use go_certs_manager.Base.{Text, inl, inr, lookup-insert_self, refl, some, to_lower, ◌≡◌}
use go_certs_manager.CertCache.{
  CertCache, build_certificate, confirmed, get, load_chain, loaded_chain, refresh, set,
}
use go_certs_manager.Effects.{Call, Certificate, Result, Result-cases, err, get_object, ok}
use go_certs_manager.Effects.Logic.{Anything, Safe, Safe-mono, forget}
use go_certs_manager.KeyStore.{KeyStore, load, load_cert_key, loaded}

abbrev pub IsRead : Unit {0} → Call → Type 0
IsRead u (get_object k) = Unit {0}
IsRead u c = ⊥

-- A refresh that succeeds has its certificate served; one that fails changes nothing.
abbrev pub Adopts : Text → CertCache → Unit {0} → Result Certificate × CertCache → Type 0
Adopts domain c u (ok cert, c') = (get domain c' ≡ some cert) × (c'.pending ≡ c.pending)
Adopts domain c u (err e, c') = c' ≡ c

pub refresh-Adopts :
    (k : KeyStore) (domain : Text) (c : CertCache)
    → Safe IsRead forget (Adopts domain c) tt (refresh k domain c)
unfolding refresh load_chain load_cert_key load get set confirmed
refresh-Adopts k domain c = (
  tt,
  λ r. elim (Result-cases (loaded_chain r)) [
    | inr (e, failed) ↦ rw failed refl
    | inl (d, was_read) ↦ rw was_read (
      tt,
      λ r'. elim (Result-cases (loaded r')) [
        | inr (e, failed) ↦ rw failed refl
        | inl (s, parsed) ↦ rw parsed (elim (Result-cases (build_certificate d s)) [
          | inr (e, failed) ↦ rw failed refl
          | inl (cert, built) ↦ rw built (lookup-insert_self (to_lower domain) cert c.mem, refl)
        ])
      ],
    )
  ],
)

pub refresh-IsRead :
    (k : KeyStore) (domain : Text) (c : CertCache)
    → Safe IsRead forget Anything tt (refresh k domain c)
refresh-IsRead k domain c =
    Safe-mono IsRead forget (Adopts domain c) Anything tt (refresh k domain c)
      (refresh-Adopts k domain c) (λ u x a. tt)
