-- ===== src/Node/Restorable.antt =====
-- Which chains restoreMissingChains of scheduler.go writes back.
use go_certs_manager.Base.{
  Bool-cases, Map, Option, Text, arith, false, has_key, inl, inr, ltb, none, refl, some, true, ℕ,
  ◌||◌, ◌≡◌,
}
use go_certs_manager.CertCache.{PendingPersist, build_certificate, get, is_pending}
use go_certs_manager.Effects.{
  Call, Certificate, Content, Reply, Result, Signer, err, get_object, is_ok, ok, pem_chain, ret,
  time_now, ◌>>=◌,
}
use go_certs_manager.Effects.Logic.{Safe, Safe-if}
use go_certs_manager.KeyStore.{cert_key_name, load, load_cert_key, loaded}
use go_certs_manager.Node.{Node}
use go_certs_manager.Node.Restore.{copy_to_restore, encode_chain_pem, paired_copy, served_copy}

-- The last reading of the clock, and the last answer of storage.
pub record Known : Type 0 where
  pub time : Option ℕ
  pub body : Option (Result Content)

abbrev pub not_known : Known
not_known = record { time = none; body = none }

abbrev pub note_known : Known → (c : Call) → Reply c → Known
note_known g time_now t = record g { time = some t }
note_known g (get_object k) r = record g { body = some r }
note_known g c r = g

module _ (stored' : Map (Unit {0})) (domain : Text) (n : Node) where
  -- What is read is the stored key.
  abbrev pub MayRestore : Known → Call → Type 0
  MayRestore g time_now = Unit {0}
  MayRestore g (get_object k) = k ≡ cert_key_name n.manager.key_store domain
  MayRestore g c = ⊥

  -- A chain to write back: storage has none for the name, nothing is held back for it, and it is
  -- the chain of the certificate served, which has not ended and pairs with the stored key.
  abbrev pub IsRestorable : Known → Option PendingPersist → Type 0
  IsRestorable g none = Unit {0}
  IsRestorable g (some p) =
      (has_key domain stored' ≡ false)
      × (is_pending domain n.manager.cert_cache ≡ false)
      × ((cert : Certificate) × (t : ℕ) × (r : Result Content) × (signer : Signer) × (get domain
              n.manager.cert_cache
            ≡ some cert)
          × (p ≡ record { chain_pem = pem_chain cert.chain; not_after = cert.leaf.not_after })
          × (g.time ≡ some t)
          × (ltb t cert.leaf.not_after ≡ true)
          × (g.body ≡ some r)
          × (loaded r ≡ ok signer)
          × (is_ok (build_certificate (pem_chain cert.chain) signer) ≡ true))

  copied :
      (cert : Certificate) (t : ℕ) (r : Result Content) (key' : Result Signer)
      → has_key domain stored' ≡ false
      → is_pending domain n.manager.cert_cache ≡ false
      → get domain n.manager.cert_cache ≡ some cert
      → ltb t cert.leaf.not_after ≡ true
      → loaded r ≡ key'
      → IsRestorable (record { time = some t; body = some r }) (paired_copy cert key')
  unfolding paired_copy encode_chain_pem
  copied cert t r (err e) lost free has live is_key = tt
  copied cert t r (ok signer) lost free has live is_key =
      elim (Bool-cases (is_ok (build_certificate (pem_chain cert.chain) signer))) [
        | inl paired ↦
            rw paired
              (lost, free, (cert, t, r, signer, has, refl, refl, live, refl, is_key, paired))
        | inr other ↦ rw other tt
      ]

  -- The guards before a chain is written back read the clock and the stored key and nothing else,
  -- and a chain that they let through is: of a name that storage does not
  -- list, not held back, served, not ended at the time that was read, and paired with the key that
  -- storage answered with.
  pub copy_to_restore-IsRestorable :
      Safe MayRestore note_known IsRestorable not_known (copy_to_restore stored' domain n)
  unfolding copy_to_restore served_copy load_cert_key load
  copy_to_restore-IsRestorable =
      Safe-if MayRestore note_known IsRestorable not_known (ret none)
        (served_copy domain (get domain n.manager.cert_cache) n)
        (has_key domain stored' || is_pending domain n.manager.cert_cache) (λ skip. tt)
        (λ lost. served lost (get domain n.manager.cert_cache) refl)
    where
      served :
          (has_key domain stored' || is_pending domain n.manager.cert_cache) ≡ false
          → (found : Option Certificate) → get domain n.manager.cert_cache ≡ found
          → Safe MayRestore note_known IsRestorable not_known (served_copy domain found n)
      served lost none has = tt
      served lost (some cert) has = (
        tt,
        λ t.
            Safe-if MayRestore note_known IsRestorable (record not_known { time = some t })
              (do key' ← load_cert_key n.manager.key_store domain; ret (paired_copy cert key'))
              (ret none) (ltb t cert.leaf.not_after)
              (λ live. (
                refl,
                λ r.
                    copied cert t r (loaded r) (ground (arith, lost)) (ground (arith, lost)) has
                      live refl,
              ))
              (λ late. tt),
      )
