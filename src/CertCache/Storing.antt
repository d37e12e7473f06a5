-- ===== src/CertCache/Storing.antt =====
-- Store of cert_cache.go: what is written, and what is served afterwards.
use go_certs_manager.Base.{
  Bool, Text, ap, arith, false, inl, inr, lookup-insert_self, lookup-remove_self, refl, some, subst,
  suc, sym, to_lower, true, zero, ℕ, ◌+◌, ◌<◌, ◌≡◌,
}
use go_certs_manager.CertCache.{
  CertCache, Stored, build_certificate, built_not_stored, chain_key, confirmed, drop_pending, get,
  is_pending, not_built, persist, persist_attempts, set, store, stored,
}
use go_certs_manager.Effects.{
  Call, Certificate, Content, Prog, Reply, Result, Result-cases, Signer, err, is_ok, ok, on_ok,
  put_object, ret, ◌>>=◌,
}
use go_certs_manager.Effects.Logic.{Safe, Safe-bind}

-- How many writes there have been, and whether the last one went through.
abbrev pub Tries : Type 0
Tries = ℕ × Bool

abbrev pub MayStore : Text → Content → Signer → Tries → Call → Type 0
MayStore slot data' key' g (put_object k c o) =
    (k ≡ slot)
    × (c ≡ data')
    × ((cert : Certificate) × (build_certificate data' key' ≡ ok cert))
    × (g.0 < persist_attempts)
    × (g.1 ≡ false)
MayStore slot data' key' g c = ⊥

abbrev pub note_try : Tries → (c : Call) → Reply c → Tries
note_try g (put_object k c o) r = (g.0 + 1, is_ok r)
note_try g c r = g

-- The outcome in terms of the last write, and what the cache `c` has become.
abbrev pub IsStored : Text → Content → Signer → CertCache → Tries → Stored × CertCache → Type 0
IsStored domain data' key' c g (stored cert, c') =
    (g.1 ≡ true)
    × (build_certificate data' key' ≡ ok cert)
    × (get domain c' ≡ some cert)
    × (is_pending domain c' ≡ false)
IsStored domain data' key' c g (built_not_stored cert, c') =
    (g ≡ (persist_attempts, false)) × (build_certificate data' key' ≡ ok cert) × (c' ≡ c)
IsStored domain data' key' c g (not_built e, c') =
    (g ≡ (0, false)) × (build_certificate data' key' ≡ err e) × (c' ≡ c)

module _ (domain : Text) (data' : Content) (key' : Signer) (c : CertCache) where
  -- All attempts have been made, or the last one went through.
  abbrev pub Persisted : Tries → Result (Unit {0}) → Type 0
  Persisted g (ok done) = g.1 ≡ true
  Persisted g (err e) = g ≡ (persist_attempts, false)

  persist-Safe :
      (n k : ℕ) (cert : Certificate)
      → build_certificate data' key' ≡ ok cert
      → k + suc n ≡ persist_attempts
      → Safe
          (MayStore (chain_key c domain) data' key')
          note_try
          Persisted
          (k, false)
          (persist n c domain data')
  unfolding persist
  persist-Safe zero k cert built left = (
    (refl, refl, (cert, built), omega (arith, left), refl),
    elim [ ok done ↦ refl | err e ↦ ap (λ j. (j, false)) left ],
  )
  persist-Safe (suc n) k cert built left = (
    (refl, refl, (cert, built), omega (arith, left), refl),
    elim [ ok done ↦ refl | err e ↦ persist-Safe n (k + 1) cert built (omega (arith, left)) ],
  )

  served_after :
      (cert : Certificate)
      → (get domain (confirmed domain (drop_pending domain (set domain cert c))) ≡ some cert)
        × (is_pending domain (confirmed domain (drop_pending domain (set domain cert c))) ≡ false)
  unfolding get is_pending confirmed drop_pending set
  served_after cert = (
    lookup-insert_self (to_lower domain) cert c.mem,
    rw (is_pending, lookup-remove_self (to_lower domain) c.pending) refl,
  )

  -- Whatever storage answers, Store writes only the name's chain, only a chain that pairs with the
  -- key, and at most three times, until a write goes through; then the certificate is served and
  -- no chain is held back for the name; if no write goes through, or if the chain does not pair,
  -- what is served stays as it was, and the outcome says which of the two it is.
  pub store-IsStored :
      Safe
        (MayStore (chain_key c domain) data' key')
        note_try
        (IsStored domain data' key' c)
        (0, false)
        (store domain data' key' c)
  unfolding store
  store-IsStored = elim (Result-cases (build_certificate data' key')) [
    | inr (e, broken) ↦
        subst
          (λ q.
            Safe (MayStore (chain_key c domain) data' key') note_try (IsStored domain data' key' c)
              (0, false) (outcome q))
          (sym broken) (refl, broken, refl)
    | inl (cert, built) ↦
        subst
          (λ q.
            Safe (MayStore (chain_key c domain) data' key') note_try (IsStored domain data' key' c)
              (0, false) (outcome q))
          (sym built)
          (Safe-bind (MayStore (chain_key c domain) data' key') note_try Persisted
            (IsStored domain data' key' c) _ (0, false) (persist 2 c domain data')
            (persist-Safe 2 0 cert built refl) (λ g r e. ended g cert built r e))
  ]
    where
      outcome : Result Certificate → Prog (Stored × CertCache)
      outcome q =
          on_ok q (λ e. ret (not_built e, c))
            λ cert. do
              done ← persist 2 c domain data'
              on_ok done (λ e. ret (built_not_stored cert, c))
                  λ u. ret (stored cert, confirmed domain (drop_pending domain (set domain cert c)))

      ended :
          (g : Tries) (cert : Certificate)
          → build_certificate data' key' ≡ ok cert
          → (r : Result (Unit {0})) → Persisted g r
          → Safe
              (MayStore (chain_key c domain) data' key')
              note_try
              (IsStored domain data' key' c)
              g
              (on_ok r
                (λ e. ret (built_not_stored cert, c))
                λ u. ret (stored cert, confirmed domain (drop_pending domain (set domain cert c))))
      ended g cert built (ok done) e = (e, built, (served_after cert).0, (served_after cert).1)
      ended g cert built (err e') e = (e, built, refl)
