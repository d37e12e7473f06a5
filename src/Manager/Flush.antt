-- ===== src/Manager/Flush.antt =====
-- When flushOne (scheduler.go) writes a chain that was issued but not stored.
use go_certs_manager.Base.{
  Bool, Bool-cases, Option, Text, ap, arith, false, if◌then◌else◌, inl, inr, none, refl, some,
  subst, suc, sym, text_eq, text_eq_refl, true, zero, ℕ, ◌<◌, ◌≡◌, ◌⊎◌,
}
use go_certs_manager.CertCache.{
  CertCache, PendingPersist, chain_key, confirmed, drop_pending, get, leaf_not_after_pem,
  load_chain, loaded_chain, persist, refresh, stored_not_after,
}
use go_certs_manager.CertCache.Reads.{IsRead, refresh-IsRead}
use go_certs_manager.Effects.{
  Call, Certificate, Content, Error, Reply, Result, Result-cases, err, get_object, is_ok, not_exist,
  ok, on_ok, overwrite, put_object, remove_object, ret, unparseable,
}
use go_certs_manager.Effects.Logic.{Anything, Safe, Safe-along, Safe-bind, forget}
use go_certs_manager.KeyStore.{read_failure}
use go_certs_manager.Manager.{Manager}
use go_certs_manager.Manager.Schedule.{Plan, adopt, flush_leased, flush_planned, leave, plan, write}

-- What a flush has learnt: what storage answered about the chain, and whether a write of it has
-- gone through.
abbrev pub Flushing : Type 0
Flushing = Option (Result Content) × Bool

-- Storage has answered that there is no chain, with one that does not parse, or with one that ends
-- before the held one does.
abbrev pub IsBehind : ℕ → Option (Result Content) → Type 0
IsBehind ours (some (err not_exist)) = Unit {0}
IsBehind ours (some (ok d)) =
    ((e : Error) × (leaf_not_after_pem d ≡ err e))
    ⊎ ((t : ℕ) × (leaf_not_after_pem d ≡ ok t) × (t < ours))
IsBehind ours _ = ⊥

module _ (slot : Text) (p : PendingPersist) where
  abbrev pub MayFlush : Flushing → Call → Type 0
  MayFlush g (put_object k c o) =
      (text_eq k slot ≡ false) ⊎ ((k ≡ slot) × (c ≡ p.chain_pem) × IsBehind p.not_after g.0)
  MayFlush g (remove_object k) = text_eq k slot ≡ false
  MayFlush g c = Unit {0}

  abbrev pub note_flush : Flushing → (c : Call) → Reply c → Flushing
  note_flush g (get_object k) r = if text_eq k slot then (some r, g.1) else g
  note_flush g (put_object k c o) r = if text_eq k slot then (g.0, is_ok r) else g
  note_flush g c r = g

  -- A flush reports a write exactly if one has gone through.
  abbrev pub IsReported : Flushing → Bool × Manager → Type 0
  IsReported g r = g.1 ≡ r.0

  slot_write :
      (k : Text) (g : Option (Result Content)) (r : Result (Unit {0}))
      → k ≡ slot
      → note_flush (g, false) (put_object k p.chain_pem overwrite) r ≡ (g, is_ok r)
  slot_write k g r e = rw (e, text_eq_refl slot) refl

  slot_read :
      (k : Text) (g : Option (Result Content)) (r : Result Content)
      → k ≡ slot
      → note_flush (g, false) (get_object k) r ≡ (some r, false)
  slot_read k g r e = rw (e, text_eq_refl slot) refl

  persist-Safe :
      (n : ℕ) (c : CertCache) (domain : Text) (g : Option (Result Content))
      → chain_key c domain ≡ slot
      → IsBehind p.not_after g
      → Safe MayFlush note_flush (λ h r. h.1 ≡ is_ok r) (g, false) (persist n c domain p.chain_pem)
  unfolding persist
  persist-Safe zero c domain g same behind = (
    inr (same, refl, behind),
    elim [
      | ok done ↦ ap (λ h. h.1) (slot_write (chain_key c domain) g (ok done) same)
      | err e ↦ ap (λ h. h.1) (slot_write (chain_key c domain) g (err e) same)
    ],
  )
  persist-Safe (suc n) c domain g same behind = (
    inr (same, refl, behind),
    elim [
      | ok done ↦ ap (λ h. h.1) (slot_write (chain_key c domain) g (ok done) same)
      | err e ↦
          subst
            (λ h.
              Safe MayFlush note_flush (λ h r. h.1 ≡ is_ok r) h (persist n c domain p.chain_pem))
            (sym (slot_write (chain_key c domain) g (err e) same))
            (persist-Safe n c domain g same behind)
    ],
  )

  written :
      (g : Flushing) (domain : Text) (m : Manager) (r : Result (Unit {0}))
      → g.1 ≡ is_ok r
      → Safe MayFlush note_flush IsReported g (
          on_ok r
            (λ e. ret (false, m))
            λ u. ret (
              true,
              record m {
                cert_cache = elim (get domain m.cert_cache) [
                  | none ↦ drop_pending domain m.cert_cache
                  | some cert ↦ confirmed domain (drop_pending domain m.cert_cache)
                ];
              },
            ))
  written g domain m (ok done) e = e
  written g domain m (err e') e = e

  read-MayFlush : (u : Unit {0}) (h : Flushing) (c : Call) → h.1 ≡ false → IsRead u c → MayFlush h c
  read-MayFlush u h (get_object k) i e = tt
  read-MayFlush u h _ i e = absurd e

  read-unwritten :
      (u : Unit {0}) (h : Flushing) (c : Call) (r : Reply c)
      → h.1 ≡ false
      → IsRead u c
      → (note_flush h c r).1 ≡ false
  read-unwritten u h (get_object k) r i e = elim (Bool-cases (text_eq k slot)) [
    | inl same ↦ rw same i
    | inr other ↦ rw other i
  ]
  read-unwritten u h _ r i e = absurd e

  adopted_answer :
      (h : Flushing) (domain : Text) (m : Manager) (r : Result Certificate × CertCache)
      → h.1 ≡ false
      → Safe MayFlush note_flush IsReported h (
          on_ok r.0
            (λ e. ret (false, record m { cert_cache = r.1 }))
            λ cert. ret (false, record m { cert_cache = drop_pending domain r.1 }))
  adopted_answer h domain m (ok cert, c) e = e
  adopted_answer h domain m (err e', c) e = e

  adopted-Safe :
      (g : Option (Result Content)) (domain : Text) (m : Manager)
      → Safe MayFlush note_flush IsReported (g, false) (flush_planned adopt domain p m)
  unfolding flush_planned
  adopted-Safe g domain m =
      Safe-bind MayFlush note_flush (λ h r. h.1 ≡ false) IsReported _ (g, false)
        (refresh m.key_store domain m.cert_cache)
        (Safe-along IsRead forget MayFlush note_flush Anything (λ h r. h.1 ≡ false)
          (λ u h. h.1 ≡ false) read-MayFlush read-unwritten (λ u h a i q. i) tt (g, false)
          (refresh m.key_store domain m.cert_cache) refl
          (refresh-IsRead m.key_store domain m.cert_cache))
        (λ h r e. adopted_answer h domain m r e)

  flush_planned-Safe :
      (g : Option (Result Content)) (q : Plan) (domain : Text) (m : Manager)
      → chain_key m.cert_cache domain ≡ slot
      → (q ≡ write → IsBehind p.not_after g)
      → Safe MayFlush note_flush IsReported (g, false) (flush_planned q domain p m)
  unfolding flush_planned
  flush_planned-Safe g leave domain m same behind = refl
  flush_planned-Safe g adopt domain m same behind = adopted-Safe g domain m
  flush_planned-Safe g write domain m same behind =
      Safe-bind MayFlush note_flush (λ h r. h.1 ≡ is_ok r) IsReported _ (g, false)
        (persist 0 m.cert_cache domain p.chain_pem)
        (persist-Safe 0 m.cert_cache domain g same (behind refl)) (λ h r e. written h domain m r e)

  planned-IsBehind :
      (r : Result Content)
      → plan p.not_after (
          on_ok
            (loaded_chain r)
            (λ e. err e)
            λ data'. on_ok (leaf_not_after_pem data') (λ e. err unparseable) λ t. ok t)
        ≡ write
      → IsBehind p.not_after (some r)
  unfolding plan loaded_chain read_failure
  planned-IsBehind (err not_exist) h = tt
  planned-IsBehind (err _) h = absurd (ground (arith, h))
  planned-IsBehind (ok d) h = elim (Result-cases (leaf_not_after_pem d)) [
    | inr (e, broken) ↦ inl (e, broken)
    | inl (t, ends) ↦ inr (t, ends, ground (arith, h, ends))
  ]

  pub flush_leased-Safe :
      (g : Option (Result Content)) (domain : Text) (m : Manager)
      → chain_key m.cert_cache domain ≡ slot
      → Safe MayFlush note_flush IsReported (g, false) (flush_leased domain p m)
  unfolding flush_leased stored_not_after load_chain
  flush_leased-Safe g domain m same = (
    tt,
    λ r.
        rw (slot_read (chain_key m.cert_cache domain) g r same)
          (flush_planned-Safe (some r) _ domain m same (planned-IsBehind r)),
  )
