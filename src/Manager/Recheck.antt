-- ===== src/Manager/Recheck.antt =====
-- The last look at storage (manager.go) leads to an order only where storage has said so.
use go_certs_manager.Base.{
  Bool, Text, arith, false, inl, inr, refl, some, true, ℕ, ◌+◌, ◌||◌, ◌≡◌, ◌≤◌, ◌⊎◌,
}
use go_certs_manager.CertCache.{CertCache, absent_from_storage, leaf_not_after}
use go_certs_manager.Effects.{Certificate, Result, Signer, err, ok, on_ok, ret, time_now, ◌>>=◌}
use go_certs_manager.Effects.Logic.{Safe-bind, Safe-if}
use go_certs_manager.Issuer.{issue}
use go_certs_manager.Manager.{
  Issued, Manager, charge_failure, ensure_issuer, failed, is_fresh, order_now, order_with, recheck,
}
use go_certs_manager.Manager.Completion.{issue-Quiet}
use go_certs_manager.Manager.Quiet.{SameCache, ensure_issuer-Quiet}
use go_certs_manager.Manager.Readiness.{Ordering, act-Ordering, clock-IsAdmitted, Idle-Ordering}
use go_certs_manager.Manager.Rest.{Idle-bind, charge_failure-Idle, order_with-Idle}
use go_certs_manager.Manager.Seen.{
  IsAdmitted, IsDue, IsExclusive, IsReady, MayOrder, Seen, first, learn,
}

module _ (prefix domain : Text) (force : Bool) (m : Manager) where
  -- What admits an attempt, and what keeps other nodes out.
  abbrev pub IsCleared : Seen → Type 0
  IsCleared g = IsAdmitted prefix domain force m g × IsExclusive prefix domain force m g

  -- What a refresh has found, in terms of what storage has answered.
  abbrev pub Refreshed : Seen → Result Certificate × CertCache → Type 0
  Refreshed g (ok cert, c) =
      (c.prefix ≡ prefix)
      × (leaf_not_after domain c ≡ some cert.leaf.not_after)
      × ((now : ℕ)
          → cert.leaf.not_after ≤ now + m.renew_before
          → IsDue m.renew_before g.chain g.key (first g.looked now))
  Refreshed g (err e, c) =
      (c.prefix ≡ prefix)
      × (absent_from_storage e ≡ true → IsDue m.renew_before g.chain g.key g.looked)

  issuer_built-Ordering :
      (s : Signer) (m' : Manager) (h : Seen) (r : Result Bool × Manager)
      → m'.cert_cache.prefix ≡ prefix
      → IsReady prefix domain force m h
      → SameCache m' r
      → Ordering prefix domain force m {A = Issued × Manager}
          (λ h a. Unit {0})
          h
          (on_ok r.0
            (λ e. do m2 ← charge_failure domain r.1; ret (failed e, m2))
            λ registered. do
              got ← issue r.1.cert_cache.prefix registered domain s
              order_with domain s r.1 got)
  issuer_built-Ordering s m' h (err e, m1) wired ready same =
      Idle-Ordering prefix domain force m h _ (
        Idle-bind (λ m2. ret (failed e, m2)) (charge_failure domain m1)
          (charge_failure-Idle domain m1) (λ m2. tt))
  issuer_built-Ordering s m' h (ok registered, m1) wired ready same =
      Safe-bind (MayOrder prefix domain force m) (learn prefix domain)
        (λ h a. IsReady prefix domain force m h × Unit {0}) (λ h a. Unit {0}) _ h
        (issue m1.cert_cache.prefix registered domain s)
        (act-Ordering prefix domain force m (λ r. Unit {0}) h
          (issue m1.cert_cache.prefix registered domain s) ready
          (rw (same, wired) (issue-Quiet prefix domain registered s)))
        (λ h r i. Idle-Ordering prefix domain force m h _ (order_with-Idle domain s m1 r))

  order_now-Ordering :
      (s : Signer) (g : Seen) (m' : Manager)
      → m'.key_store.prefix ≡ prefix
      → m'.cert_cache.prefix ≡ prefix
      → IsReady prefix domain force m g
      → Ordering prefix domain force m (λ h a. Unit {0}) g (order_now domain s m')
  unfolding order_now
  order_now-Ordering s g m' wired_keys wired_cache ready =
      Safe-bind (MayOrder prefix domain force m) (learn prefix domain)
        (λ h r. IsReady prefix domain force m h × SameCache m' r) (λ h a. Unit {0}) _ g
        (ensure_issuer m')
        (act-Ordering prefix domain force m (SameCache m') g (ensure_issuer m') ready
          (ensure_issuer-Quiet prefix domain m' wired_keys))
        (λ h r i. issuer_built-Ordering s m' h r wired_cache i.0 i.1)

  is_fresh-ends :
      (now : ℕ) (m' : Manager) (cert : Certificate)
      → m'.renew_before ≡ m.renew_before
      → leaf_not_after domain m'.cert_cache ≡ some cert.leaf.not_after
      → is_fresh now domain m' ≡ false
      → cert.leaf.not_after ≤ now + m.renew_before
  unfolding is_fresh
  is_fresh-ends now m' cert same held stale = ground (arith, same, held, stale)

  recheck_found-Ordering :
      (s : Signer) (g : Seen) (m' : Manager) (cert : Certificate)
      → m'.key_store.prefix ≡ prefix
      → m'.renew_before ≡ m.renew_before
      → IsCleared g
      → Refreshed g (ok cert, m'.cert_cache)
      → Ordering prefix domain force m (λ h a. Unit {0}) g (recheck domain s force m' (ok cert))
  unfolding recheck
  recheck_found-Ordering s g m' cert wired same (admitted, exclusive) (wired', held, due) =
      Safe-if (MayOrder prefix domain force m) (learn prefix domain) (λ h a. Unit {0}) g
        (order_now domain s m') _ force
        (λ forced. order_now-Ordering s g m' wired wired' (admitted, exclusive, inl forced))
        (λ unforced. (
          tt,
          λ now.
              Safe-if (MayOrder prefix domain force m) (learn prefix domain) (λ h a. Unit {0})
                (learn prefix domain g time_now now) _ (order_now domain s m')
                (is_fresh now domain m') (λ fresh. tt)
                (λ stale.
                  order_now-Ordering s (learn prefix domain g time_now now) m' wired wired' (
                    clock-IsAdmitted prefix domain force m g now admitted,
                    exclusive,
                    inr (due now (is_fresh-ends now m' cert same held stale)),
                  )),
        ))

  pub recheck-Ordering :
      (s : Signer) (g : Seen) (m' : Manager) (r : Result Certificate)
      → m'.key_store.prefix ≡ prefix
      → m'.renew_before ≡ m.renew_before
      → IsCleared g
      → Refreshed g (r, m'.cert_cache)
      → Ordering prefix domain force m (λ h a. Unit {0}) g (recheck domain s force m' r)
  unfolding recheck
  recheck-Ordering s g m' (ok cert) wired same cleared seen =
      recheck_found-Ordering s g m' cert wired same cleared seen
  recheck-Ordering s g m' (err e) wired same cleared seen =
      Safe-if (MayOrder prefix domain force m) (learn prefix domain) (λ h a. Unit {0}) g
        (order_now domain s m') _ (force || absent_from_storage e)
        (λ ordered.
          order_now-Ordering s g m' wired seen.0
            (cleared.0, cleared.1, warranted force (absent_from_storage e) ordered seen.1))
        (λ no_order. tt)
    where
      warranted : {A : Type 0} (b c : Bool) → (b || c) ≡ true → (c ≡ true → A) → (b ≡ true) ⊎ A
      warranted true c h due = inl refl
      warranted false c h due = inr (due h)
