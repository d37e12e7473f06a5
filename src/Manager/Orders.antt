-- ===== src/Manager/Orders.antt =====
-- When issueWithKey of manager.go places an order with the CA.
use go_certs_manager.Base.{
  Bool, Option, Option-cases, Text, inl, inr, none, refl, some, subst, sym, ℕ, ◌≡◌,
}
use go_certs_manager.Budget.{RetryBudget, Verdict, allow, allowed, panics, refused}
use go_certs_manager.CertCache.{refresh}
use go_certs_manager.Effects.{Signer, budget_exhausted, panicked, ret, time_now, ◌>>=◌}
use go_certs_manager.Effects.Logic.{Safe, Safe-bind}
use go_certs_manager.Lease.{Release}
use go_certs_manager.Manager.{
  Issued, Manager, acquire_issue_lease, failed, issue_with_key, release_issue_lease, under_lease,
  with_lease, without_lease,
}
use go_certs_manager.Manager.Leasing.{Leased, acquire-Ordering}
use go_certs_manager.Manager.Readiness.{Idle-Ordering, Ordering}
use go_certs_manager.Manager.Recheck.{IsCleared, Refreshed, recheck-Ordering}
use go_certs_manager.Manager.Refreshing.{refresh-Ordering}
use go_certs_manager.Manager.Rest.{Idle-bind, release_issue_lease-Idle, without_lease-Idle}
use go_certs_manager.Manager.Seen.{IsAdmitted, MayOrder, Seen, learn, nothing_seen}
use go_certs_manager.Manager.Wiring.{IsWired, acquire_issue_lease-some}

module _ (prefix domain : Text) (force : Bool) (m : Manager) where
  NoMore : {A : Type 0} → Seen → A → Type 0
  NoMore h a = Unit {0}

  acquire_issue_lease-Ordering :
      (g : Seen) (budget : Option RetryBudget)
      → IsWired prefix m
      → IsAdmitted prefix domain force m g
      → Ordering prefix domain force m
          (Leased prefix domain force m)
          g
          (acquire_issue_lease (record m { retries = budget }) domain)
  unfolding acquire_issue_lease
  acquire_issue_lease-Ordering g budget wired admitted = elim (Option-cases m.leaser) [
    | inl absent ↦ rw (absent, acquire_issue_lease) (admitted, inl refl)
    | inr (l, there) ↦
        subst (λ p. Ordering prefix domain force m (Leased prefix domain force m) g p)
          (sym (acquire_issue_lease-some (record m { retries = budget }) domain l there))
          (acquire-Ordering prefix domain force m l g there (wired.2 l there) admitted)
  ]

  with_lease-Ordering :
      (s : Signer) (g : Seen) (budget : Option RetryBudget) (r : Option Release)
      → IsWired prefix m
      → Leased prefix domain force m g r
      → Ordering prefix domain force m NoMore g
          (with_lease domain s force (record m { retries = budget }) r)
  unfolding with_lease under_lease NoMore
  with_lease-Ordering s g budget none wired leased =
      Idle-Ordering prefix domain force m g
        (without_lease domain force (record m { retries = budget }))
        (without_lease-Idle domain force (record m { retries = budget }))
  with_lease-Ordering s g budget (some r) wired cleared =
      Safe-bind (MayOrder prefix domain force m) (learn prefix domain) NoMore NoMore
        (λ (result, m'). (do
          _ ← release_issue_lease (record m { retries = budget }) r
          ret (result, m')))
        g (under_lease domain s force (record m { retries = budget }))
        (Safe-bind (MayOrder prefix domain force m) (learn prefix domain)
          (λ h r. IsCleared prefix domain force m h × Refreshed prefix domain force m h r) NoMore _
          g (refresh m.key_store domain m.cert_cache)
          (refresh-Ordering prefix domain force m g m.key_store m.cert_cache wired.0 wired.1
            cleared)
          (λ h (found, c) seen.
            recheck-Ordering prefix domain force m s h
              (record m { retries = budget; cert_cache = c }) found wired.0 refl seen.0 seen.1))
        (λ h result u. Idle-Ordering prefix domain force m h _ (
          Idle-bind (λ x. ret (result.0, result.1))
            (release_issue_lease (record m { retries = budget }) r)
            (release_issue_lease-Idle (record m { retries = budget }) r) (λ x. tt)))

  -- With the lease, the keys and the chains under one prefix: whatever the world replies to the
  -- calls of an attempt, the only orders that it places, and
  -- finalizes, are for the name's own domain, and by then (a) the retry budget has allowed the
  -- attempt at the first reading of the clock, (b) the name's lease object has been written and
  -- not removed, unless the manager has no leaser with a storage, and (c) the operator has forced
  -- the order, or storage has answered that there is no chain, or that there is a chain and no key
  -- for it, or with a chain and its key whose certificate ends inside the renewal window. An
  -- unreadable answer, a chain that does not parse and a chain for another key lead to no order.
  pub issue_with_key-Ordering :
      (s : Signer)
      → IsWired prefix m
      → Safe
          (MayOrder prefix domain force m)
          (learn prefix domain)
          (λ h a. Unit {0})
          nothing_seen
          (issue_with_key domain s force m)
  unfolding issue_with_key NoMore
  issue_with_key-Ordering s wired =
      (tt, λ now. decided now (allow now domain m.retries).1 (allow now domain m.retries).0 refl)
    where
      decided :
          (now : ℕ) (budget : Option RetryBudget) (v : Verdict)
          → (allow now domain m.retries).0 ≡ v
          → Ordering prefix domain force m {A = Issued × Manager} NoMore
              (learn prefix domain nothing_seen time_now now)
              (elim v [
                | allowed ↦ do
                  lease ← acquire_issue_lease (record m { retries = budget }) domain
                  with_lease domain s force (record m { retries = budget }) lease
                | refused w ↦ ret (failed budget_exhausted, record m { retries = budget })
                | panics ↦ ret (failed panicked, record m { retries = budget })
              ])
      decided now budget allowed e =
          Safe-bind (MayOrder prefix domain force m) (learn prefix domain)
            (Leased prefix domain force m) NoMore _ (learn prefix domain nothing_seen time_now now)
            (acquire_issue_lease (record m { retries = budget }) domain)
            (acquire_issue_lease-Ordering (learn prefix domain nothing_seen time_now now) budget
              wired (now, refl, e))
            (λ h r leased. with_lease-Ordering s h budget r wired leased)
      decided now budget (refused w) e = tt
      decided now budget panics e = tt
