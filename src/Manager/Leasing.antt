-- ===== src/Manager/Leasing.antt =====
-- An attempt of manager.go that holds the lease (lease.go) has kept the other nodes out.
use go_certs_manager.Layout
use go_certs_manager.Base.{
  Bool, Option, Text, ap, codes, false, if◌then◌else◌, inl, inr, ltb, none, refl, some,
  text_eq_refl, to_lower, true, ℕ, ◌++◌, ◌+◌, ◌||◌, ◌≡◌, ◌⊎◌,
}
use go_certs_manager.Effects.{
  Content, Error, LeaseRecord, ObjectInfo, PutOptions, Result, Result-cases, create_only, do_call,
  err, get_object, is_ok, lease_json, ok, on_ok, put_object, ret, time_now, ◌>>=◌,
}
use go_certs_manager.Effects.Logic.{Safe-if}
use go_certs_manager.Layout.{cert_domain}
use go_certs_manager.Lease.{
  IssueLeaser, Release, acquire, decide, inspect, lease_key, nothing, read, read_result,
  release_lease, take_over, try_create, unix,
}
use go_certs_manager.Manager.{Manager}
use go_certs_manager.Manager.Quiet.{MayAct, apart}
use go_certs_manager.Manager.Readiness.{Ordering, clock-IsAdmitted, learn_get-other}
use go_certs_manager.Manager.Recheck.{IsCleared}
use go_certs_manager.Manager.Seen.{
  IsAdmitted, MayOrder, Seen, learn, learn_get, lease_object, needs_lease,
}

lease-apart :
    (prefix domain n : Text)
    → n ≡ lease_object prefix domain
    → MayAct prefix domain tt (get_object n)
unfolding Layout.chain Layout.key
lease-apart prefix domain n e =
    rw e (apart prefix _ _ b'l' b'c' refl, apart prefix _ _ b'l' b'k' refl)

module _ (prefix domain : Text) (force : Bool) (m : Manager) where
  -- A lease was acquired only if other nodes are kept out.
  abbrev pub Leased : Seen → Option Release → Type 0
  Leased h none = Unit {0}
  Leased h (some r) = IsCleared prefix domain force m h

  put_lease :
      (g : Seen) (c : Content) (o : PutOptions) (k : Text) (r : Result (Unit {0}))
      → k ≡ lease_object prefix domain
      → IsAdmitted prefix domain force m g
      → Leased
          (learn prefix domain g (put_object k c o) r)
          (if is_ok r then some (release_lease k) else none)
  put_lease g c o k (err e) same admitted = tt
  put_lease g c o k (ok done) same admitted =
      (admitted, inr (rw (same, text_eq_refl (lease_object prefix domain)) (or_true g.leased)))
    where
      or_true : (b : Bool) → (b || true) ≡ true
      or_true true = refl
      or_true false = refl

  decide-Ordering :
      (g : Seen) (k : Text) (rec : LeaseRecord) (etag : Text) (now : ℕ) (old : LeaseRecord)
      → k ≡ lease_object prefix domain
      → IsAdmitted prefix domain force m g
      → Ordering prefix domain force m Leased g (decide k rec etag now old)
  unfolding decide take_over
  decide-Ordering g k rec etag now old same admitted =
      Safe-if (MayOrder prefix domain force m) (learn prefix domain) Leased g (ret none) _
        (ltb (unix now) old.expires_at) (λ live. tt)
        (λ over. (
          tt,
          λ r.
              put_lease g (lease_json rec) (record { if_none_match = false; if_match = etag }) k r
                same admitted,
        ))

  inspect-Ordering :
      (g : Seen) (k : Text) (rec : LeaseRecord)
      → k ≡ lease_object prefix domain
      → IsAdmitted prefix domain force m g
      → Ordering prefix domain force m Leased g (inspect k rec)
  unfolding inspect read read_result
  inspect-Ordering g k rec same admitted = (
    tt,
    elim [ err e ↦ tt | ok info ↦ (tt, λ r. inspected info r (Result-cases (read_result r))) ],
  )
    where
      inspected :
          (info : ObjectInfo) (r : Result Content)
          → ((old : LeaseRecord) × (read_result r ≡ ok old))
            ⊎ ((e : Error) × (read_result r ≡ err e))
          → Ordering prefix domain force m Leased (learn_get prefix domain g k r) (
              on_ok
                (read_result r)
                (λ x. ret none)
                λ old. do now ← do_call time_now; decide k rec info.etag now old)
      inspected info r (inr (e, unread)) = rw unread tt
      inspected info r (inl (old, was_read)) =
          rw (was_read, learn_get-other prefix domain g k r (lease-apart prefix domain k same))
            (
              tt,
              λ now.
                  decide-Ordering (learn prefix domain g time_now now) k rec info.etag now old same
                    (clock-IsAdmitted prefix domain force m g now admitted),
            )

  pub acquire-Ordering :
      (l : IssueLeaser) (g : Seen)
      → m.leaser ≡ some l
      → l.prefix ≡ prefix
      → IsAdmitted prefix domain force m g
      → Ordering prefix domain force m Leased g (acquire l (cert_domain domain))
  unfolding acquire lease_key try_create
  acquire-Ordering l g there wired admitted =
      Safe-if (MayOrder prefix domain force m) (learn prefix domain) Leased g _ (ret (some nothing))
        l.has_backend
        (λ backed. (
          tt,
          λ now. (
            tt,
            elim [
              | ok done ↦
                  put_lease (learn prefix domain g time_now now) (lease_json (rec now)) create_only
                    (lease_key l (cert_domain domain)) (ok done) (ap lease_under wired)
                    (clock-IsAdmitted prefix domain force m g now admitted)
              | err e ↦
                  inspect-Ordering
                    (learn prefix domain (learn prefix domain g time_now now)
                      (put_object (lease_key l (cert_domain domain)) (lease_json (rec now))
                        create_only)
                      (err e))
                    (lease_key l (cert_domain domain)) (rec now) (ap lease_under wired)
                    (clock-IsAdmitted prefix domain force m g now admitted)
            ],
          ),
        ))
        (λ unbacked. (admitted, inl (rw (there, needs_lease) unbacked)))
    where
      rec : ℕ → LeaseRecord
      rec now = record { owner = l.node_id; expires_at = unix (now + l.ttl) }

      lease_under : Text → Text
      lease_under p = p ++ (codes "locks/issue/" ++ to_lower (cert_domain domain))
