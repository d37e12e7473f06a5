-- ===== src/Manager/Flushes.antt =====
-- flushOne (scheduler.go) under its mutex and its lease.
use go_certs_manager.Layout
use go_certs_manager.Base.{
  Bool, Bool-cases, Option, Option-cases, Text, ap, false, inl, inr, none, refl, some, subst, sym,
  text_eq, true, ◌≡◌,
}
use go_certs_manager.CertCache.{PendingPersist, chain_key}
use go_certs_manager.Effects.{
  Call, LeaseRecord, Reply, Result, do_call, get_object, put_object, remove_object, ret,
  stat_object, time_now, unlock, ◌>>=◌,
}
use go_certs_manager.Effects.Logic.{Safe, Safe-along, Safe-bind}
use go_certs_manager.Layout.{cert_domain}
use go_certs_manager.Lease.{
  IssueLeaser, Release, acquire, lease_key, nothing, release_lease, run_release,
}
use go_certs_manager.Lease.Takeover.{
  Attempt, IsClaimed, MayClaim, MayRelease, NoRecord, acquire-IsClaimed, acquire-unbacked,
  note_attempt, note_record, run_release-MayRelease, untried,
}
use go_certs_manager.Manager.{Manager, acquire_issue_lease, release_issue_lease}
use go_certs_manager.Manager.Flush.{Flushing, IsReported, MayFlush, flush_leased-Safe, note_flush}
use go_certs_manager.Manager.Quiet.{apart}
use go_certs_manager.Manager.Schedule.{flush_leased, flush_locked, flush_one}
use go_certs_manager.Manager.Wiring.{IsWired, acquire_issue_lease-none, acquire_issue_lease-some}

module _ (prefix domain : Text) (p : PendingPersist) where
  abbrev pub chain_slot : Text
  chain_slot = Layout.chain prefix domain

  lease_apart_slot :
      (l : IssueLeaser) (k d : Text)
      → l.prefix ≡ prefix
      → k ≡ lease_key l d
      → text_eq k chain_slot ≡ false
  unfolding lease_key Layout.chain
  lease_apart_slot l k d wired e = rw (e, wired) (apart prefix _ _ b'l' b'c' refl)

  lease-MayFlush :
      (l : IssueLeaser) (d : Text)
      → l.prefix ≡ prefix
      → (g : Attempt) (h : Flushing) (c : Call) → h.1 ≡ false
      → MayClaim l (lease_key l d) g c
      → MayFlush chain_slot p h c
  lease-MayFlush l d wired g h (put_object k c o) i e = inl (lease_apart_slot l k d wired e.0)
  lease-MayFlush l d wired g h (get_object k) i e = tt
  lease-MayFlush l d wired g h (stat_object k) i e = tt
  lease-MayFlush l d wired g h time_now i e = tt
  lease-MayFlush l d wired g h _ i e = absurd e

  lease-unwritten :
      (l : IssueLeaser) (d : Text)
      → l.prefix ≡ prefix
      → (g : Attempt) (h : Flushing) (c : Call) (r : Reply c) → h.1 ≡ false
      → MayClaim l (lease_key l d) g c
      → (note_flush chain_slot p h c r).1 ≡ false
  lease-unwritten l d wired g h (put_object k c o) r i e = rw (lease_apart_slot l k d wired e.0) i
  lease-unwritten l d wired g h (get_object k) r i e = rw (lease_apart_slot l k d wired e) i
  lease-unwritten l d wired g h (stat_object k) r i e = i
  lease-unwritten l d wired g h time_now r i e = i
  lease-unwritten l d wired g h _ r i e = absurd e

  release-MayFlush :
      (k : Text) (b : Bool) (node : Text)
      → text_eq k chain_slot ≡ false
      → (g : Option (Result LeaseRecord)) (h : Flushing) (c : Call) → h.1 ≡ b
      → MayRelease node k g c
      → MayFlush chain_slot p h c
  release-MayFlush k b node other g h (get_object k') i e = tt
  release-MayFlush k b node other g h (remove_object k') i e = rw (e.0, other) refl
  release-MayFlush k b node other g h _ i e = absurd e

  release-unwritten :
      (k : Text) (b : Bool) (node : Text)
      → text_eq k chain_slot ≡ false
      → (g : Option (Result LeaseRecord)) (h : Flushing) (c : Call) (r : Reply c) → h.1 ≡ b
      → MayRelease node k g c
      → (note_flush chain_slot p h c r).1 ≡ b
  release-unwritten k b node other g h (get_object k') r i e = rw (e, other) i
  release-unwritten k b node other g h (remove_object k') r i e = i
  release-unwritten k b node other g h _ r i e = absurd e

  -- What a lease is released by lies elsewhere than the chain.
  abbrev pub IsApart : Option Release → Type 0
  IsApart none = Unit {0}
  IsApart (some nothing) = Unit {0}
  IsApart (some (release_lease k)) = text_eq k chain_slot ≡ false

  abbrev pub Unwritten : Flushing → Option Release → Type 0
  Unwritten h r = (h.1 ≡ false) × IsApart r

  claimed-Unwritten :
      (l : IssueLeaser) (d : Text)
      → l.prefix ≡ prefix
      → (g : Attempt) (h : Flushing) (r : Option Release) → h.1 ≡ false
      → IsClaimed (lease_key l d) g r
      → Unwritten h r
  claimed-Unwritten l d wired g h none i e = (i, tt)
  claimed-Unwritten l d wired g h (some r) i e =
      (i, rw e.1 (lease_apart_slot l (lease_key l d) d wired refl))

  acquire-Unwritten :
      (l : IssueLeaser) (d : Text) (h : Flushing)
      → l.prefix ≡ prefix
      → h.1 ≡ false
      → Safe (MayFlush chain_slot p) (note_flush chain_slot p) Unwritten h (acquire l d)
  acquire-Unwritten l d h wired i = elim (Bool-cases l.has_backend) [
    | inl backed ↦
        Safe-along (MayClaim l (lease_key l d)) note_attempt (MayFlush chain_slot p)
          (note_flush chain_slot p) (IsClaimed (lease_key l d)) Unwritten (λ g h. h.1 ≡ false)
          (lease-MayFlush l d wired) (lease-unwritten l d wired) (claimed-Unwritten l d wired)
          untried h (acquire l d) i (acquire-IsClaimed l d backed)
    | inr unbacked ↦
        subst (λ q. Safe (MayFlush chain_slot p) (note_flush chain_slot p) Unwritten h q)
          (sym (acquire-unbacked l d unbacked)) (i, tt)
  ]

  acquire_issue_lease-Unwritten :
      (m : Manager) (h : Flushing)
      → IsWired prefix m
      → h.1 ≡ false
      → Safe
          (MayFlush chain_slot p)
          (note_flush chain_slot p)
          Unwritten
          h
          (acquire_issue_lease m domain)
  acquire_issue_lease-Unwritten m h wired i = elim (Option-cases m.leaser) [
    | inl absent ↦
        subst (λ q. Safe (MayFlush chain_slot p) (note_flush chain_slot p) Unwritten h q)
          (sym (acquire_issue_lease-none m domain absent)) (i, tt)
    | inr (l, there) ↦
        subst (λ q. Safe (MayFlush chain_slot p) (note_flush chain_slot p) Unwritten h q)
          (sym (acquire_issue_lease-some m domain l there))
          (acquire-Unwritten l (cert_domain domain) h (wired.2 l there) i)
  ]

  run_release-Kept :
      (node : Text) (r : Release) (b : Bool) (h : Flushing)
      → IsApart (some r)
      → h.1 ≡ b
      → Safe
          (MayFlush chain_slot p)
          (note_flush chain_slot p)
          (λ h' u. h'.1 ≡ b)
          h
          (run_release node r)
  unfolding run_release
  run_release-Kept node nothing b h other i = i
  run_release-Kept node (release_lease k) b h other i =
      Safe-along (MayRelease node k) note_record (MayFlush chain_slot p) (note_flush chain_slot p)
        NoRecord (λ h' u. h'.1 ≡ b) (λ g h'. h'.1 ≡ b) (release-MayFlush k b node other)
        (release-unwritten k b node other) (λ g h' a i' q. i') none h
        (run_release node (release_lease k)) i (run_release-MayRelease node k)

  release_issue_lease-Kept :
      (m : Manager) (r : Release) (b : Bool) (h : Flushing)
      → IsApart (some r)
      → h.1 ≡ b
      → Safe
          (MayFlush chain_slot p)
          (note_flush chain_slot p)
          (λ h' u. h'.1 ≡ b)
          h
          (release_issue_lease m r)
  unfolding release_issue_lease
  release_issue_lease-Kept m r b h other i = elim (Option-cases m.leaser) [
    | inl absent ↦ rw (absent, release_issue_lease) i
    | inr (l, there) ↦ rw (there, release_issue_lease) (run_release-Kept l.node_id r b h other i)
  ]

  flush_locked-Safe :
      (m : Manager) (h : Flushing) (r : Option Release)
      → m.cert_cache.prefix ≡ prefix
      → Unwritten h r
      → Safe
          (MayFlush chain_slot p)
          (note_flush chain_slot p)
          (IsReported chain_slot p)
          h
          (flush_locked domain p m r)
  unfolding flush_locked chain_key Layout.chain
  flush_locked-Safe m h none wired i = i.0
  flush_locked-Safe m h (some r) wired i =
      Safe-bind (MayFlush chain_slot p) (note_flush chain_slot p) (IsReported chain_slot p)
        (IsReported chain_slot p) _ h (flush_leased domain p m)
        (subst
          (λ b.
            Safe (MayFlush chain_slot p) (note_flush chain_slot p) (IsReported chain_slot p)
              (h.0, b) (flush_leased domain p m))
          (sym i.0)
          (flush_leased-Safe chain_slot p h.0 domain m (ap (λ q. Layout.chain q domain) wired)))
        (λ h' result e.
          Safe-bind (MayFlush chain_slot p) (note_flush chain_slot p) (λ h'' u. h''.1 ≡ result.0)
            (IsReported chain_slot p) (λ u. ret result) h' (release_issue_lease m r)
            (release_issue_lease-Kept m r result.0 h' i.1 e) (λ h'' u e'. e'))

  -- With the lease and the chains under one prefix: whatever the world replies, a flush of a chain that was issued but not stored writes the
  -- chain's object only with that chain, and only once storage has answered that there is none,
  -- with one that does not parse, or with one that ends before the held one does; it removes no
  -- such object; and it reports a write exactly if the last write of the chain went through.
  pub flush_one-IsReported :
      (m : Manager)
      → IsWired prefix m
      → Safe
          (MayFlush chain_slot p)
          (note_flush chain_slot p)
          (IsReported chain_slot p)
          (none, false)
          (flush_one domain p m)
  unfolding flush_one
  flush_one-IsReported m wired = (
    tt,
    elim [
      | false ↦ refl
      | true ↦
          Safe-bind (MayFlush chain_slot p) (note_flush chain_slot p) Unwritten
            (IsReported chain_slot p) _ (none, false) (acquire_issue_lease m domain)
            (acquire_issue_lease-Unwritten m (none, false) wired refl)
            (λ h r i.
              Safe-bind (MayFlush chain_slot p) (note_flush chain_slot p) (IsReported chain_slot p)
                (IsReported chain_slot p) (λ result. (do _ ← do_call (unlock domain); ret result)) h
                (flush_locked domain p m r) (flush_locked-Safe m h r wired.1 i)
                (λ h' result e. (tt, λ u. e)))
    ],
  )
