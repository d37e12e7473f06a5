-- ===== src/Manager/Rest.antt =====
-- What manager.go does before it has decided on an order, and after one, places none.
use go_certs_manager.Base.{
  Bool, Bool-cases, Option, Option-cases, Text, false, if◌then◌else◌, inl, inr, none, some, suc,
  true, zero, ℕ,
}
use go_certs_manager.CertCache.{
  CertCache, Stored, build_certificate, built_not_stored, confirmed, drop_pending, not_built,
  persist, refresh, set, store, stored,
}
use go_certs_manager.CertCache.Reads.{IsRead, refresh-IsRead}
use go_certs_manager.Effects.{
  Call, Certificate, Content, Prog, Result, Signer, err, get_object, lease_held, ok, on_ok, ret,
  ◌>>=◌,
}
use go_certs_manager.Effects.Logic.{Anything, Safe-along, Safe-bind, forget}
use go_certs_manager.KeyStore.{KeyStore}
use go_certs_manager.Lease.{Release, keeps, nothing, read, read_result, release_lease, run_release}
use go_certs_manager.Manager.{
  Issued, Manager, block_until, charge_failure, failed, issued, order_with, rate_limit_wait,
  release_issue_lease, settle, without_lease,
}
use go_certs_manager.Manager.Quiet.{Idle, MayRest}

pub Idle-bind :
    {A B : Type 0} (f : A → Prog B) (m : Prog A) → Idle m → ((a : A) → Idle (f a)) → Idle (m >>= f)
Idle-bind f m s k = Safe-bind MayRest forget Anything Anything f tt m s (λ g a q. k a)

pub charge_failure-Idle : (domain : Text) (m : Manager) → Idle (charge_failure domain m)
unfolding charge_failure
charge_failure-Idle domain m = (tt, λ now. tt)

block_until-Idle : (domain : Text) (w : Option ℕ) (m : Manager) → Idle (block_until domain w m)
unfolding block_until
block_until-Idle domain none m = tt
block_until-Idle domain (some w) m = (tt, λ now. tt)

persist-Idle : (n : ℕ) (c : CertCache) (domain : Text) (d : Content) → Idle (persist n c domain d)
unfolding persist
persist-Idle zero c domain d = (tt, λ r. tt)
persist-Idle (suc n) c domain d = (tt, elim [ ok done ↦ tt | err e ↦ persist-Idle n c domain d ])

store-Idle : (domain : Text) (d : Content) (s : Signer) (c : CertCache) → Idle (store domain d s c)
unfolding store
store-Idle domain d s c = go (build_certificate d s)
  where
    go :
        (r : Result Certificate)
        → Idle {A = Stored × CertCache} (
            on_ok r
              (λ e. ret (not_built e, c))
              λ cert. (do
                done ← persist 2 c domain d
                on_ok done
                    (λ e. ret (built_not_stored cert, c))
                    λ u.
                      ret
                        (stored cert, confirmed domain (drop_pending domain (set domain cert c)))))
    go (err e) = tt
    go (ok cert) =
        Idle-bind _ (persist 2 c domain d) (persist-Idle 2 c domain d)
          (elim [ ok done ↦ tt | err e ↦ tt ])

settle-Idle :
    (domain : Text) (d : Content) (k : Stored × CertCache) (m : Manager)
    → Idle (settle domain d k m)
unfolding settle charge_failure
settle-Idle domain d (stored cert, c) m = tt
settle-Idle domain d (not_built e, c) m = (tt, λ now. tt)
settle-Idle domain d (built_not_stored cert, c) m = (tt, λ now. tt)

pub order_with-Idle :
    (domain : Text) (s : Signer) (m : Manager) (r : Result Content × Bool)
    → Idle (order_with domain s m r)
unfolding order_with
order_with-Idle domain s m (err e, registered) =
    Idle-bind _ (charge_failure domain (record m { issuer = some registered }))
      (charge_failure-Idle domain (record m { issuer = some registered }))
      (λ m'.
        Idle-bind (λ m''. ret (failed e, m'')) (block_until domain (rate_limit_wait e) m')
          (block_until-Idle domain (rate_limit_wait e) m') (λ m''. tt))
order_with-Idle domain s m (ok d, registered) =
    Idle-bind _ (store domain d s m.cert_cache) (store-Idle domain d s m.cert_cache)
      (λ k. settle-Idle domain d k (record m { issuer = some registered }))

run_release-Idle : (node : Text) (r : Release) → Idle (run_release node r)
unfolding run_release read
run_release-Idle node nothing = tt
run_release-Idle node (release_lease key) = (
  tt,
  λ r. elim (Bool-cases (keeps node (read_result r))) [
    | inl other ↦ rw other tt
    | inr ours ↦ rw ours (tt, λ done. tt)
  ],
)

pub release_issue_lease-Idle : (m : Manager) (r : Release) → Idle (release_issue_lease m r)
unfolding release_issue_lease
release_issue_lease-Idle m r = elim (Option-cases m.leaser) [
  | inl absent ↦ rw (absent, release_issue_lease) tt
  | inr (l, there) ↦ rw (there, release_issue_lease) (run_release-Idle l.node_id r)
]

read-MayRest : (u v : Unit {0}) (c : Call) → Unit {0} → IsRead u c → MayRest v c
read-MayRest u v (get_object k) i e = tt
read-MayRest u v _ i e = absurd e

refresh-Idle : (k : KeyStore) (domain : Text) (c : CertCache) → Idle (refresh k domain c)
refresh-Idle k domain c =
    Safe-along IsRead forget MayRest forget Anything Anything (λ u v. Unit {0}) read-MayRest
      (λ u v c r i e. tt) (λ u v a i q. tt) tt tt (refresh k domain c) tt
      (refresh-IsRead k domain c)

without_lease_answer :
    (force : Bool) (m : Manager) (r : Result Certificate × CertCache)
    → Idle {A = Issued × Manager} (
        on_ok r.0
          (λ e. ret (failed lease_held, record m { cert_cache = r.1 }))
          λ cert.
            if force
            then ret (failed lease_held, record m { cert_cache = r.1 })
            else ret (issued cert, record m { cert_cache = r.1 }))
without_lease_answer force m (err e, c) = tt
without_lease_answer true m (ok cert, c) = tt
without_lease_answer false m (ok cert, c) = tt

pub without_lease-Idle :
    (domain : Text) (force : Bool) (m : Manager) → Idle (without_lease domain force m)
unfolding without_lease
without_lease-Idle domain force m =
    Idle-bind _ (refresh m.key_store domain m.cert_cache)
      (refresh-Idle m.key_store domain m.cert_cache) (without_lease_answer force m)
