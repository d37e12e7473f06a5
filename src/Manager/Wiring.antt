-- ===== src/Manager/Wiring.antt =====
-- How a manager (manager.go) is put together, and what acquireIssueLease comes to.
use go_certs_manager.Base.{Text, none, refl, some, ◌≡◌}
use go_certs_manager.Effects.{ret}
use go_certs_manager.Layout.{cert_domain}
use go_certs_manager.Lease.{IssueLeaser, acquire, nothing}
use go_certs_manager.Manager.{Manager, acquire_issue_lease}

-- The lease that the manager takes and the objects that it reads lie under one prefix.
abbrev pub IsWired : Text → Manager → Type 0
IsWired prefix m =
    (m.key_store.prefix ≡ prefix)
    × (m.cert_cache.prefix ≡ prefix)
    × ((l : IssueLeaser) → m.leaser ≡ some l → l.prefix ≡ prefix)

pub acquire_issue_lease-some :
    (m : Manager) (domain : Text) (l : IssueLeaser)
    → m.leaser ≡ some l
    → acquire_issue_lease m domain ≡ acquire l (cert_domain domain)
unfolding acquire_issue_lease
acquire_issue_lease-some m domain l there = rw (there, acquire_issue_lease) refl

pub acquire_issue_lease-none :
    (m : Manager) (domain : Text)
    → m.leaser ≡ none
    → acquire_issue_lease m domain ≡ ret (some nothing)
unfolding acquire_issue_lease
acquire_issue_lease-none m domain absent = rw (absent, acquire_issue_lease) refl
