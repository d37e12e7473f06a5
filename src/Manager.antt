-- ===== src/Manager.antt =====
-- manager.go: issuing with a given key, and what decides whether to. One pass over one name is a
-- `Prog` that carries the manager's state along. The logging and the deadlines are not modelled.
pub mod Schedule
pub mod Ceremony
pub mod Wiring
pub mod Seen
pub mod Quiet
pub mod Completion
pub mod Rest
pub mod Readiness
pub mod Recheck
pub mod Refreshing
pub mod Leasing
pub mod Orders
pub mod Flush
pub mod Flushes
use go_certs_manager.Base.{
  Bool, List, Option, Text, any, false, if◌then◌else◌, ltb, none, some, text_eq, true, ℕ, ◌*◌, ◌+◌,
  ◌==◌, ◌||◌,
}
use go_certs_manager.Budget.{
  RetryBudget, allow, allowed, block, panics, record_failure, refused, reset, second,
}
use go_certs_manager.CertCache.{
  CertCache, Stored, absent_from_storage, built_not_stored, hold, leaf_not_after, not_built,
  refresh, store, stored,
}
use go_certs_manager.Dane.Controller.{DaneController}
use go_certs_manager.Effects.{
  Certificate, Content, Error, Prog, Result, Signer, ask_leader, budget_exhausted, ca_failed,
  do_call, err, lease_held, ok, on_ok, panicked, ret, storage_unavailable, time_now, ◌>>=◌,
}
use go_certs_manager.Issuer.{issue}
use go_certs_manager.KeyStore.{KeyStore, load_or_create_account_key}
use go_certs_manager.Layout.{cert_domain}
use go_certs_manager.Lease.{IssueLeaser, Release, acquire, nothing, run_release}

pub record Manager : Type 0 where
  pub clustered : Bool
  pub domains : List Text
  pub key_store : KeyStore
  pub cert_cache : CertCache
  pub retries : Option RetryBudget
  pub leaser : Option IssueLeaser
  pub dane : Option DaneController
  pub renew_before : ℕ
  pub issuer : Option Bool

-- `issuer` is whether one has been built, and then whether its account is registered.

pub data Issued : Type 0 where
  issued : Certificate → Issued
  not_persisted : Certificate → Issued
  failed : Error → Issued

-- isLeader
unfoldable pub is_leader : Manager → Prog Bool
is_leader m = if m.clustered then do_call ask_leader else ret true

-- The configured domains under their one spelling: `m.domainSet[domain]`.
unfoldable pub in_domain_set : Manager → Text → Bool
in_domain_set m domain = any (λ d. text_eq d domain) m.domains

-- acquireIssueLease: a companion takes its domain's lease.
unfoldable pub acquire_issue_lease : Manager → Text → Prog (Option Release)
acquire_issue_lease m domain = elim m.leaser [
  | none ↦ ret (some nothing)
  | some l ↦ acquire l (cert_domain domain)
]

unfoldable pub release_issue_lease : Manager → Release → Prog (Unit {0})
release_issue_lease m r = elim m.leaser [ none ↦ ret tt | some l ↦ run_release l.node_id r ]

-- ensureIssuer
unfoldable pub ensure_issuer : Manager → Prog (Result Bool × Manager)
ensure_issuer m = elim m.issuer [
  | some registered ↦ ret (ok registered, m)
  | none ↦ do
    account ← load_or_create_account_key m.key_store
    on_ok account (λ e. ret (err e, m)) λ key'. ret (ok false, record m { issuer = some false })
]

abbrev pub default_rate_limit_backoff : ℕ
default_rate_limit_backoff = 3600 * second

-- rateLimitedUntil, the clock read only where the source reads it.
unfoldable pub rate_limit_wait : Error → Option ℕ
rate_limit_wait (ca_failed status (some wait)) =
    some (if wait == 0 then default_rate_limit_backoff else wait)
rate_limit_wait _ = none

unfoldable pub block_until : Text → Option ℕ → Manager → Prog Manager
block_until domain none m = ret m
block_until domain (some wait) m = do
  now ← do_call time_now
  ret (record m { retries = block domain (now + wait) m.retries })

unfoldable pub charge_failure : Text → Manager → Prog Manager
charge_failure domain m = do
  now ← do_call time_now
  ret (record m { retries = record_failure now domain m.retries })

-- What `Store` has done with the chain that the CA issued.
unfoldable pub settle : Text → Content → Stored × CertCache → Manager → Prog (Issued × Manager)
unfolding charge_failure hold
settle domain data' (stored cert, c) m =
    ret (issued cert, record m { cert_cache = c; retries = reset domain m.retries })
settle domain data' (not_built e, c) m = do
  m' ← charge_failure domain (record m { cert_cache = c })
  ret (failed e, m')
settle domain data' (built_not_stored cert, c) m = do
  m' ← charge_failure domain (record m { cert_cache = c })
  ret (not_persisted cert, record m' { cert_cache = hold domain cert data' m'.cert_cache })

unfoldable pub order_with :
    Text → Signer → Manager → Result Content × Bool → Prog (Issued × Manager)
unfolding charge_failure block_until rate_limit_wait store settle
order_with domain signer m (err e, registered) = do
  m' ← charge_failure domain (record m { issuer = some registered })
  m'' ← block_until domain (rate_limit_wait e) m'
  ret (failed e, m'')
order_with domain signer m (ok data', registered) = do
  kept ← store domain data' signer m.cert_cache
  settle domain data' kept (record m { issuer = some registered })

-- From the decision to order on.
unfoldable pub order_now : Text → Signer → Manager → Prog (Issued × Manager)
unfolding ensure_issuer charge_failure issue order_with
order_now domain signer m = do
  (ready, m1) ← ensure_issuer m
  on_ok ready (λ e. do m2 ← charge_failure domain m1; ret (failed e, m2))
      λ registered. do
        got ← issue m1.cert_cache.prefix registered domain signer
        order_with domain signer m1 got

-- Whether what memory holds for the name lies outside the renewal window.
unfoldable pub is_fresh : ℕ → Text → Manager → Bool
is_fresh now domain m = elim (leaf_not_after domain m.cert_cache) [
  | none ↦ false
  | some t ↦ ltb (now + m.renew_before) t
]

-- The last look at storage, under the lease: only "none", or a chain that is due, leads on, unless
-- the operator forces the order.
unfoldable pub recheck :
    Text → Signer → Bool → Manager → Result Certificate → Prog (Issued × Manager)
unfolding order_now is_fresh absent_from_storage
recheck domain signer force m (ok cert) = if force then order_now domain signer m else (do
  now ← do_call time_now
  if is_fresh now domain m then ret (issued cert, m) else order_now domain signer m)
recheck domain signer force m (err e) =
    if force || absent_from_storage e
    then order_now domain signer m
    else ret (failed storage_unavailable, m)

unfoldable pub under_lease : Text → Signer → Bool → Manager → Prog (Issued × Manager)
unfolding refresh recheck
under_lease domain signer force m = do
  (found, c) ← refresh m.key_store domain m.cert_cache
  recheck domain signer force (record m { cert_cache = c }) found

-- Another node holds the lease: its certificate is served, if it is there and none was forced.
unfoldable pub without_lease : Text → Bool → Manager → Prog (Issued × Manager)
unfolding refresh
without_lease domain force m = do
  (found, c) ← refresh m.key_store domain m.cert_cache
  let m' = record m { cert_cache = c }
  on_ok found (λ e. ret (failed lease_held, m'))
      λ cert. if force then ret (failed lease_held, m') else ret (issued cert, m')

unfoldable pub with_lease :
    Text → Signer → Bool → Manager → Option Release → Prog (Issued × Manager)
unfolding under_lease without_lease release_issue_lease
with_lease domain signer force m none = without_lease domain force m
with_lease domain signer force m (some r) = do
  (result, m') ← under_lease domain signer force m
  _ ← release_issue_lease m r
  ret (result, m')

-- issueWithKey
unfoldable pub issue_with_key : Text → Signer → Bool → Manager → Prog (Issued × Manager)
unfolding acquire_issue_lease with_lease
issue_with_key domain signer force m = do
  now ← do_call time_now
  let (v, budget) = allow now domain m.retries
  let m' = record m { retries = budget }
  elim v [
    | allowed ↦ do lease ← acquire_issue_lease m' domain; with_lease domain signer force m' lease
    | refused w ↦ ret (failed budget_exhausted, m')
    | panics ↦ ret (failed panicked, m')
  ]
