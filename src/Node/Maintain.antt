-- ===== src/Node/Maintain.antt =====
-- The maintenance pass of scheduler.go: maintainOnce, maintainOnDemand and what they call. Left out
-- are the reports to callbacks (reportServed, onDANEMatch) and the local copies.
use go_certs_manager.Base.{
  Bool, List, Option, Text, [], false, if◌then◌else◌, ltb, none, some, true, ◌+◌, ◌∷◌,
}
use go_certs_manager.Bucket.{take as take_token}
use go_certs_manager.CertCache.{absent_from_storage, leaf_not_after}
use go_certs_manager.Effects.{
  Certificate, Prog, Result, do_call, err, ok, on_ok, ret, time_now, ◌>>=◌,
}
use go_certs_manager.Manager.Schedule.{renew_if_needed}
use go_certs_manager.Node.{Node, record_issued, refresh_node, with_manager, with_on_demand}
use go_certs_manager.OnDemand.{OnDemand, hosts}
use go_certs_manager.OnDemand.Index.{
  changed_since, index_not_after, note_refreshed, republish_index_if_dirty,
}
use go_certs_manager.OnDemand.Preflight.{preflight_ok}

-- A follower takes over what the published index says has changed, and notes a hostname only
-- once it has been refreshed.
unfoldable pub follow_host : Text → Node → Prog Node
follow_host host n = do
  (found, n1) ← refresh_node host n
  on_ok found (λ e. ret n1)
      λ cert. (elim n1.on_demand [
        | none ↦ ret n1
        | some o ↦ do o' ← note_refreshed host o; ret (with_on_demand o' n1)
      ])

unfoldable pub follow_hosts : List Text → Node → Prog Node
unfolding follow_host
follow_hosts [] n = ret n
follow_hosts (host ∷ rest) n = follow_host host n >>= follow_hosts rest

unfoldable pub follow_changed : List Text → OnDemand → Node → Prog Node
unfolding follow_hosts
follow_changed names o n = do
  (changed, o') ← changed_since names o
  follow_hosts changed (with_on_demand o' n)

-- The index knows the hostname.
unfoldable pub is_known : OnDemand → Text → Bool
is_known o host = elim (index_not_after o host) [ none ↦ false | some t ↦ true ]

unfoldable pub load_known : OnDemand → Text → Node → Prog Node
unfolding is_known
load_known o host n =
    if is_known o host then (do (found, n') ← refresh_node host n; ret n') else ret n

-- What the leader holds is put into the index, and what the index lists is loaded.
unfoldable pub load_host : Text → OnDemand → Node → Prog Node
unfolding load_known is_known
load_host host o n = elim (leaf_not_after host n.manager.cert_cache) [
  | some t ↦ if is_known o host then ret n else record_issued host n
  | none ↦ load_known o host n
]

unfoldable pub load_hosts : List Text → Node → Prog Node
unfolding load_host
load_hosts [] n = ret n
load_hosts (host ∷ rest) n =
    (elim n.on_demand [ none ↦ ret n | some o ↦ load_host host o n ]) >>= load_hosts rest

-- Which hostnames are due: the renewals and the first issuances. The clock is read for each
-- certificate that there is.
abbrev Due : Type 0
Due = List Text × List Text

unfoldable pub due_hosts : List Text → Node → Prog Due
due_hosts [] n = ret ([], [])
due_hosts (host ∷ rest) n = elim (leaf_not_after host n.manager.cert_cache) [
  | none ↦ do (renewals, fresh') ← due_hosts rest n; ret (renewals, host ∷ fresh')
  | some t ↦ do
    now ← do_call time_now
    (renewals, fresh') ← due_hosts rest n
    ret (if ltb (now + n.manager.renew_before) t then renewals else host ∷ renewals, fresh')
]

-- A first issuance takes a token; a renewal does not.
unfoldable pub admit_first : Result Certificate → Node → Option OnDemand → Prog (Bool × Node)
admit_first (ok cert) n o = ret (true, n)
admit_first (err e) n none = ret (absent_from_storage e, n)
admit_first (err e) n (some o) =
    if absent_from_storage e
    then (do
      now ← do_call time_now
      let (orders', granted) = take_token now o.orders
      ret (granted, with_on_demand (record o { orders = orders' }) n))
    else ret (false, n)

unfoldable pub admit_pointed : Text → Bool → Node → Prog (Bool × Node)
unfolding admit_first
admit_pointed host true n = ret (true, n)
admit_pointed host false n = do (found, n') ← refresh_node host n; admit_first found n' n'.on_demand

-- The guards of `run`, the pre-flight before everything else: whether it goes on to order.
unfoldable pub admit_host : Text → Bool → OnDemand → Node → Prog (Bool × Node)
unfolding admit_pointed
admit_host host is_renewal o n = do
  (reason, o') ← preflight_ok host o
  elim reason [
    | some r ↦ ret (false, with_on_demand o' n)
    | none ↦ admit_pointed host is_renewal (with_on_demand o' n)
  ]

module _ (normalise : Text → Text) where
  -- The order itself, and the announcement of what it stored.
  unfoldable pub issue_host : Text → Node → Prog Node
  issue_host host n = do
    (result, m) ← renew_if_needed normalise host n.manager
    on_ok result (λ e. ret (with_manager m n)) λ x. record_issued host (with_manager m n)

  -- `run`
  unfoldable pub run_host : Text → Bool → OnDemand → Node → Prog Node
  unfolding admit_host issue_host
  run_host host is_renewal o n = do
    (admitted, n') ← admit_host host is_renewal o n
    if admitted then issue_host host n' else ret n'

  unfoldable pub run_hosts : Bool → List Text → Node → Prog Node
  unfolding run_host
  run_hosts is_renewal [] n = ret n
  run_hosts is_renewal (host ∷ rest) n =
      (elim n.on_demand [ none ↦ ret n | some o ↦ run_host host is_renewal o n ])
      >>= run_hosts is_renewal rest

  unfoldable pub lead_hosts : List Text → OnDemand → Node → Prog Node
  unfolding load_hosts due_hosts run_hosts
  lead_hosts names o n = do
    (result, o') ← republish_index_if_dirty o
    n1 ← load_hosts names (with_on_demand o' n)
    (renewals, fresh') ← due_hosts names n1
    n2 ← run_hosts true renewals n1
    run_hosts false fresh' n2

  -- maintainOnDemand
  unfoldable pub maintain_allowed : Bool → List Text → OnDemand → Node → Prog Node
  unfolding lead_hosts follow_changed
  maintain_allowed leader [] o n = ret n
  maintain_allowed true (h ∷ hs) o n = lead_hosts (h ∷ hs) o n
  maintain_allowed false (h ∷ hs) o n = follow_changed (h ∷ hs) o n

  unfoldable pub maintain_on_demand : Bool → Node → Prog Node
  unfolding maintain_allowed
  maintain_on_demand leader n = elim n.on_demand [
    | none ↦ ret n
    | some o ↦ maintain_allowed leader (hosts o) o n
  ]
