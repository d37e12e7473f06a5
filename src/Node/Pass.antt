-- ===== src/Node/Pass.antt =====
-- maintainOnce of scheduler.go: the steps of one maintenance pass, in their order.
use go_certs_manager.Base.{Bool, List, Text, [], false, if◌then◌else◌, none, some, true, ◌++◌, ◌∷◌}
use go_certs_manager.Dane.Controller.{cleanup_expired_retiring, verify_published}
use go_certs_manager.Effects.{Prog, ret, ◌>>=◌}
use go_certs_manager.Layout.{cert_domain}
use go_certs_manager.Manager.{in_domain_set, is_leader}
use go_certs_manager.Manager.Ceremony.{reconcile_ceremony}
use go_certs_manager.Manager.Schedule.{flush_held_chains, maintain_companion, renew_if_needed}
use go_certs_manager.Node.{Node, record_issued, refresh_node, with_manager}
use go_certs_manager.Node.Maintain.{maintain_on_demand}
use go_certs_manager.Node.Restore.{restore_missing_chains}

module _ (normalise : Text → Text) where
  -- announceStoredChains
  unfoldable pub announce_chain : Text → Node → Prog Node
  announce_chain domain n =
      if in_domain_set n.manager (cert_domain domain) then ret n else record_issued domain n

  unfoldable pub announce_chains : List Text → Node → Prog Node
  unfolding announce_chain
  announce_chains [] n = ret n
  announce_chains (d ∷ ds) n = announce_chain d n >>= announce_chains ds

  unfoldable pub announce_stored_chains : Bool → List Text → Node → Prog Node
  unfolding announce_chains
  announce_stored_chains leader stored' n =
      if leader
      then (elim n.on_demand [ none ↦ ret n | some o ↦ announce_chains stored' n ])
      else ret n

  -- One configured domain.
  unfoldable pub maintain_primary : Bool → Text → Node → Prog Node
  maintain_primary true domain n = do
    m1 ← reconcile_ceremony normalise domain n.manager
    (result, m2) ← renew_if_needed normalise domain m1
    ret (with_manager m2 n)
  maintain_primary false domain n = do (found, n') ← refresh_node domain n; ret n'

  unfoldable pub maintain_domain : Bool → Text → Node → Prog Node
  unfolding maintain_primary
  maintain_domain leader domain n = do
    n1 ← maintain_primary leader domain n
    if n1.rsa_companion
        then (do m ← maintain_companion normalise leader domain n1.manager; ret (with_manager m n1))
        else ret n1

  unfoldable pub maintain_domains : Bool → List Text → Node → Prog Node
  unfolding maintain_domain
  maintain_domains leader [] n = ret n
  maintain_domains leader (d ∷ ds) n = maintain_domain leader d n >>= maintain_domains leader ds

  unfoldable pub maintain_dane : Bool → Node → Prog (Unit {0})
  maintain_dane leader n = elim n.manager.dane [
    | none ↦ ret tt
    | some d ↦
        if leader
        then (do _ ← cleanup_expired_retiring d; published ← verify_published d; ret tt)
        else ret tt
  ]

  unfoldable pub restore_if_leader : Bool → Node → Prog (List Text × Node)
  unfolding restore_missing_chains
  restore_if_leader leader n = if leader then restore_missing_chains n else ret ([], n)

  -- maintainOnce
  unfoldable pub maintain_once : Node → Prog Node
  unfolding restore_if_leader announce_stored_chains maintain_domains maintain_dane
      maintain_on_demand
  maintain_once n = do
    (flushed, m) ← flush_held_chains n.manager
    let n1 = with_manager m n
    leader ← is_leader n1.manager
    (restored, n2) ← restore_if_leader leader n1
    n3 ← announce_stored_chains leader (flushed ++ restored) n2
    n4 ← maintain_domains leader n3.manager.domains n3
    _ ← maintain_dane leader n4
    maintain_on_demand normalise leader n4
