-- ===== src/Node/Start.antt =====
-- What a node does when it starts and between maintenance passes: preload and
-- refreshAllowSetIfConfigured of manager.go, refreshAllowSet of ondemand.go. The local copy that
-- preload falls back on is not modelled.
use go_certs_manager.Base.{Bool, List, Option, Text, [], false, none, some, true, ◌++◌, ◌∷◌}
use go_certs_manager.Effects.{Prog, ret, ◌>>=◌}
use go_certs_manager.Manager.{is_leader}
use go_certs_manager.Node.{Node, companion_names, refresh_node, with_on_demand}
use go_certs_manager.OnDemand.{OnDemand, refresh_follower, refresh_leader}
use go_certs_manager.OnDemand.Index.{hydrate_index}

module _ (to_ascii : Text → Option Text) where
  unfoldable pub refresh_as : Bool → OnDemand → Prog OnDemand
  refresh_as true o = refresh_leader to_ascii o
  refresh_as false o = do (result, o') ← refresh_follower to_ascii o; ret o'

  -- refreshAllowSet
  unfoldable pub refresh_allow_set : OnDemand → Node → Prog Node
  unfolding refresh_as
  refresh_allow_set o n = do
    leader ← is_leader n.manager
    o' ← refresh_as leader o
    ret (with_on_demand o' n)

  unfoldable pub start_as : Bool → OnDemand → Prog OnDemand
  start_as true o = hydrate_index o >>= refresh_leader to_ascii
  start_as false o = do (result, o') ← refresh_follower to_ascii o; ret o'

  -- refreshAllowSetIfConfigured
  unfoldable pub refresh_allow_set_if_configured : Node → Prog Node
  unfolding start_as
  refresh_allow_set_if_configured n = elim n.on_demand [
    | none ↦ ret n
    | some o ↦ do leader ← is_leader n.manager; o' ← start_as leader o; ret (with_on_demand o' n)
  ]

-- preload
unfoldable pub preload_names : List Text → Node → Prog Node
preload_names [] n = ret n
preload_names (d ∷ ds) n = do (found, n') ← refresh_node d n; preload_names ds n'

unfoldable pub preload : Node → Prog Node
unfolding preload_names
preload n = preload_names (n.manager.domains ++ companion_names n) n
