-- ===== src/Node.antt =====
-- One node as a whole: the manager with its on-demand half. `Node.Maintain` is the maintenance pass
-- of scheduler.go, `Node.Restore` its restoring of lost chains, `Node.Handshake` what manager.go
-- does for a TLS handshake. The goroutines that a pass starts are run one after another, in the
-- order in which they are started.
pub mod Restore
pub mod Maintain
pub mod Pass
pub mod Admission
pub mod Announced
pub mod Handshake
pub mod Hello
pub mod Waiting
pub mod Looks
pub mod Greeted
pub mod Restorable
pub mod Start
pub mod Requested
use go_certs_manager.Base.{
  Bool, List, Map, Option, Text, [], false, if◌then◌else◌, keep_if, keys, map, none, not, some,
  sort_texts, ℕ, ◌++◌, ◌||◌,
}
use go_certs_manager.CertCache.{CertCache, is_pending, leaf_not_after, refresh}
use go_certs_manager.Challenge.{ChallengeServer}
use go_certs_manager.Effects.{Certificate, Prog, Result, ret, ◌>>=◌}
use go_certs_manager.Layout.{companion}
use go_certs_manager.Manager.{Manager, in_domain_set}
use go_certs_manager.Names.{set_of}
use go_certs_manager.OnDemand.{OnDemand, allows, hosts}
use go_certs_manager.OnDemand.Index.{note_issued}

pub record Node : Type 0 where
  pub manager : Manager
  pub on_demand : Option OnDemand
  pub rsa_companion : Bool
  pub default_domain : Text
  pub issuing : Map (Unit {0})
  pub challenges : ChallengeServer

abbrev pub with_cache : CertCache → Node → Node
with_cache c n = record n { manager = record n.manager { cert_cache = c } }

abbrev pub with_manager : Manager → Node → Node
with_manager m n = record n { manager = m }

abbrev pub with_on_demand : OnDemand → Node → Node
with_on_demand o n = record n { on_demand = some o }

-- The on-demand hostnames allowed now; none without the on-demand half.
unfoldable pub on_demand_hosts_of : Node → List Text
on_demand_hosts_of n = elim n.on_demand [ none ↦ [] | some o ↦ hosts o ]

-- `certCache.Refresh`
unfoldable pub refresh_node : Text → Node → Prog (Result Certificate × Node)
refresh_node name n = do
  (found, c) ← refresh n.manager.key_store name n.manager.cert_cache
  ret (found, with_cache c n)

-- recordIssued
unfoldable pub note_issued_on : Text → ℕ → Node → Option OnDemand → Prog Node
note_issued_on host not_after n none = ret n
note_issued_on host not_after n (some o) = do
  (result, o') ← note_issued host not_after o
  ret (with_on_demand o' n)

unfoldable pub record_issued : Text → Node → Prog Node
unfolding note_issued_on
record_issued host n =
    if is_pending host n.manager.cert_cache
    then ret n
    else (elim (leaf_not_after host n.manager.cert_cache) [
      | none ↦ ret n
      | some not_after ↦ note_issued_on host not_after n n.on_demand
    ])

-- servedNames: the configured names in order, then the on-demand hostnames that are not among them.
unfoldable pub served_names : Node → List Text
unfolding on_demand_hosts_of
served_names n =
    sort_texts (keys (set_of n.manager.domains))
    ++ keep_if (λ h. not (in_domain_set n.manager h)) (on_demand_hosts_of n)

-- companionNames
unfoldable pub companion_names : Node → List Text
companion_names n = if n.rsa_companion then map companion n.manager.domains else []

-- allowsName
unfoldable pub allows_name : Node → Text → Bool
allows_name n server_name =
    in_domain_set n.manager server_name
    || (elim n.on_demand [ none ↦ false | some o ↦ allows o server_name ])
