-- ===== src/Tests/Nodes.antt =====
-- The results on a whole node (scheduler.go, manager.go) at one concrete node.
use go_certs_manager.Base.{[], codes, false, none, refl, some, true, ℕ, ◌*◌, ◌∷◌, ◌≡◌}
use go_certs_manager.Budget.{second}
use go_certs_manager.Effects.{Certificate, certificate, ecdsa_p256}
use go_certs_manager.Effects.Logic.{Safe, forget}
use go_certs_manager.Node.{Node, record_issued}
use go_certs_manager.Node.Admission.{IsAdmitted, MayAdmit, admit_host-IsAdmitted}
use go_certs_manager.Node.Announced.{MayAnnounce, record_issued-IsAnnounced}
use go_certs_manager.Node.Greeted.{IsGreeted, MayGreet, serve_hello-IsGreeted}
use go_certs_manager.Node.Handshake.{ClientHello, await_certificate, usable}
use go_certs_manager.Node.Hello.{admit_request, serve_hello}
use go_certs_manager.Node.Maintain.{admit_host}
use go_certs_manager.Node.Requested.{IsBudgeted, admit_request-IsBudgeted}
use go_certs_manager.Node.Restorable.{
  IsRestorable, MayRestore, copy_to_restore-IsRestorable, not_known, note_known,
}
use go_certs_manager.Node.Restore.{copy_to_restore}
use go_certs_manager.Node.Waiting.{IsOver, MayWait, await_certificate-IsOver, note_clock}
use go_certs_manager.OnDemand.{hour}
use go_certs_manager.OnDemand.Pointed.{note_dns, unasked}
use go_certs_manager.Tests.{cache, node}
use go_certs_manager.Tests.Serving.{on_demand, server, shop}

abbrev served : Certificate
served = record {
  chain = certificate (record { spki = codes "ab12"; not_after = 90 * (24 * hour) }) ∷ [];
  private_key = record { kind = ecdsa_p256; spki = codes "ab12" };
  leaf = record { spki = codes "ab12"; not_after = 90 * (24 * hour) };
}

abbrev whole : Node
whole = record {
  manager = record node { cert_cache = record cache { mem = (shop, served) ∷ [] } };
  on_demand = some on_demand;
  rsa_companion = true;
  default_domain = codes "mail.example";
  issuing = [];
  challenges = server;
}

-- The other goroutines do nothing.
abbrev alone : ℕ → Node → Node
alone k n = n

abbrev hello : ClientHello
hello = record {
  server_name = codes "Shop.example";
  supported_protos = [];
  supports = λ widened cert. usable;
}

admit_host-IsAdmitted_example :
    Safe
      (MayAdmit shop on_demand)
      note_dns
      (IsAdmitted shop on_demand false)
      (unasked none)
      (admit_host shop false on_demand whole)
admit_host-IsAdmitted_example = admit_host-IsAdmitted shop on_demand false whole

record_issued-IsAnnounced_example :
    Safe
      (MayAnnounce shop whole on_demand)
      forget
      (λ u n'. n'.manager ≡ whole.manager)
      tt
      (record_issued shop whole)
record_issued-IsAnnounced_example = record_issued-IsAnnounced shop whole on_demand refl

await_certificate-IsOver_example :
    Safe MayWait note_clock IsOver
      (record { regular = true; low = 0 })
      (await_certificate alone shop (5 * second) whole)
await_certificate-IsOver_example =
    await_certificate-IsOver alone shop (5 * second) whole (record { regular = true; low = 0 })

serve_hello-IsGreeted_example :
    Safe
      (MayGreet (λ name. false) alone hello whole)
      forget
      (IsGreeted (λ name. false) alone hello whole)
      tt
      (serve_hello (λ name. false) alone hello whole)
serve_hello-IsGreeted_example = serve_hello-IsGreeted (λ name. false) alone hello whole

copy_to_restore-IsRestorable_example :
    Safe
      (MayRestore [] shop whole)
      note_known
      (IsRestorable [] shop whole)
      not_known
      (copy_to_restore [] shop whole)
copy_to_restore-IsRestorable_example = copy_to_restore-IsRestorable [] shop whole

admit_request-IsBudgeted_example :
    Safe
      (MayAdmit shop on_demand)
      note_dns
      (IsBudgeted shop on_demand)
      (unasked none)
      (admit_request shop true whole)
admit_request-IsBudgeted_example = admit_request-IsBudgeted shop on_demand whole refl
