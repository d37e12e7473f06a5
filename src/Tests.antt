-- ===== src/Tests.antt =====
-- The results about orders, leases, keys and DANE (issuer.go, manager.go, scheduler.go, lease.go,
-- keystore.go, dane_controller.go) at one concrete input each.
pub mod Admin
pub mod Stock
pub mod Budgets
pub mod Runs
pub mod Disk
pub mod DiskLaws
pub mod Files
pub mod Serving
pub mod Nodes
use go_certs_manager.Layout
use go_certs_manager.Base.{
  List, Option, Text, [], ap, codes, false, none, refl, some, sym, text_dec, to_lower, true, ◌*◌,
  ◌↔◌, ◌∷◌, ◌≡◌,
}
use go_certs_manager.Budget.{RetryBudget, second}
use go_certs_manager.CertCache.{CertCache, PendingPersist, build_certificate, chain_key, store}
use go_certs_manager.CertCache.Build.{Paired, build_certificate-Paired}
use go_certs_manager.CertCache.Storing.{IsStored, MayStore, note_try, store-IsStored}
use go_certs_manager.Dane.{
  TlsaRecord, has_digest, marshal_retiring, new_spki_record, parse_retiring, retiring_object_name,
}
use go_certs_manager.Dane.Controller.{
  DaneController, gate_issuance, mark_in, matches, records_for_host,
}
use go_certs_manager.Dane.Desired.{IsComplete, MayAsk, note_told, records_for_host-IsComplete}
use go_certs_manager.Dane.Drift.{Agree, matches-Agree}
use go_certs_manager.Dane.Gate.{IsGated, MayHear, gate_issuance-IsGated, note_heard, nothing_heard}
use go_certs_manager.Dane.Markers.{
  IsMarked, MayMark, mark_in-IsMarked, note_written, parse_retiring-marshal_retiring,
}
use go_certs_manager.Effects.{
  Block, Certificate, Content, LookupResult, RetiringRecord, Signer, certificate, ecdsa_p256, ok,
  pem_chain,
}
use go_certs_manager.Effects.Logic.{Safe}
use go_certs_manager.Issuer.{fulfill_authorization, obtain_order}
use go_certs_manager.Issuer.Answer.{
  IsWithdrawn, MayAnswer, fulfill_authorization-IsWithdrawn, note_answering,
}
use go_certs_manager.Issuer.Journal.{IsFound, MayPlace, note_order, obtain_order-IsFound}
use go_certs_manager.KeyStore.{
  KeyStore, cert_key_name, load_or_create, next_cert_key_name, promote_next_cert_key,
}
use go_certs_manager.KeyStore.Once.{
  IsPromoted, MayCreate, MayPromote, ReadsBack, load_or_create-ReadsBack, note_answer,
  note_promotion, promote_next_cert_key-IsPromoted,
}
use go_certs_manager.Lease.{IssueLeaser, acquire, lease_key, release_lease, run_release}
use go_certs_manager.Lease.Takeover.{
  IsClaimed, MayClaim, MayRelease, NoRecord, acquire-IsClaimed, note_attempt, note_record,
  run_release-MayRelease, untried,
}
use go_certs_manager.Manager.{Manager, issue_with_key}
use go_certs_manager.Manager.Flush.{IsReported, MayFlush, note_flush}
use go_certs_manager.Manager.Flushes.{chain_slot, flush_one-IsReported}
use go_certs_manager.Manager.Orders.{issue_with_key-Ordering}
use go_certs_manager.Manager.Schedule.{flush_one}
use go_certs_manager.Manager.Seen.{MayOrder, learn, nothing_seen}
use go_certs_manager.Manager.Wiring.{IsWired}

abbrev pub host : Text
host = codes "mail.example"

abbrev pub certs : Text
certs = codes "tls/"

abbrev pub keys : KeyStore
keys = record { prefix = codes "tls/"; key_type = ecdsa_p256; clustered = true }

abbrev pub leaser : IssueLeaser
leaser = record {
  has_backend = true;
  prefix = codes "tls/";
  node_id = codes "node-1";
  ttl = 300 * second;
}

abbrev pub budget : RetryBudget
budget = record { max = 3; failures = []; blocked = [] }

abbrev controller : DaneController
controller = record {
  key_store = keys;
  has_backend = true;
  has_lookup = true;
  prefix = codes "tls/";
  mx_hosts = host ∷ [];
  ttl = 3600;
  soak = 48 * (3600 * second);
}

abbrev pub cache : CertCache
cache = record { prefix = codes "tls/"; mem = []; neg = []; pending = []; from_local = [] }

abbrev pub node : Manager
node = record {
  clustered = true;
  domains = host ∷ [];
  key_store = keys;
  cert_cache = cache;
  retries = some budget;
  leaser = some leaser;
  dane = some controller;
  renew_before = 30 * (24 * (3600 * second));
  issuer = none;
}

abbrev pub fresh_key : Signer
fresh_key = record { kind = ecdsa_p256; spki = codes "ab12" }

abbrev issued_blocks : List Block
issued_blocks =
    certificate (record { spki = codes "ab12"; not_after = 90 * (24 * (3600 * second)) }) ∷ []

abbrev issued_chain : Content
issued_chain = pem_chain issued_blocks

abbrev held : PendingPersist
held = record { chain_pem = issued_chain; not_after = 90 * (24 * (3600 * second)) }

leaser_prefix : Option IssueLeaser → Text
leaser_prefix none = []
leaser_prefix (some l) = l.prefix

node-IsWired : IsWired certs node
unfolding leaser_prefix
node-IsWired = (refl, refl, λ l e. ap leaser_prefix (sym e))

issue_with_key-Ordering_example :
    Safe
      (MayOrder certs host false node)
      (learn certs host)
      (λ h a. Unit {0})
      nothing_seen
      (issue_with_key host fresh_key false node)
issue_with_key-Ordering_example =
    issue_with_key-Ordering certs host false node fresh_key node-IsWired

flush_one-IsReported_example :
    Safe
      (MayFlush (chain_slot certs host held) held)
      (note_flush (chain_slot certs host held) held)
      (IsReported (chain_slot certs host held) held)
      (none, false)
      (flush_one host held node)
flush_one-IsReported_example = flush_one-IsReported certs host held node node-IsWired

obtain_order-IsFound_example :
    Safe
      (MayPlace certs host host (codes "ab12"))
      note_order
      (IsFound certs host host (codes "ab12"))
      (record { journal = none; known = none; now = 7; placed = none })
      (obtain_order certs host host (codes "ab12"))
obtain_order-IsFound_example = obtain_order-IsFound certs host host (codes "ab12") 7

acquire-IsClaimed_example :
    Safe
      (MayClaim leaser (lease_key leaser host))
      note_attempt
      (IsClaimed (lease_key leaser host))
      untried
      (acquire leaser host)
acquire-IsClaimed_example = acquire-IsClaimed leaser host refl

run_release-MayRelease_example :
    Safe
      (MayRelease (codes "node-1") (codes "tls/locks/issue/mail.example"))
      note_record
      NoRecord
      none
      (run_release (codes "node-1") (release_lease (codes "tls/locks/issue/mail.example")))
run_release-MayRelease_example =
    run_release-MayRelease (codes "node-1") (codes "tls/locks/issue/mail.example")

records_for_host-IsComplete_example :
    Safe (MayAsk controller host) note_told IsComplete ([], 5) (records_for_host controller host)
records_for_host-IsComplete_example = records_for_host-IsComplete controller host 5

gate_issuance-IsGated_example :
    Safe
      (MayHear controller host)
      note_heard
      (IsGated to_lower controller host)
      nothing_heard
      (gate_issuance to_lower (some controller) host)
gate_issuance-IsGated_example = gate_issuance-IsGated to_lower controller host

abbrev wanted : List TlsaRecord
wanted = new_spki_record host (codes "ab12") 3600 ∷ []

abbrev seen_in_dns : LookupResult
seen_in_dns = record {
  rrs =
      record { usage = 3; selector = 1; matching_type = 1; cert = codes "ab12" }
      ∷ record { usage = 2; selector = 0; matching_type = 1; cert = codes "ff" }
      ∷ [];
  authenticated = false;
}

matches-Agree_example : (matches wanted seen_in_dns ≡ true) ↔ Agree wanted seen_in_dns
matches-Agree_example = matches-Agree wanted seen_in_dns

load_or_create-ReadsBack_example :
    Safe
      (MayCreate (codes "tls/keys/mail.example"))
      note_answer
      ReadsBack
      none
      (load_or_create keys (codes "tls/keys/mail.example") ecdsa_p256)
load_or_create-ReadsBack_example =
    load_or_create-ReadsBack (codes "tls/keys/mail.example") keys ecdsa_p256

promote_next_cert_key-IsPromoted_example :
    Safe
      (MayPromote (cert_key_name keys host) (next_cert_key_name keys host))
      note_promotion
      IsPromoted
      (none, false)
      (promote_next_cert_key keys host)
promote_next_cert_key-IsPromoted_example = promote_next_cert_key-IsPromoted keys host

abbrev built : Certificate
built = record {
  chain =
      certificate (record { spki = codes "ab12"; not_after = 90 * (24 * (3600 * second)) }) ∷ [];
  private_key = fresh_key;
  leaf = record { spki = codes "ab12"; not_after = 90 * (24 * (3600 * second)) };
}

build_certificate-Paired_example :
    (build_certificate (pem_chain issued_blocks) fresh_key ≡ ok built)
    ↔ Paired issued_blocks fresh_key built
build_certificate-Paired_example = build_certificate-Paired issued_blocks fresh_key built

fulfill_authorization-IsWithdrawn_example :
    Safe
      (MayAnswer certs host (codes "https://ca.example/authz/1"))
      note_answering
      IsWithdrawn
      (record { authz = none; mirrored = none; withdrawn = false })
      (fulfill_authorization certs host (codes "https://ca.example/authz/1"))
fulfill_authorization-IsWithdrawn_example =
    fulfill_authorization-IsWithdrawn certs host (codes "https://ca.example/authz/1")

abbrev marks : List RetiringRecord
marks =
    record { digest = codes "aa"; retire_after = 9 }
    ∷ record { digest = codes "bb"; retire_after = 12 }
    ∷ []

parse_retiring-marshal_retiring_example : parse_retiring (marshal_retiring marks) ≡ ok marks
unfolding has_digest text_dec
parse_retiring-marshal_retiring_example = parse_retiring-marshal_retiring marks (refl, (refl, tt))

mark_in-IsMarked_example :
    Safe
      (MayMark (retiring_object_name (codes "tls/") host))
      note_written
      (IsMarked (codes "cc") (10 * second) marks)
      none
      (mark_in controller host (codes "cc") (10 * second) marks)
unfolding has_digest text_dec
mark_in-IsMarked_example =
    mark_in-IsMarked controller host (codes "cc") (10 * second) marks refl (refl, (refl, tt))

store-IsStored_example :
    Safe
      (MayStore (chain_key cache host) issued_chain fresh_key)
      note_try
      (IsStored host issued_chain fresh_key cache)
      (0, false)
      (store host issued_chain fresh_key cache)
store-IsStored_example = store-IsStored host issued_chain fresh_key cache
