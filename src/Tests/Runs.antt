-- ===== src/Tests/Runs.antt =====
-- Runs in one concrete world: a storage that keeps what is put, honours the create-only condition and
-- answers with the definite "none", for keystore.go and lease.go.
use go_certs_manager.Base.{
  Map, Text, [], codes, if◌then◌else◌, insert, lookup, none, refl, remove, some, text_dec, to_lower,
  true, ℕ, ◌*◌, ◌∷◌, ◌≡◌,
}
use go_certs_manager.Budget.{second}
use go_certs_manager.Effects.{
  Content, Signer, accept_challenge, ask_leader, authorize_order, ca_unreachable, conditional_put,
  ecdsa_p256, enumerate, enumerate_failed, err, fetch_cert, finalize_order, generate_key,
  get_authorization, get_object, get_order, lease_json, list_objects, lock, lookup_cname,
  lookup_failed, lookup_host, lookup_tlsa, not_exist, ok, put_object, register_account,
  remove_object, sleep, stat_object, time_now, try_lock, unlock, wait_authorization, wait_order,
}
use go_certs_manager.Effects.World.{Handler, run}
use go_certs_manager.KeyStore.{
  after_create, can_create, create, load, load_or_create, load_or_create_from, loaded,
  parse_key_pem, put, read_failure,
}
use go_certs_manager.Lease.{
  IssueLeaser, acquire, decide, inspect, lease_key, parse_lease, read, read_result, release_lease,
  take_over, try_create, unix,
}
use go_certs_manager.Tests.{host, keys}

abbrev fresh : Signer
fresh = record { kind = ecdsa_p256; spki = codes "ab" }

-- A clock at one reading, a leader, and the objects stored.
unfoldable storage_answer : ℕ → Handler (Map Content)
storage_answer now (get_object k) w =
    (elim (lookup k w) [ none ↦ err not_exist | some c ↦ ok c ], w)
storage_answer now (put_object k c o) w = elim (lookup k w) [
  | none ↦ (ok tt, insert k c w)
  | some old ↦ if o.if_none_match then (err conditional_put, w) else (ok tt, insert k c w)
]
storage_answer now (remove_object k) w = (ok tt, remove k w)
storage_answer now (stat_object k) w =
    (ok (record { key = k; etag = codes "1"; last_modified = 0 }), w)
storage_answer now (list_objects p) w = (ok [], w)
storage_answer now time_now w = (now, w)
storage_answer now ask_leader w = (true, w)
storage_answer now (generate_key t) w = (ok fresh, w)
storage_answer now (lookup_tlsa h) w = (err lookup_failed, w)
storage_answer now register_account w = (ok tt, w)
storage_answer now (authorize_order d) w = (err ca_unreachable, w)
storage_answer now (get_order u) w = (err ca_unreachable, w)
storage_answer now (wait_order u) w = (err ca_unreachable, w)
storage_answer now (fetch_cert u) w = (err ca_unreachable, w)
storage_answer now (finalize_order u d s) w = (err ca_unreachable, w)
storage_answer now (get_authorization u) w = (err ca_unreachable, w)
storage_answer now (accept_challenge c) w = (err ca_unreachable, w)
storage_answer now (wait_authorization u) w = (err ca_unreachable, w)
storage_answer now (try_lock d) w = (true, w)
storage_answer now (lock d) w = (tt, w)
storage_answer now (unlock d) w = (tt, w)
storage_answer now enumerate w = (err enumerate_failed, w)
storage_answer now (lookup_cname h) w = (err lookup_failed, w)
storage_answer now (lookup_host h) w = (err lookup_failed, w)
storage_answer now (sleep d) w = (true, w)

-- The first node creates the key, and it is what it reads back.
first_key : (run (storage_answer 0) (load_or_create keys (codes "k") ecdsa_p256) []).0 ≡ ok fresh
unfolding storage_answer run load_or_create load_or_create_from create after_create load loaded
    parse_key_pem read_failure can_create put insert lookup text_dec
first_key = refl

-- The lease is free for the first node, and held against the second until it has expired.
abbrev other : IssueLeaser
other = record {
  has_backend = true;
  prefix = codes "tls/";
  node_id = codes "node-2";
  ttl = 300 * second;
}

abbrev object_key : Text
object_key = codes "tls/locks/issue/mail.example"

abbrev held_by_first : Map Content
held_by_first = (object_key, lease_json (record { owner = codes "node-1"; expires_at = 300 })) ∷ []

second_node_early : (run (storage_answer (10 * second)) (acquire other host) held_by_first).0 ≡ none
unfolding storage_answer run acquire inspect decide read read_result parse_lease try_create
    take_over lease_key unix insert lookup text_dec to_lower
second_node_early = refl

second_node_late :
    (run (storage_answer (300 * second)) (acquire other host) held_by_first).0
    ≡ some (release_lease object_key)
unfolding storage_answer run acquire inspect decide read read_result parse_lease try_create
    take_over lease_key unix insert lookup text_dec to_lower
second_node_late = refl
