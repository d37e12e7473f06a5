-- ===== src/Issuer.antt =====
-- issuer.go, order_journal.go and the storage half of challenge.go: one ACME order, journalled
-- before the CA can charge for it and collected by the next attempt if this one is cut short. The
-- CA (golang.org/x/crypto/acme) is a set of calls.
pub mod Journal
pub mod Answer
use go_certs_manager.Base.{
  Bool, List, Option, Text, [], codes, false, if◌then◌else◌, leb, ltb, none, some, text_eq,
  to_lower, true, ℕ, ◌&&◌, ◌*◌, ◌++◌, ◌+◌, ◌||◌, ◌∷◌,
}
use go_certs_manager.Budget.{second}
use go_certs_manager.Effects.{
  Authorization, Block, Challenge, Content, Error, Order, OrderRecord, Prog, Result, Signer,
  accept_challenge, authorize_order, bad_certificate, ca_failed, certificate, challenge_pem,
  do_call, err, fetch_cert, finalize_order, get_authorization, get_object, get_order, http_01,
  no_cert_url, no_challenge, no_journal, not_exist, ok, on_ok, order_invalid, order_json,
  order_processing, order_valid, other_challenge, overwrite, pem_chain, plain_text, put_object,
  register_account, remove_object, ret, storage_unavailable, time_now, tls_alpn_01, unparseable,
  wait_authorization, wait_order, ◌>>=◌,
}
use go_certs_manager.Layout.{cert_domain}
use go_certs_manager.Lease.{unix}

abbrev pub order_max_age : ℕ
order_max_age = 7 * 24 * 3600 * second

unfoldable pub journal_key : Text → Text → Text
journal_key prefix domain = prefix ++ (codes "orders/" ++ to_lower domain)

-- record: a failure is only logged by the caller.
unfoldable pub record_order : Text → Text → Text → Text → Prog (Result (Unit {0}))
unfolding journal_key unix
record_order prefix domain order_url spki = do
  now ← do_call time_now
  do_call (
      put_object (journal_key prefix domain)
        (order_json (record { order_url = order_url; spki = spki; created_at = unix now }))
        overwrite)

unfoldable pub parse_order : Result Content → Result OrderRecord
parse_order (ok (order_json rec)) = ok rec
parse_order (ok _) = err unparseable
parse_order (err e) = err e

unfoldable pub load_order : Text → Text → Prog (Result OrderRecord)
unfolding journal_key parse_order
load_order prefix domain = do
  got ← do_call (get_object (journal_key prefix domain))
  ret (parse_order got)

unfoldable pub clear_order : Text → Text → Prog (Unit {0})
unfolding journal_key
clear_order prefix domain = do _ ← do_call (remove_object (journal_key prefix domain)); ret tt

-- A record that names no order, or is a week old, is not worth resuming.
unfoldable pub is_stale : ℕ → OrderRecord → Bool
is_stale now rec = ltb (rec.created_at * second + order_max_age) now

-- Whether an order that the CA still knows can be collected.
unfoldable pub is_dead : ℕ → Order → Bool
is_dead now o = elim o.status [
  | order_invalid ↦ true
  | _ ↦ elim o.expires [ none ↦ false | some end' ↦ ltb end' now ]
]

-- GetOrder has answered: a 4xx means that the CA no longer knows the order.
unfoldable pub forgotten : Error → Bool
forgotten (ca_failed status wait) = leb 400 status && ltb status 500
forgotten _ = false

unfoldable pub resume_known : Text → Text → Result Order → Prog (Result (Option Order))
unfolding clear_order is_dead forgotten
resume_known prefix name (err e) =
    if forgotten e then (do _ ← clear_order prefix name; ret (ok none)) else ret (err e)
resume_known prefix name (ok o) = do
  now ← do_call time_now
  if is_dead now o then (do _ ← clear_order prefix name; ret (ok none)) else ret (ok (some o))

unfoldable pub resume_record : Text → Text → Text → OrderRecord → Prog (Result (Option Order))
unfolding clear_order is_stale resume_known
resume_record prefix name spki rec = do
  now ← do_call time_now
  if text_eq rec.order_url [] || is_stale now rec
      then (do _ ← clear_order prefix name; ret (ok none))
      else if text_eq rec.spki spki
      then (do known ← do_call (get_order rec.order_url); resume_known prefix name known)
      else ret (ok none)

-- resumeOrder: the outstanding order for this key, if there is one; a journal that cannot be read
-- is an error, for a second order must not follow from it.
unfoldable pub resume_from : Text → Text → Text → Result OrderRecord → Prog (Result (Option Order))
unfolding resume_record
resume_from prefix name spki (ok rec) = resume_record prefix name spki rec
resume_from prefix name spki (err not_exist) = ret (ok none)
resume_from prefix name spki (err no_journal) = ret (ok none)
resume_from prefix name spki (err e) = ret (err storage_unavailable)

unfoldable pub resume_order : Text → Text → Text → Prog (Result (Option Order))
unfolding load_order resume_from
resume_order prefix name spki = do rec ← load_order prefix name; resume_from prefix name spki rec

unfoldable pub fetch : Order → Prog (Result (List Block))
fetch o = if text_eq o.cert_url [] then ret (err no_cert_url) else do_call (fetch_cert o.cert_url)

-- pickChallenge: tls-alpn-01 wins, else the last http-01.
unfoldable pub pick_from : Option Challenge → List Challenge → Option Challenge
pick_from http [] = http
pick_from http (c ∷ cs) = elim c.type [
  | tls_alpn_01 ↦ some c
  | http_01 ↦ pick_from (some c) cs
  | other_challenge ↦ pick_from http cs
]

unfoldable pub pick_challenge : List Challenge → Option Challenge
unfolding pick_from
pick_challenge = pick_from none

-- Where the answer to a challenge is mirrored, and what is stored there.
unfoldable pub challenge_key : Text → Text → Challenge → Text
challenge_key prefix domain c = elim c.type [
  | tls_alpn_01 ↦ prefix ++ (codes "challenges/alpn/" ++ to_lower domain)
  | _ ↦ prefix ++ (codes "challenges/http/" ++ c.token)
]

unfoldable pub challenge_content : Challenge → Content
challenge_content c = elim c.type [ tls_alpn_01 ↦ challenge_pem c | _ ↦ plain_text c ]

-- The accepted challenge is withdrawn when the attempt ends, however it ends.
unfoldable pub answer_challenge : Text → Text → Authorization → Challenge → Prog (Result (Unit {0}))
unfolding challenge_key challenge_content
answer_challenge prefix domain authz c = do
  mirrored ← do_call (put_object (challenge_key prefix domain c) (challenge_content c) overwrite)
  on_ok mirrored (λ e. ret (err e))
      λ _. do
        accepted ← do_call (accept_challenge c)
        outcome ← on_ok accepted (λ e. ret (err e)) (λ _. do_call (wait_authorization authz.uri))
        _ ← do_call (remove_object (challenge_key prefix domain c))
        ret outcome

unfoldable pub fulfill_authorization : Text → Text → Text → Prog (Result (Unit {0}))
unfolding pick_challenge answer_challenge
fulfill_authorization prefix domain url = do
  got ← do_call (get_authorization url)
  on_ok got (λ e. ret (err e))
      λ authz. if authz.authorized then ret (ok tt) else elim (pick_challenge authz.challenges) [
        | none ↦ ret (err no_challenge)
        | some c ↦ answer_challenge prefix domain authz c
      ]

unfoldable pub fulfill_all : Text → Text → List Text → Prog (Result (Unit {0}))
unfolding fulfill_authorization
fulfill_all prefix domain [] = ret (ok tt)
fulfill_all prefix domain (url ∷ urls) = do
  done ← fulfill_authorization prefix domain url
  on_ok done (λ e. ret (err e)) λ _. fulfill_all prefix domain urls

unfoldable pub validate_and_finalize : Text → Text → Order → Signer → Prog (Result (List Block))
unfolding fulfill_all
validate_and_finalize prefix domain o signer = do
  done ← fulfill_all prefix domain o.authz_urls
  on_ok done (λ e. ret (err e)) λ _. do_call (finalize_order o.finalize_url domain signer)

-- complete: from whatever state the order is in to its certificate.
unfoldable pub complete : Text → Text → Order → Signer → Prog (Result (List Block))
unfolding fetch validate_and_finalize
complete prefix domain o signer = elim o.status [
  | order_valid ↦ fetch o
  | order_processing ↦ do
    waited ← do_call (wait_order o.uri)
    on_ok waited (λ e. ret (err e)) λ done. fetch done
  | _ ↦ validate_and_finalize prefix domain o signer
]

-- A DER certificate goes into a block of type CERTIFICATE, whether it parses or not.
unfoldable pub encode_chain : List Block → List Block
encode_chain [] = []
encode_chain (certificate l ∷ bs) = certificate l ∷ encode_chain bs
encode_chain (_ ∷ bs) = bad_certificate ∷ encode_chain bs

unfoldable pub place : Text → Text → Text → Text → Prog (Result Order)
unfolding record_order
place prefix name domain spki = do
  placed ← do_call (authorize_order domain)
  on_ok placed (λ e. ret (err e)) λ o. do _ ← record_order prefix name o.uri spki; ret (ok o)

unfoldable pub collect : Text → Text → Text → Signer → Result Order → Prog (Result Content)
unfolding complete clear_order encode_chain
collect prefix name domain signer (err e) = ret (err e)
collect prefix name domain signer (ok o) = do
  ders ← complete prefix domain o signer
  on_ok ders (λ e. ret (err e))
      λ bs. do _ ← clear_order prefix name; ret (ok (pem_chain (encode_chain bs)))

-- The order to complete: the outstanding one, or a new one.
unfoldable pub obtain_order : Text → Text → Text → Text → Prog (Result Order)
unfolding resume_order place
obtain_order prefix name domain spki = do
  outstanding ← resume_order prefix name spki
  on_ok outstanding (λ e. ret (err e))
      λ known. elim known [ some o ↦ ret (ok o) | none ↦ place prefix name domain spki ]

-- ensureRegistered: once per issuer.
unfoldable pub ensure_registered : Bool → Prog (Result (Unit {0}))
ensure_registered registered = if registered then ret (ok tt) else do_call register_account

-- Issue: the chain, and whether the account is registered from now on.
unfoldable pub issue : Text → Bool → Text → Signer → Prog (Result Content × Bool)
unfolding ensure_registered obtain_order collect
issue prefix registered name' signer = do
  let name = to_lower name'
  let domain = cert_domain name
  ready ← ensure_registered registered
  on_ok ready (λ e. ret (err e, registered))
      λ _. do
        found ← obtain_order prefix name domain signer.spki
        chain_pem ← collect prefix name domain signer found
        ret (chain_pem, true)
