-- ===== src/Effects.antt =====
-- What the program asks of the world, and what it may be told. A function of the source that does
-- I/O is a `Prog`: it returns, or makes one call and goes on with the reply. The calls are those of
-- storage.Backend (storage/interface.go), of the clock, of the leadership predicate, of the
-- certificate authority, of DNS, of the authority on on-demand hostnames and of the per-domain mutex; every interleaving with other nodes lies between two calls.
-- The stored bytes are represented by what they decode to (`Content`), a private key by its kind
-- and the digest of its public key, and a certificate by what the program reads of it.
pub mod Logic
pub mod World
use go_certs_manager.Base.{
  Bool, List, Map, Option, Text, [], false, inl, inr, refl, true, ℕ, ◌≡◌, ◌⊎◌,
}

pub data KeyType : Type 0 where
  ecdsa_p256 rsa_2048 : KeyType

-- crypto.Signer; `spki` is the lowercase hex SHA-256 of its SubjectPublicKeyInfo.
pub record Signer : Type 0 where
  pub kind : KeyType
  pub spki : Text

-- The leaf certificate: whose public key it is for, and when it ends.
pub record Leaf : Type 0 where
  pub spki : Text
  pub not_after : ℕ

-- A PEM block: a certificate that parses, one that does not, or a block of another type.
pub data Block : Type 0 where
  certificate : Leaf → Block
  bad_certificate : Block
  other_block : Block

-- tls.Certificate
pub record Certificate : Type 0 where
  pub chain : List Block
  pub private_key : Signer
  pub leaf : Leaf

-- lease.go
pub record LeaseRecord : Type 0 where
  pub owner : Text
  pub expires_at : ℕ

-- order_journal.go
pub record OrderRecord : Type 0 where
  pub order_url : Text
  pub spki : Text
  pub created_at : ℕ

-- dane/retiring.go
pub record RetiringRecord : Type 0 where
  pub digest : Text
  pub retire_after : ℕ

-- acme.Challenge, as far as issuer.go reads it.
pub data ChallengeType : Type 0 where
  tls_alpn_01 http_01 other_challenge : ChallengeType

pub record Challenge : Type 0 where
  pub type : ChallengeType
  pub token : Text

pub data Content : Type 0 where
  lease_json : LeaseRecord → Content
  pem_chain : List Block → Content
  challenge_pem : Challenge → Content
  plain_text : Challenge → Content
  key_pem : Signer → Content
  order_json : OrderRecord → Content
  retiring_object : RetiringRecord → Content
  retiring_array : List RetiringRecord → Content
  hosts_json : ℕ → List Text → Content
  index_json : Map ℕ → Content
  garbage : Content

-- Errors as far as the source tells them apart by errors.Is and errors.As. `ca_failed` is an
-- acme.Error: its status code and, if it is a rate limit, the wait that it names; `host_not_found` a
-- net.DNSError whose IsNotFound is set.
pub data Error : Type 0 where
  not_exist conditional_put storage_failed storage_unavailable : Error
  key_mismatch unparseable no_certificate persist_failed order_not_persisted : Error
  not_leader unsupported_key_type no_journal not_configured : Error
  budget_exhausted lease_held dane_gate lookup_failed not_published panicked : Error
  no_challenge no_cert_url not_served lost_leadership ca_unreachable : Error
  host_not_found path_traversal enumerate_failed : Error
  ca_failed : ℕ → Option ℕ → Error

pub data Result {ℓ} (A : Type ℓ) : Type ℓ where
  ok : A → Result A
  err : Error → Result A

-- PutOptions. IfNoneMatch is only ever "*" or empty; an empty IfMatch asks for nothing.
pub record PutOptions : Type 0 where
  pub if_none_match : Bool
  pub if_match : Text

abbrev pub overwrite : PutOptions
overwrite = record { if_none_match = false; if_match = [] }

abbrev pub create_only : PutOptions
create_only = record { if_none_match = true; if_match = [] }

pub record ObjectInfo : Type 0 where
  pub key : Text
  pub etag : Text
  pub last_modified : ℕ

-- dane/lookup.go: one published record, and a definite answer of DNS.
pub record PublishedTlsa : Type 0 where
  pub usage : ℕ
  pub selector : ℕ
  pub matching_type : ℕ
  pub cert : Text

pub record LookupResult : Type 0 where
  pub rrs : List PublishedTlsa
  pub authenticated : Bool

-- acme.Order and acme.Authorization, as far as issuer.go reads them.
pub data OrderStatus : Type 0 where
  order_valid order_processing order_invalid order_pending : OrderStatus

pub record Order : Type 0 where
  pub uri : Text
  pub status : OrderStatus
  pub authz_urls : List Text
  pub finalize_url : Text
  pub cert_url : Text
  pub expires : Option ℕ

pub record Authorization : Type 0 where
  pub uri : Text
  pub authorized : Bool
  pub challenges : List Challenge

pub data Call : Type 0 where
  put_object : Text → Content → PutOptions → Call
  get_object : Text → Call
  stat_object : Text → Call
  remove_object : Text → Call
  list_objects : Text → Call
  time_now : Call
  ask_leader : Call
  generate_key : KeyType → Call
  lookup_tlsa : Text → Call
  register_account : Call
  authorize_order : Text → Call
  get_order : Text → Call
  wait_order : Text → Call
  fetch_cert : Text → Call
  finalize_order : Text → Text → Signer → Call
  get_authorization : Text → Call
  accept_challenge : Challenge → Call
  wait_authorization : Text → Call
  try_lock : Text → Call
  lock : Text → Call
  unlock : Text → Call
  enumerate : Call
  lookup_cname : Text → Call
  lookup_host : Text → Call
  sleep : ℕ → Call

abbrev pub Reply : Call → Type 0
Reply (put_object k c o) = Result (Unit {0})
Reply (get_object k) = Result Content
Reply (stat_object k) = Result ObjectInfo
Reply (remove_object k) = Result (Unit {0})
Reply (list_objects p) = Result (List ObjectInfo)
Reply time_now = ℕ
Reply ask_leader = Bool
Reply (generate_key t) = Result Signer
Reply (lookup_tlsa h) = Result LookupResult
Reply register_account = Result (Unit {0})
Reply (authorize_order d) = Result Order
Reply (get_order u) = Result Order
Reply (wait_order u) = Result Order
Reply (fetch_cert u) = Result (List Block)
Reply (finalize_order u d s) = Result (List Block)
Reply (get_authorization u) = Result Authorization
Reply (accept_challenge c) = Result (Unit {0})
Reply (wait_authorization u) = Result (Unit {0})
Reply (try_lock d) = Bool
Reply (lock d) = Unit {0}
Reply (unlock d) = Unit {0}
Reply enumerate = Result (List Text)
Reply (lookup_cname h) = Result Text
Reply (lookup_host h) = Result (List Text)
Reply (sleep d) = Bool

pub data Prog (A : Type 0) : Type 0 where
  ret : A → Prog A
  call : (c : Call) → (Reply c → Prog A) → Prog A

infixl 5 ◌>>=◌ ◌>>◌
abbrev pub ◌>>=◌ : {A B : Type 0} → Prog A → (A → Prog B) → Prog B
ret a >>= f = f a
call c k >>= f = call c (λ r. k r >>= f)

abbrev pub ◌>>◌ : {A B : Type 0} → Prog A → Prog B → Prog B
m >> n = m >>= λ _. n

abbrev pub do_call : (c : Call) → Prog (Reply c)
do_call c = call c ret

abbrev pub is_ok {ℓ} : {A : Type ℓ} → Result A → Bool
is_ok (ok a) = true
is_ok (err e) = false

-- `if err != nil { return ..., err }`
abbrev pub on_ok {ℓ κ} : {A : Type ℓ} {B : Type κ} → Result A → (Error → B) → (A → B) → B
on_ok (ok a) f g = g a
on_ok (err e) f g = f e

pub Result-cases {ℓ} :
    {A : Type ℓ} (r : Result A) → ((a : A) × (r ≡ ok a)) ⊎ ((e : Error) × (r ≡ err e))
Result-cases (ok a) = inl (a, refl)
Result-cases (err e) = inr (e, refl)
