-- ===== src/KeyStore.antt =====
-- keystore.go: the persistent private keys, created once and reused by every renewal.
pub mod Once
use go_certs_manager.Layout
use go_certs_manager.Base.{Bool, Text, codes, if◌then◌else◌, true, ◌++◌}
use go_certs_manager.Effects.{
  Content, Error, KeyType, Prog, PutOptions, Result, Signer, ask_leader, conditional_put,
  create_only, do_call, ecdsa_p256, err, generate_key, get_object, key_pem, not_exist, not_leader,
  ok, on_ok, overwrite, put_object, remove_object, ret, rsa_2048, storage_unavailable, unparseable,
  ◌>>=◌,
}
use go_certs_manager.Layout.{is_companion, next_key}

pub record KeyStore : Type 0 where
  pub prefix : Text
  pub key_type : KeyType
  pub clustered : Bool

unfoldable pub account_key_name : KeyStore → Text
account_key_name k = k.prefix ++ codes "acme/account.key"

unfoldable pub cert_key_name : KeyStore → Text → Text
cert_key_name k domain = Layout.key k.prefix domain

unfoldable pub next_cert_key_name : KeyStore → Text → Text
next_cert_key_name k domain = Layout.next_key k.prefix domain

-- `isLeaderF == nil` is a store that is not `clustered`.
unfoldable pub can_create : KeyStore → Prog Bool
can_create k = if k.clustered then do_call ask_leader else ret true

-- A failed read is marked as such; the definite "none" is not (readFailure, local_copy.go).
unfoldable pub read_failure : Error → Error
read_failure not_exist = not_exist
read_failure _ = storage_unavailable

unfoldable pub parse_key_pem : Content → Result Signer
parse_key_pem (key_pem s) = ok s
parse_key_pem _ = err unparseable

unfoldable pub loaded : Result Content → Result Signer
unfolding parse_key_pem read_failure
loaded (ok data') = parse_key_pem data'
loaded (err e) = err (read_failure e)

unfoldable pub load : Text → Prog (Result Signer)
unfolding loaded
load name = do got ← do_call (get_object name); ret (loaded got)

unfoldable pub put : Text → Signer → PutOptions → Prog (Result (Unit {0}))
put name s opts = do_call (put_object name (key_pem s) opts)

-- What `loadOrCreate` returns once it has tried to create: the loser of a race reads the winner.
unfoldable pub after_create : Text → Result (Unit {0}) → Prog (Result Signer)
unfolding load
after_create name (ok done) = load name
after_create name (err conditional_put) = load name
after_create name (err e) = ret (err e)

unfoldable pub create : KeyStore → Text → KeyType → Prog (Result Signer)
unfolding can_create put after_create
create k name kind = do
  may_create ← can_create k
  if may_create
      then (do
        fresh ← do_call (generate_key kind)
        on_ok fresh (λ e. ret (err e))
            λ signer. do done ← put name signer create_only; after_create name done)
      else ret (err not_exist)

unfoldable pub load_or_create_from :
    KeyStore → Text → KeyType → Result Signer → Prog (Result Signer)
unfolding create
load_or_create_from k name kind (ok signer) = ret (ok signer)
load_or_create_from k name kind (err not_exist) = create k name kind
load_or_create_from k name kind (err e) = ret (err e)

unfoldable pub load_or_create : KeyStore → Text → KeyType → Prog (Result Signer)
unfolding load load_or_create_from
load_or_create k name kind = do signer ← load name; load_or_create_from k name kind signer

unfoldable pub load_or_create_account_key : KeyStore → Prog (Result Signer)
unfolding load_or_create account_key_name
load_or_create_account_key k = load_or_create k (account_key_name k) ecdsa_p256

unfoldable pub load_or_create_cert_key : KeyStore → Text → Prog (Result Signer)
unfolding load_or_create cert_key_name
load_or_create_cert_key k domain =
    load_or_create k (cert_key_name k domain) (if is_companion domain then rsa_2048 else k.key_type)

unfoldable pub load_cert_key : KeyStore → Text → Prog (Result Signer)
unfolding load cert_key_name
load_cert_key k domain = load (cert_key_name k domain)

unfoldable pub load_next_cert_key : KeyStore → Text → Prog (Result Signer)
unfolding load next_cert_key_name
load_next_cert_key k domain = load (next_cert_key_name k domain)

unfoldable pub generate_next_cert_key : KeyStore → Text → Prog (Result Signer)
unfolding can_create load_or_create next_cert_key_name
generate_next_cert_key k domain = do
  may_create ← can_create k
  if may_create
      then load_or_create k (next_cert_key_name k domain) k.key_type
      else ret (err not_leader)

-- The live key is overwritten by the staged one, and only then is the staged one removed. A failed
-- removal is only logged.
unfoldable pub promote : KeyStore → Text → Signer → Prog (Result (Unit {0}))
unfolding put cert_key_name next_cert_key_name
promote k domain next = do
  done ← put (cert_key_name k domain) next overwrite
  on_ok done (λ e. ret (err e))
      λ _. do _ ← do_call (remove_object (next_cert_key_name k domain)); ret (ok tt)

unfoldable pub promote_next_cert_key : KeyStore → Text → Prog (Result (Unit {0}))
unfolding can_create load promote next_cert_key_name
promote_next_cert_key k domain = do
  may_create ← can_create k
  if may_create
      then (do
        next ← load (next_cert_key_name k domain)
        on_ok next (λ e. ret (err e)) λ signer. promote k domain signer)
      else ret (err not_leader)
