-- ===== src/Challenge.antt =====
-- challenge.go: the answers to the CA's challenges that a node has staged, those it finds in
-- storage, and the HTTP-01 handler. A key authorization and a token certificate are represented as
-- in `Effects`, by the challenge they answer.
pub mod Served
pub mod Mirrored
use go_certs_manager.Base.{
  Bool, Map, Option, Text, [], codes, false, has_prefix, if◌then◌else◌, insert, leb, length, lookup,
  ltb, none, remove, some, to_lower, trim_prefix, true, ℕ, ◌&&◌, ◌*◌, ◌++◌, ◌+◌, ◌/◌, ◌==◌, ◌||◌,
  ◌∷◌,
}
use go_certs_manager.Budget.{second}
use go_certs_manager.Effects.{
  Challenge, Content, Prog, Result, challenge_pem, do_call, err, get_object, ok, on_ok, overwrite,
  put_object, remove_object, ret, time_now, ◌>>=◌,
}

-- ChallengeServer
pub record ChallengeServer : Type 0 where
  pub has_backend : Bool
  pub prefix : Text
  pub alpn : Map Challenge
  pub http : Map Content
  pub misses : Map ℕ

abbrev pub token_miss_ttl : ℕ
token_miss_ttl = 10 * second

abbrev pub token_miss_cap : ℕ
token_miss_cap = 4096

abbrev pub max_token_length : ℕ
max_token_length = 128

unfoldable pub new_challenge_server : Bool → Text → ChallengeServer
new_challenge_server has_backend prefix = record {
  has_backend = has_backend;
  prefix = prefix;
  alpn = [];
  http = [];
  misses = [];
}

unfoldable pub token_char : ℕ → Bool
token_char c =
    leb b'A' c && leb c b'Z'
    || (leb b'a' c && leb c b'z')
    || (leb b'0' c && leb c b'9')
    || (c == b'-')
    || (c == b'_')

unfoldable pub all_token_chars : Text → Bool
unfolding token_char
all_token_chars [] = true
all_token_chars (c ∷ s) = if token_char c then all_token_chars s else false

-- validToken
unfoldable pub valid_token : Text → Bool
unfolding all_token_chars
valid_token [] = false
valid_token (c ∷ s) =
    if ltb max_token_length (length (c ∷ s)) then false else all_token_chars (c ∷ s)

abbrev pub http_dir : Text
http_dir = codes "challenges/http/"

unfoldable pub alpn_key : ChallengeServer → Text → Text
alpn_key c domain = c.prefix ++ (codes "challenges/alpn/" ++ to_lower domain)

unfoldable pub http_key : ChallengeServer → Text → Text
http_key c token = c.prefix ++ (http_dir ++ token)

-- PutALPN
unfoldable pub put_alpn :
    Text → Challenge → ChallengeServer → Prog (Result (Unit {0}) × ChallengeServer)
unfolding alpn_key
put_alpn name cert c =
    let domain = to_lower name in
    let staged = record c { alpn = insert domain cert c.alpn } in
    if c.has_backend
    then (do
      put ← do_call (put_object (alpn_key c domain) (challenge_pem cert) overwrite)
      on_ok put (λ e. ret (err e, record c { alpn = remove domain staged.alpn }))
          λ _. ret (ok tt, staged))
    else ret (ok tt, staged)

-- removeFromStorage
unfoldable pub remove_from_storage : ChallengeServer → Text → Prog (Unit {0})
remove_from_storage c key' =
    if c.has_backend then (do _ ← do_call (remove_object key'); ret tt) else ret tt

-- DeleteALPN
unfoldable pub delete_alpn : Text → ChallengeServer → Prog ChallengeServer
unfolding alpn_key remove_from_storage
delete_alpn name c = do
  let domain = to_lower name
  _ ← remove_from_storage c (alpn_key c domain)
  ret (record c { alpn = remove domain c.alpn })

-- decodeChallengeCert, on what was read.
unfoldable pub decode_challenge_cert : Result Content → Option Challenge
decode_challenge_cert (ok (challenge_pem cert)) = some cert
decode_challenge_cert (ok body) = none
decode_challenge_cert (err e) = none

-- GetALPN
unfoldable pub get_alpn : Text → ChallengeServer → Prog (Option Challenge)
unfolding alpn_key decode_challenge_cert
get_alpn name c =
    let domain = to_lower name in
    elim (lookup domain c.alpn) [
      | some cert ↦ ret (some cert)
      | none ↦
          if c.has_backend
          then (do
            body ← do_call (get_object (alpn_key c domain))
            ret (decode_challenge_cert body))
          else ret none
    ]

-- PutHTTP
unfoldable pub put_http :
    Text → Content → ChallengeServer → Prog (Result (Unit {0}) × ChallengeServer)
unfolding http_key
put_http token key_auth c =
    let staged = record c { http = insert token key_auth c.http; misses = remove token c.misses } in
    if c.has_backend
    then (do
      put ← do_call (put_object (http_key c token) key_auth overwrite)
      on_ok put (λ e. ret (err e, record staged { http = remove token staged.http }))
          λ _. ret (ok tt, staged))
    else ret (ok tt, staged)

-- DeleteHTTP
unfoldable pub delete_http : Text → ChallengeServer → Prog ChallengeServer
unfolding http_key remove_from_storage
delete_http token c = do
  _ ← remove_from_storage c (http_key c token)
  ret (record c { http = remove token c.http })

-- recentTokenMiss
unfoldable pub recent_token_miss : Text → ChallengeServer → Prog Bool
recent_token_miss token c = elim (lookup token c.misses) [
  | none ↦ ret false
  | some at ↦ do now ← do_call time_now; ret (ltb now (at + token_miss_ttl))
]

-- noteTokenMiss
unfoldable pub missed_at : Text → ℕ → ChallengeServer → ChallengeServer
missed_at token now c =
    let misses = if leb token_miss_cap (length c.misses) then [] else c.misses in
    record c { misses = insert token now misses }

unfoldable pub note_token_miss : Text → ChallengeServer → Prog ChallengeServer
unfolding missed_at
note_token_miss token c = do now ← do_call time_now; ret (missed_at token now c)

-- The handler's answer: 404, or a key authorization.
pub data Response : Type 0 where
  not_found : Response
  key_authorization : Content → Response

unfoldable pub from_storage : Text → ChallengeServer → Prog (Response × ChallengeServer)
unfolding http_key note_token_miss
from_storage token c = do
  body ← do_call (get_object (http_key c token))
  on_ok body (λ e. do c' ← note_token_miss token c; ret (not_found, c'))
      λ key_auth. ret (key_authorization key_auth, c)

unfoldable pub not_staged : Text → ChallengeServer → Prog (Response × ChallengeServer)
unfolding recent_token_miss from_storage
not_staged token c =
    if c.has_backend
    then (do
      recent' ← recent_token_miss token c
      if recent' then ret (not_found, c) else from_storage token c)
    else ret (not_found, c)

unfoldable pub serve_token : Text → ChallengeServer → Prog (Response × ChallengeServer)
unfolding valid_token not_staged
serve_token token c =
    if valid_token token
    then (elim (lookup token c.http) [
      | some key_auth ↦ ret (key_authorization key_auth, c)
      | none ↦ not_staged token c
    ])
    else ret (not_found, c)

-- HTTPHandler
unfoldable pub serve_http : Text → ChallengeServer → Prog (Response × ChallengeServer)
unfolding serve_token has_prefix trim_prefix
serve_http path c =
    let prefix = codes "/.well-known/acme-challenge/" in
    if has_prefix path prefix then serve_token (trim_prefix path prefix) c else ret (not_found, c)
