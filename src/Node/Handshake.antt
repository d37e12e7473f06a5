-- ===== src/Node/Handshake.antt =====
-- What manager.go does for a TLS handshake: GetCertificate of buildTLSConfig, getCertificate,
-- awaitCertificate, companionFor and requestIssue. `is_ip` is net.ParseIP. `others` is what the
-- node's other goroutines do while this one waits, for a mutex or for time to pass: anything.
use go_certs_manager.Base.{
  Bool, List, Option, Text, [], codes, false, if◌then◌else◌, leb, ltb, none, some, suc, text_eq,
  true, zero, ℕ, ◌&&◌, ◌+◌, ◌-◌, ◌/◌, ◌∷◌,
}
use go_certs_manager.Budget.{second}
use go_certs_manager.CertCache.{absent_from_storage, get, note_miss, recent_miss}
use go_certs_manager.Effects.{
  Certificate, Challenge, Prog, Result, do_call, ecdsa_p256, err, ok, on_ok, ret, rsa_2048, sleep,
  time_now, ◌>>=◌,
}
use go_certs_manager.Layout.{companion}
use go_certs_manager.Manager.{is_leader}
use go_certs_manager.Node.{Node, refresh_node, with_cache}

-- What SupportsCertificate says of a certificate: it can be used, it cannot for its curve alone, or
-- it cannot.
pub data Support : Type 0 where
  usable lacks_curve unusable : Support

-- tls.ClientHelloInfo. `supports true` asks with the certificate's curve added to the client's.
pub record ClientHello : Type 0 where
  pub server_name : Text
  pub supported_protos : List Text
  pub supports : Bool → Certificate → Support

pub data Refusal : Type 0 where
  missing_server_name host_not_allowed certificate_unavailable : Refusal

pub data HelloAnswer : Type 0 where
  serves : Certificate → HelloAnswer
  answers_challenge : Challenge → HelloAnswer
  refuses : Refusal → HelloAnswer

-- What getCertificate comes to: a certificate, if there is one, and whether an issuance was asked
-- for.
pub record Fetched : Type 0 where
  pub found : Option Certificate
  pub requested : Bool
  pub node : Node

abbrev pub fetched : Option Certificate → Bool → Node → Fetched
fetched f r n = record { found = f; requested = r; node = n }

-- isALPNChallenge
unfoldable pub is_alpn_challenge : ClientHello → Bool
is_alpn_challenge hello = elim hello.supported_protos [
  | [] ↦ false
  | p ∷ ps ↦ elim ps [ [] ↦ text_eq p (codes "acme-tls/1") | q ∷ qs ↦ false ]
]

unfoldable pub is_usable : Support → Bool
is_usable usable = true
is_usable s = false

-- certificateCurve: an ECDSA key has one.
unfoldable pub has_curve : Certificate → Bool
has_curve cert = elim cert.private_key.kind [ ecdsa_p256 ↦ true | rsa_2048 ↦ false ]

-- usableAtHandshake
unfoldable pub usable_at_handshake : (Bool → Certificate → Support) → Certificate → Bool
unfolding is_usable has_curve
usable_at_handshake supports' cert = elim (supports' false cert) [
  | usable ↦ true
  | lacks_curve ↦ has_curve cert && is_usable (supports' true cert)
  | unusable ↦ false
]

-- companionFor
unfoldable pub companion_for : ClientHello → Text → Certificate → Node → Option Certificate
unfolding usable_at_handshake is_usable
companion_for hello domain primary n =
    if usable_at_handshake hello.supports primary
    then none
    else (elim (get (companion domain) n.manager.cert_cache) [
      | none ↦ none
      | some c ↦ if is_usable (hello.supports false c) then some c else none
    ])

unfoldable pub note_read : Text → Result Certificate × Node → Prog (Option Certificate × Node)
note_read domain (ok cert, n) = ret (some cert, n)
note_read domain (err e, n) = do
  now ← do_call time_now
  ret (none, with_cache (note_miss now domain n.manager.cert_cache) n)

unfoldable pub read_missing : Text → Node → Prog (Option Certificate × Node)
unfolding note_read
read_missing domain n = do
  now ← do_call time_now
  if recent_miss now domain n.manager.cert_cache
      then ret (none, n)
      else refresh_node domain n >>= note_read domain

-- The storage read of a follower, under the read lock.
unfoldable pub follow_read : Text → Node → Prog (Option Certificate × Node)
unfolding read_missing
follow_read domain n = elim (get domain n.manager.cert_cache) [
  | some cert ↦ ret (some cert, n)
  | none ↦ read_missing domain n
]

unfoldable pub handshake_wait_of : Bool → Node → ℕ
handshake_wait_of on_demand_host n =
    if on_demand_host then (elim n.on_demand [ none ↦ 0 | some o ↦ o.cfg.handshake_wait ]) else 0

-- More polls than `limit` has seconds.
abbrev pub polls_for : ℕ → ℕ
polls_for limit = limit / second + 2

module _ (others : ℕ → Node → Node) where
  -- The loop of awaitCertificate; `none` is out of fuel.
  unfoldable pub await_polls :
      ℕ → Bool → Text → ℕ → Node → Prog (Option (Option Certificate × Node))
  await_polls zero leader domain deadline n = ret none
  await_polls (suc k) leader domain deadline n = do
    now ← do_call time_now
    if leb deadline now then ret (some (none, n)) else (do
      running ← do_call (sleep (if ltb (deadline - now) second then deadline - now else second))
      if running
          then (let n1 = others k n in
              elim (get domain n1.manager.cert_cache) [
                | some cert ↦ ret (some (some cert, n1))
                | none ↦ if leader then await_polls k leader domain deadline n1 else (do
                  (found, n2) ← refresh_node domain n1
                  on_ok found (λ e. await_polls k leader domain deadline n2)
                      λ cert. ret (some (some cert, n2)))
              ])
          else ret (some (none, n)))

  -- awaitCertificate
  unfoldable pub await_certificate : Text → ℕ → Node → Prog (Option (Option Certificate × Node))
  unfolding await_polls
  await_certificate domain limit n = do
    now ← do_call time_now
    leader ← is_leader n.manager
    await_polls (polls_for limit) leader domain (now + limit) n

  unfoldable pub awaited : Bool → Node → Option (Option Certificate × Node) → Fetched
  awaited requested' n none = fetched none requested' n
  awaited requested' n (some (found, n')) = fetched found requested' n'

  unfoldable pub await_if : Text → ℕ → Bool → Node → Prog Fetched
  unfolding await_certificate awaited
  await_if domain zero requested' n = ret (fetched none requested' n)
  await_if domain (suc w) requested' n = do
    got ← await_certificate domain (suc w) n
    ret (awaited requested' n got)

  -- getCertificate on the leader, after a miss in memory.
  unfoldable pub lead_certificate : Text → Bool → ℕ → Node → Prog Fetched
  unfolding await_if
  lead_certificate domain on_demand_host wait n =
      if on_demand_host
      then (do
        (found, n') ← refresh_node domain n
        on_ok found
            (λ e.
              if absent_from_storage e
              then await_if domain wait true n'
              else ret (fetched none false n'))
            λ cert. ret (fetched (some cert) false n'))
      else await_if domain wait true n

  unfoldable pub follow_certificate : Text → ℕ → Node → Prog Fetched
  unfolding follow_read await_if
  follow_certificate domain wait n = do
    (found, n') ← follow_read domain (others 0 n)
    elim found [
      | some cert ↦ ret (fetched (some cert) false n')
      | none ↦ await_if domain wait false n'
    ]

  -- getCertificate
  unfoldable pub get_certificate : Text → Bool → Node → Prog Fetched
  unfolding lead_certificate follow_certificate handshake_wait_of
  get_certificate domain on_demand_host n = elim (get domain n.manager.cert_cache) [
    | some cert ↦ ret (fetched (some cert) false n)
    | none ↦
        let wait = handshake_wait_of on_demand_host n in
        do
          leader ← is_leader n.manager
          if leader
              then lead_certificate domain on_demand_host wait n
              else follow_certificate domain wait n
  ]
