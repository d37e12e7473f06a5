-- ===== src/Node/Hello.antt =====
-- The callback GetCertificate of manager.go's buildTLSConfig, and the background issuance that a
-- handshake may ask for.
use go_certs_manager.Base.{
  Bool, Text, [], false, has_key, if◌then◌else◌, insert, none, not, remove, some, text_eq, to_lower,
  true, ℕ, ◌&&◌, ◌||◌, ◌∷◌,
}
use go_certs_manager.Bucket.{take as take_token}
use go_certs_manager.Challenge.{get_alpn}
use go_certs_manager.Effects.{Prog, do_call, ret, time_now, ◌>>=◌}
use go_certs_manager.Manager.{in_domain_set}
use go_certs_manager.Manager.Schedule.{obtain}
use go_certs_manager.Node.{Node, allows_name, with_manager, with_on_demand}
use go_certs_manager.Node.Handshake.{
  HelloAnswer, ClientHello, Fetched, answers_challenge, certificate_unavailable, companion_for,
  fetched, get_certificate, host_not_allowed, is_alpn_challenge, missing_server_name, refuses,
  serves,
}
use go_certs_manager.OnDemand.{OnDemand}
use go_certs_manager.OnDemand.Preflight.{preflight_ok}

module _ (is_ip : Text → Bool) (others : ℕ → Node → Node) where
  -- The certificate that was found, or the companion in its place.
  unfoldable pub chosen : ClientHello → Text → Bool → Fetched → HelloAnswer
  chosen hello domain on_demand_host f = elim f.found [
    | none ↦ refuses certificate_unavailable
    | some cert ↦
        if f.node.rsa_companion && not on_demand_host
        then (elim (companion_for hello domain cert f.node) [
          | none ↦ serves cert
          | some c ↦ serves c
        ])
        else serves cert
  ]

  unfoldable pub serve_name : ClientHello → Text → Node → Prog (HelloAnswer × Fetched)
  unfolding chosen
  serve_name hello name n =
      if allows_name n name
      then (let on_demand_host = not (in_domain_set n.manager name) in
          do
            f ← get_certificate others name on_demand_host n
            ret (chosen hello name on_demand_host f, f))
      else ret (refuses host_not_allowed, fetched none false n)

  unfoldable pub serve_challenge : Text → Node → Prog (HelloAnswer × Fetched)
  serve_challenge name n =
      if allows_name n name
      then (do
        cert ← get_alpn name n.challenges
        ret (elim cert [
          | none ↦ (refuses certificate_unavailable, fetched none false n)
          | some c ↦ (answers_challenge c, fetched none false n)
        ]))
      else ret (refuses host_not_allowed, fetched none false n)

  -- The name that the certificate is looked up under: the default domain where the client named
  -- none.
  unfoldable pub is_nameless : Text → Bool
  is_nameless name = text_eq name [] || is_ip name

  unfoldable pub serve_default : ClientHello → Node → Prog (HelloAnswer × Fetched)
  unfolding serve_name
  serve_default hello n = elim n.default_domain [
    | [] ↦ ret (refuses missing_server_name, fetched none false n)
    | c ∷ s ↦ serve_name hello (to_lower (c ∷ s)) n
  ]

  -- GetCertificate
  unfoldable pub serve_hello : ClientHello → Node → Prog (HelloAnswer × Fetched)
  unfolding serve_challenge is_nameless serve_default serve_name is_alpn_challenge
  serve_hello hello n =
      let name = to_lower hello.server_name in
      if is_alpn_challenge hello
      then serve_challenge name n
      else (if is_nameless name then serve_default hello n else serve_name hello name n)

-- requestIssue: one issuance of a name at a time. The goroutine is `issue_in_background`, which
-- frees the name at its end.
unfoldable pub request_issue : Text → Node → Bool × Node
request_issue name n =
    let domain = to_lower name in
    if has_key domain n.issuing
    then (false, n)
    else (true, record n { issuing = insert domain tt n.issuing })

-- The guards of the goroutine for an on-demand hostname: the pre-flight, then a token.
unfoldable pub admit_background : Text → OnDemand → Node → Prog (Bool × Node)
admit_background domain o n = do
  (reason, o1) ← preflight_ok domain o
  elim reason [
    | some r ↦ ret (false, with_on_demand o1 n)
    | none ↦ do
      now ← do_call time_now
      let (orders', granted) = take_token now o1.orders
      ret (granted, with_on_demand (record o1 { orders = orders' }) n)
  ]

unfoldable pub admit_request : Text → Bool → Node → Prog (Bool × Node)
unfolding admit_background
admit_request domain on_demand_host n =
    if on_demand_host
    then (elim n.on_demand [ none ↦ ret (true, n) | some o ↦ admit_background domain o n ])
    else ret (true, n)

unfoldable pub issue_in_background : (Text → Text) → Text → Bool → Node → Prog Node
unfolding admit_request
issue_in_background normalise domain on_demand_host n = do
  (admitted, n1) ← admit_request domain on_demand_host n
  if admitted
      then (do
        (result, m) ← obtain normalise domain n1.manager
        ret (record (with_manager m n1) { issuing = remove domain n1.issuing }))
      else ret (record n1 { issuing = remove domain n1.issuing })
