-- ===== src/Node/Greeted.antt =====
-- Whom the handshake path of manager.go works for, and what it may do.
use go_certs_manager.Base.{
  Bool, Option, Text, [], ap, false, if◌then◌else◌, inl, inr, lookup, none, not, refl, some, sym,
  to_lower, true, ℕ, ◌∷◌, ◌≡◌, ◌⊎◌,
}
use go_certs_manager.Challenge.{alpn_key, decode_challenge_cert, get_alpn}
use go_certs_manager.Effects.{Call, Challenge, Prog, do_call, get_object, ret, ◌>>=◌}
use go_certs_manager.Effects.Logic.{Anything, Safe, Safe-along, Safe-bind, Safe-if, forget}
use go_certs_manager.Manager.{in_domain_set}
use go_certs_manager.Node.{Node, allows_name}
use go_certs_manager.Node.Handshake.{
  HelloAnswer, ClientHello, Fetched, answers_challenge, certificate_unavailable, fetched,
  get_certificate, host_not_allowed, is_alpn_challenge, missing_server_name, refuses,
}
use go_certs_manager.Node.Hello.{
  chosen, is_nameless, serve_challenge, serve_default, serve_hello, serve_name,
}
use go_certs_manager.Node.Looks.{Looks, Looks-if, MayLook, get_certificate-Looks}

module _ (is_ip : Text → Bool) (others : ℕ → Node → Node) (hello : ClientHello) (n : Node) where
  -- The name that a handshake is served under.
  abbrev pub IsNamed : Text → Type 0
  IsNamed name =
      (name ≡ to_lower hello.server_name)
      ⊎ ((name ≡ to_lower n.default_domain)
          × (is_nameless is_ip others (to_lower hello.server_name) ≡ true))

  abbrev pub IsAllowed : Type 0
  IsAllowed = (name : Text) × IsNamed name × (allows_name n name ≡ true)

  abbrev pub MayGreet : Unit {0} → Call → Type 0
  MayGreet u c = IsAllowed × MayLook u c

  -- Refused without a certificate to find: nothing has changed and nothing is asked for.
  abbrev pub IsGreeted : Unit {0} → HelloAnswer × Fetched → Type 0
  IsGreeted u (a, f) =
      IsAllowed
      ⊎ ((f ≡ fetched none false n)
          × ((a ≡ refuses host_not_allowed) ⊎ (a ≡ refuses missing_server_name)))

  allowed-Greeted :
      {A : Type 0} (m : Prog A) → IsAllowed → Looks m → Safe MayGreet forget (λ u x. IsAllowed) tt m
  allowed-Greeted m a s =
      Safe-along MayLook forget MayGreet forget Anything (λ u x. IsAllowed) (λ u v. Unit {0})
        (λ u v c e may. (a, may)) (λ u v c r e may. tt) (λ u v x e q. a) tt tt m tt s

  serve_name-IsGreeted :
      (name : Text)
      → IsNamed name
      → Safe MayGreet forget IsGreeted tt (serve_name is_ip others hello name n)
  unfolding serve_name
  serve_name-IsGreeted name named =
      let od = not (in_domain_set n.manager name) in
      Safe-if MayGreet forget IsGreeted tt
        (do f ← get_certificate others name od n; ret (chosen is_ip others hello name od f, f))
        (ret (refuses host_not_allowed, fetched none false n)) (allows_name n name)
        (λ allowed'.
          Safe-bind MayGreet forget (λ u x. IsAllowed) IsGreeted
            (λ f. ret (chosen is_ip others hello name od f, f)) tt
            (get_certificate others name od n)
            (allowed-Greeted (get_certificate others name od n) (name, named, allowed')
              (get_certificate-Looks others name od n))
            (λ u f a. inl a))
        (λ refused'. inr (refl, inl refl))

  get_alpn-Looks : (name : Text) → Looks (get_alpn name n.challenges)
  unfolding get_alpn
  get_alpn-Looks name = looked (lookup (to_lower name) n.challenges.alpn)
    where
      looked :
          (found : Option Challenge)
          → Looks (elim found [
            | some cert ↦ ret (some cert)
            | none ↦
                if n.challenges.has_backend
                then (do
                  body ← do_call (get_object (alpn_key n.challenges (to_lower name)))
                  ret (decode_challenge_cert body))
                else ret none
          ])
      looked (some cert) = tt
      looked none =
          Looks-if n.challenges.has_backend
            (do
              body ← do_call (get_object (alpn_key n.challenges (to_lower name)))
              ret (decode_challenge_cert body))
            (ret none) (tt, λ r. tt) tt

  -- A TLS handshake reads storage, waits, asks for the time or for leadership only for a name that
  -- is configured or in the allow set, the client's own or, where it named none or an IP address,
  -- the default domain; it never writes and never orders. For any other name it is refused with
  -- nothing changed and no issuance asked for.
  pub serve_hello-IsGreeted : Safe MayGreet forget IsGreeted tt (serve_hello is_ip others hello n)
  unfolding serve_hello serve_challenge serve_default
  serve_hello-IsGreeted =
      Safe-if MayGreet forget IsGreeted tt (serve_challenge is_ip others name n)
        (if is_nameless is_ip others name
          then serve_default is_ip others hello n
          else serve_name is_ip others hello name n)
        (is_alpn_challenge hello) (λ challenge'. challenged)
        (λ plain'.
          Safe-if MayGreet forget IsGreeted tt (serve_default is_ip others hello n)
            (serve_name is_ip others hello name n) (is_nameless is_ip others name)
            (λ nameless. defaulted nameless n.default_domain refl)
            (λ own. serve_name-IsGreeted name (inl refl)))
    where
      name : Text
      name = to_lower hello.server_name

      told : Option Challenge → Prog (HelloAnswer × Fetched)
      told cert = ret (elim cert [
        | none ↦ (refuses certificate_unavailable, fetched none false n)
        | some c ↦ (answers_challenge c, fetched none false n)
      ])

      challenged : Safe MayGreet forget IsGreeted tt (serve_challenge is_ip others name n)
      challenged =
          Safe-if MayGreet forget IsGreeted tt (get_alpn name n.challenges >>= told)
            (ret (refuses host_not_allowed, fetched none false n)) (allows_name n name)
            (λ allowed'.
              Safe-bind MayGreet forget (λ u x. IsAllowed) IsGreeted told tt
                (get_alpn name n.challenges)
                (allowed-Greeted (get_alpn name n.challenges) (name, inl refl, allowed')
                  (get_alpn-Looks name))
                (λ u x a. inl a))
            (λ refused'. inr (refl, inl refl))

      defaulted :
          is_nameless is_ip others name ≡ true
          → (d : Text) → n.default_domain ≡ d
          → Safe MayGreet forget IsGreeted tt (elim d [
            | [] ↦ ret (refuses missing_server_name, fetched none false n)
            | c ∷ s ↦ serve_name is_ip others hello (to_lower (c ∷ s)) n
          ])
      defaulted nameless [] e = inr (refl, inr refl)
      defaulted nameless (c ∷ s) e =
          serve_name-IsGreeted (to_lower (c ∷ s)) (inr (ap to_lower (sym e), nameless))
