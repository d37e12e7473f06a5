-- ===== src/Manager/Completion.antt =====
-- The completion of an order (issuer.go) leaves alone what the decision to order rests on, and so
-- does the whole of `Issue`.
use go_certs_manager.Base.{
  Bool, Bool-cases, List, Option-cases, Text, [], codes, false, if◌then◌else◌, inl, inr, none, refl,
  some, text_eq, to_lower, true, ◌++◌, ◌∷◌, ◌≡◌,
}
use go_certs_manager.Effects.{
  Authorization, Challenge, ChallengeType, Content, Order, OrderStatus, Result, Signer, do_call,
  err, http_01, no_challenge, ok, on_ok, order_invalid, order_pending, order_processing,
  order_valid, other_challenge, pem_chain, remove_object, ret, tls_alpn_01, wait_order, ◌>>=◌,
}
use go_certs_manager.Issuer.{
  answer_challenge, challenge_key, clear_order, collect, complete, encode_chain, ensure_registered,
  fetch, fulfill_all, fulfill_authorization, issue, obtain_order, pick_challenge,
  validate_and_finalize,
}
use go_certs_manager.Layout.{cert_domain}
use go_certs_manager.Manager.Quiet.{Quiet, Quiet-bind, apart, clear_order-Quiet, obtain_order-Quiet}
use go_certs_manager.Manager.Seen.{lease_object}

module _ (prefix domain : Text) where
  withdrawn-Quiet :
      (name : Text) (c : Challenge) (a : Result (Unit {0}))
      → Quiet prefix domain (do _ ← do_call (remove_object (challenge_key prefix name c)); ret a)
  unfolding challenge_key
  withdrawn-Quiet name c a = (go c.type, λ r. tt)
    where
      go :
          (t : ChallengeType)
          → text_eq
              (elim t [
                | tls_alpn_01 ↦ prefix ++ (codes "challenges/alpn/" ++ to_lower name)
                | _ ↦ prefix ++ (codes "challenges/http/" ++ c.token)
              ])
              (lease_object prefix domain)
            ≡ false
      go tls_alpn_01 = apart prefix _ _ b'c' b'l' refl
      go http_01 = apart prefix _ _ b'c' b'l' refl
      go other_challenge = apart prefix _ _ b'c' b'l' refl

  answer_challenge-Quiet :
      (name : Text) (a : Authorization) (c : Challenge)
      → Quiet prefix domain (answer_challenge prefix name a c)
  unfolding answer_challenge
  answer_challenge-Quiet name a c = (
    tt,
    elim [
      | err e ↦ tt
      | ok done ↦ (
        tt,
        elim [
          | err e ↦ withdrawn-Quiet name c (err e)
          | ok accepted ↦ (tt, λ r. withdrawn-Quiet name c r)
        ],
      )
    ],
  )

  authorized-Quiet :
      (name : Text) (a : Authorization)
      → Quiet prefix domain (
          if a.authorized then ret (ok tt) else elim (pick_challenge a.challenges) [
            | none ↦ ret (err no_challenge)
            | some c ↦ answer_challenge prefix name a c
          ])
  authorized-Quiet name a = elim (Bool-cases a.authorized) [
    | inl already ↦ rw already tt
    | inr not_yet ↦ rw not_yet (elim (Option-cases (pick_challenge a.challenges)) [
      | inl none_fits ↦ rw none_fits tt
      | inr (c, picked) ↦ rw picked (answer_challenge-Quiet name a c)
    ])
  ]

  fulfill_all-Quiet :
      (name : Text) (urls : List Text) → Quiet prefix domain (fulfill_all prefix name urls)
  unfolding fulfill_all fulfill_authorization
  fulfill_all-Quiet name [] = tt
  fulfill_all-Quiet name (url ∷ urls) =
      Quiet-bind prefix domain _ (fulfill_authorization prefix name url)
        (tt, elim [ err e ↦ tt | ok a ↦ authorized-Quiet name a ])
        (elim [ err e ↦ tt | ok done ↦ fulfill_all-Quiet name urls ])

  fetch-Quiet : (o : Order) → Quiet prefix domain (fetch o)
  unfolding fetch
  fetch-Quiet o = elim (Bool-cases (text_eq o.cert_url [])) [
    | inl missing ↦ rw missing tt
    | inr there ↦ rw there (tt, λ r. tt)
  ]

  validate_and_finalize-Quiet :
      (o : Order) (s : Signer)
      → Quiet prefix domain (validate_and_finalize prefix (cert_domain (to_lower domain)) o s)
  unfolding validate_and_finalize
  validate_and_finalize-Quiet o s =
      Quiet-bind prefix domain _ (fulfill_all prefix (cert_domain (to_lower domain)) o.authz_urls)
        (fulfill_all-Quiet (cert_domain (to_lower domain)) o.authz_urls)
        (elim [ err e ↦ tt | ok done ↦ (refl, λ r. tt) ])

  complete-Quiet :
      (o : Order) (s : Signer)
      → Quiet prefix domain (complete prefix (cert_domain (to_lower domain)) o s)
  unfolding complete
  complete-Quiet o s = go o.status
    where
      go :
          (t : OrderStatus)
          → Quiet prefix domain (elim t [
            | order_valid ↦ fetch o
            | order_processing ↦ do
              waited ← do_call (wait_order o.uri)
              on_ok waited (λ e. ret (err e)) λ done. fetch done
            | _ ↦ validate_and_finalize prefix (cert_domain (to_lower domain)) o s
          ])
      go order_valid = fetch-Quiet o
      go order_processing = (tt, elim [ err e ↦ tt | ok done ↦ fetch-Quiet done ])
      go order_invalid = validate_and_finalize-Quiet o s
      go order_pending = validate_and_finalize-Quiet o s

  collect-Quiet :
      (name : Text) (s : Signer) (r : Result Order)
      → Quiet prefix domain (collect prefix name (cert_domain (to_lower domain)) s r)
  unfolding collect
  collect-Quiet name s (err e) = tt
  collect-Quiet name s (ok o) =
      Quiet-bind prefix domain _ (complete prefix (cert_domain (to_lower domain)) o s)
        (complete-Quiet o s)
        (elim [
          | err e ↦ tt
          | ok bs ↦
              Quiet-bind prefix domain (λ _. ret (ok (pem_chain (encode_chain bs))))
                (clear_order prefix name) (clear_order-Quiet prefix domain name) (λ _. tt)
        ])

  issued-Quiet :
      (s : Signer)
      → Quiet prefix domain {A = Result Content × Bool} (do
        found ← obtain_order prefix (to_lower domain) (cert_domain (to_lower domain)) s.spki
        chain_pem ← collect prefix (to_lower domain) (cert_domain (to_lower domain)) s found
        ret (chain_pem, true))
  issued-Quiet s =
      Quiet-bind prefix domain _
        (obtain_order prefix (to_lower domain) (cert_domain (to_lower domain)) s.spki)
        (obtain_order-Quiet prefix domain (to_lower domain) s.spki)
        (λ found.
          Quiet-bind prefix domain _
            (collect prefix (to_lower domain) (cert_domain (to_lower domain)) s found)
            (collect-Quiet (to_lower domain) s found) (λ r. tt))

  pub issue-Quiet :
      (registered : Bool) (s : Signer) → Quiet prefix domain (issue prefix registered domain s)
  unfolding issue ensure_registered
  issue-Quiet true s = issued-Quiet s
  issue-Quiet false s = (tt, elim [ err e ↦ tt | ok done ↦ issued-Quiet s ])
