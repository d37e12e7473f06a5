-- ===== src/Issuer/Answer.antt =====
-- fulfillAuthorization of issuer.go: a challenge is accepted once its answer is in storage, and the
-- answer is withdrawn at the end.
use go_certs_manager.Base.{
  Bool, Option, Text, false, if◌then◌else◌, inl, inr, none, refl, some, true, ◌≡◌, ◌⊎◌,
}
use go_certs_manager.Effects.{
  Authorization, Call, Challenge, ChallengeType, Content, Reply, Result, accept_challenge,
  challenge_pem, err, get_authorization, http_01, no_challenge, ok, other_challenge, plain_text,
  put_object, remove_object, ret, tls_alpn_01, wait_authorization,
}
use go_certs_manager.Effects.Logic.{Safe, Safe-if}
use go_certs_manager.Issuer.{
  answer_challenge, challenge_content, challenge_key, fulfill_authorization, pick_challenge,
}

-- What has been learnt: the authorization, the challenge whose answer has been stored, and whether
-- the removal of the answer has been asked for.
pub record Answering : Type 0 where
  pub authz : Option (Result Authorization)
  pub mirrored : Option Challenge
  pub withdrawn : Bool

-- The challenge that a stored answer is for.
abbrev pub answered : Content → Option Challenge
answered (challenge_pem c) = some c
answered (plain_text c) = some c
answered _ = none

abbrev pub note_answering : Answering → (c : Call) → Reply c → Answering
note_answering g (get_authorization u) r = record g { authz = some r }
note_answering g (put_object k c o) (ok done) = record g { mirrored = answered c }
note_answering g (remove_object k) r = record g { withdrawn = true }
note_answering g c r = g

-- The removal of the answer has been asked for, if there was one.
abbrev pub IsWithdrawn : Answering → Result (Unit {0}) → Type 0
IsWithdrawn g r = (g.mirrored ≡ none) ⊎ (g.withdrawn ≡ true)

answered-challenge_content : (c : Challenge) → answered (challenge_content c) ≡ some c
unfolding challenge_content
answered-challenge_content c = go c.type
  where
    go :
        (t : ChallengeType)
        → answered (elim t [ tls_alpn_01 ↦ challenge_pem c | _ ↦ plain_text c ]) ≡ some c
    go tls_alpn_01 = refl
    go http_01 = refl
    go other_challenge = refl

module _ (prefix domain url : Text) where
  -- The authorization asks for this challenge.
  abbrev pub IsPicked : Answering → Challenge → Type 0
  IsPicked g c =
      (a : Authorization) × (g.authz ≡ some (ok a))
      × (a.authorized ≡ false)
      × (pick_challenge a.challenges ≡ some c)

  abbrev pub MayAnswer : Answering → Call → Type 0
  MayAnswer g (get_authorization u) = u ≡ url
  MayAnswer g (put_object k content o) =
      (c : Challenge) × IsPicked g c
      × (k ≡ challenge_key prefix domain c)
      × (content ≡ challenge_content c)
  MayAnswer g (accept_challenge c) = IsPicked g c × (g.mirrored ≡ some c) × (g.withdrawn ≡ false)
  MayAnswer g (wait_authorization u) = (a : Authorization) × (g.authz ≡ some (ok a)) × (u ≡ a.uri)
  MayAnswer g (remove_object k) =
      (c : Challenge) × (g.mirrored ≡ some c) × (k ≡ challenge_key prefix domain c)
  MayAnswer g c = ⊥

  answer_challenge-Safe :
      (a : Authorization) (c : Challenge)
      → a.authorized ≡ false
      → pick_challenge a.challenges ≡ some c
      → Safe MayAnswer note_answering IsWithdrawn
          (record { authz = some (ok a); mirrored = none; withdrawn = false })
          (answer_challenge prefix domain a c)
  unfolding answer_challenge
  answer_challenge-Safe a c pending picked = (
    (c, (a, refl, pending, picked), refl, refl),
    elim [
      | err e ↦ inl refl
      | ok done ↦ (
        ((a, refl, pending, picked), answered-challenge_content c, refl),
        elim [
          | err e ↦ ((c, answered-challenge_content c, refl), λ r. inr refl)
          | ok accepted ↦
              ((a, refl, refl), λ waited. ((c, answered-challenge_content c, refl), λ r. inr refl))
        ],
      )
    ],
  )

  authorized-Safe :
      (a : Authorization)
      → Safe MayAnswer note_answering IsWithdrawn
          (record { authz = some (ok a); mirrored = none; withdrawn = false })
          (if a.authorized then ret (ok tt) else elim (pick_challenge a.challenges) [
            | none ↦ ret (err no_challenge)
            | some c ↦ answer_challenge prefix domain a c
          ])
  authorized-Safe a =
      Safe-if MayAnswer note_answering IsWithdrawn _ (ret (ok tt)) _ a.authorized
        (λ already. inl refl) (λ pending. picked_one pending (pick_challenge a.challenges) refl)
    where
      picked_one :
          a.authorized ≡ false
          → (p : Option Challenge) → pick_challenge a.challenges ≡ p
          → Safe MayAnswer note_answering IsWithdrawn
              (record { authz = some (ok a); mirrored = none; withdrawn = false })
              (elim p [
                | none ↦ ret (err no_challenge)
                | some c ↦ answer_challenge prefix domain a c
              ])
      picked_one pending none e = inl refl
      picked_one pending (some c) e = answer_challenge-Safe a c pending e

  -- Whatever the CA and storage answer, the only challenge answered is the one picked from an
  -- authorization that is not valid yet; its answer is stored under its own name, it is accepted
  -- only after that has gone through, and however the attempt ends, the removal of an answer that
  -- was stored has been asked for.
  pub fulfill_authorization-IsWithdrawn :
      Safe MayAnswer note_answering IsWithdrawn
        (record { authz = none; mirrored = none; withdrawn = false })
        (fulfill_authorization prefix domain url)
  unfolding fulfill_authorization
  fulfill_authorization-IsWithdrawn = (refl, elim [ err e ↦ inl refl | ok a ↦ authorized-Safe a ])
