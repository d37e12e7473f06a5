-- ===== src/Challenge/Mirrored.antt =====
-- What staging and clearing an answer in challenge.go does, here and in storage.
use go_certs_manager.Base.{
  Bool, Option, Text, arith, false, insert, lookup, lookup-insert_self, lookup-remove_self, none,
  refl, remove, some, true, ◌≡◌,
}
use go_certs_manager.Challenge.{ChallengeServer, http_key, put_http}
use go_certs_manager.Effects.{
  Call, Content, Reply, Result, do_call, err, is_ok, ok, on_ok, overwrite, put_object,
  remove_object, ret, ◌>>=◌,
}
use go_certs_manager.Effects.Logic.{Safe, Safe-if}

-- The object that was written, with whether the write went through, and the one removed.
pub record Mirror : Type 0 where
  pub wrote : Option (Text × Content × Bool)
  pub dropped : Option Text

abbrev pub no_mirror : Mirror
no_mirror = record { wrote = none; dropped = none }

abbrev pub note_mirror : Mirror → (c : Call) → Reply c → Mirror
note_mirror g (put_object k content o) r = record g { wrote = some (k, content, is_ok r) }
note_mirror g (remove_object k) r = record g { dropped = some k }
note_mirror g c r = g

abbrev pub MayMirror : Text → Mirror → Call → Type 0
MayMirror k' g (put_object k content o) = k ≡ k'
MayMirror k' g (remove_object k) = k ≡ k'
MayMirror k' g c = ⊥

module _ (c : ChallengeServer) (token : Text) (key_auth : Content) where
  -- A staged token is served here at once, and by every node if there is a backend; a token whose
  -- mirror write failed is not served here either.
  abbrev pub IsStaged : Mirror → Result (Unit {0}) × ChallengeServer → Type 0
  IsStaged g (ok x, c') =
      (lookup token c'.http ≡ some key_auth)
      × (lookup token c'.misses ≡ none)
      × (c.has_backend ≡ true → g.wrote ≡ some (http_key c token, key_auth, true))
  IsStaged g (err e, c') =
      (lookup token c'.http ≡ none) × (g.wrote ≡ some (http_key c token, key_auth, false))

  -- PutHTTP succeeds exactly with the key authorization staged and no miss of the token
  -- remembered, and, where there is a backend, stored under the key that every node's handler
  -- reads for the token; it fails only when that write failed, and then the token is not staged.
  pub put_http-IsStaged :
      Safe (MayMirror (http_key c token)) note_mirror IsStaged no_mirror (put_http token key_auth c)
  unfolding put_http
  put_http-IsStaged =
      Safe-if (MayMirror (http_key c token)) note_mirror IsStaged no_mirror
        (do
          put ← do_call (put_object (http_key c token) key_auth overwrite)
          on_ok put (λ e. ret (err e, record staged { http = remove token staged.http }))
              λ x. ret (ok tt, staged))
        (ret (ok tt, staged)) c.has_backend (λ on. (refl, λ put. written put))
        (λ off. (here, forgotten', λ on. absurd (ground (arith, on, off))))
    where
      staged : ChallengeServer
      staged = record c { http = insert token key_auth c.http; misses = remove token c.misses }

      here : lookup token staged.http ≡ some key_auth
      here = lookup-insert_self token key_auth c.http

      forgotten' : lookup token staged.misses ≡ none
      forgotten' = lookup-remove_self token c.misses

      written :
          (r : Result (Unit {0}))
          → Safe
              (MayMirror (http_key c token))
              note_mirror
              IsStaged
              (note_mirror no_mirror (put_object (http_key c token) key_auth overwrite) r)
              (on_ok r
                (λ e. ret (err e, record staged { http = remove token staged.http }))
                λ x. ret (ok tt, staged))
      written (ok x) = (here, forgotten', λ on. refl)
      written (err e) = (lookup-remove_self token staged.http, refl)
