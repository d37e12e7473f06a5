-- ===== src/Challenge/Served.antt =====
-- What the HTTP-01 handler of challenge.go reads, remembers and answers.
use go_certs_manager.Base.{
  Bool, Bool-cases, Map, Option, Text, [], any, ap, arith, codes, false, has_prefix, if◌then◌else◌,
  inl, inr, leb, length, length-insert-le, lookup, ltb, none, refl, some, sym, trim_prefix, true, ℕ,
  ◌+◌, ◌==◌, ◌||◌, ◌∙◌, ◌∷◌, ◌≡◌, ◌≤◌, ◌⊎◌,
}
use go_certs_manager.Challenge.{
  ChallengeServer, Response, all_token_chars, from_storage, http_key, key_authorization,
  max_token_length, missed_at, not_found, not_staged, note_token_miss, recent_token_miss,
  serve_http, serve_token, token_char, token_miss_cap, token_miss_ttl, valid_token,
}
use go_certs_manager.Effects.{
  Call, Content, Reply, Result, do_call, err, garbage, get_object, ok, on_ok, ret, time_now, ◌>>=◌,
}
use go_certs_manager.Effects.Logic.{Safe, Safe-if}

-- A byte that no key of another kind of object is free of.
abbrev pub is_separator : ℕ → Bool
is_separator c = (c == b'/') || (c == b'.')

token_char-apart : (c : ℕ) → token_char c ≡ true → is_separator c ≡ false
unfolding token_char
token_char-apart c h = ground arith

all_token_chars-apart : (s : Text) → all_token_chars s ≡ true → any is_separator s ≡ false
unfolding all_token_chars
all_token_chars-apart [] h = refl
all_token_chars-apart (c ∷ s) h = elim (Bool-cases (token_char c)) [
  | inl e ↦ rw (token_char-apart c e) (all_token_chars-apart s (sym (rw e refl) ∙ h))
  | inr e ↦ absurd (ground (arith, e, h))
]

-- What a token that may be looked up is.
abbrev pub IsToken : Text → Type 0
IsToken token =
    (¬ (token ≡ [])) × (length token ≤ max_token_length) × (any is_separator token ≡ false)

valid_token-IsToken : (token : Text) → valid_token token ≡ true → IsToken token
unfolding valid_token
valid_token-IsToken [] h = absurd (ground (arith, h))
valid_token-IsToken (c ∷ s) h = (
  λ e. absurd (ground (arith, e)),
  ground (arith, h),
  all_token_chars-apart (c ∷ s) (ground (arith, h)),
)

-- What storage has said, and the time.
pub record Asked : Type 0 where
  pub body : Option (Result Content)
  pub time : Option ℕ

abbrev pub not_asked : Asked
not_asked = record { body = none; time = none }

abbrev pub note_asked : Asked → (c : Call) → Reply c → Asked
note_asked g (get_object k) r = record g { body = some r }
note_asked g time_now t = record g { time = some t }
note_asked g c r = g

abbrev content_of : Response → Content
content_of not_found = garbage
content_of (key_authorization k) = k

module _ (c : ChallengeServer) where
  -- Storage is asked about a well-formed token that this node has not staged and has not on record
  -- as found missing within the last ten seconds.
  abbrev pub MayServe : Asked → Call → Type 0
  MayServe g (get_object k) =
      (token : Text) × (k ≡ http_key c token)
      × IsToken token
      × (lookup token c.http ≡ none)
      × ((at : ℕ)
          → lookup token c.misses ≡ some at
          → (t : ℕ) × (g.time ≡ some t) × (ltb t (at + token_miss_ttl) ≡ false))
  MayServe g time_now = Unit {0}
  MayServe g call' = ⊥

  -- What is served was staged here or is what storage has just returned; the server changes at
  -- most in its table of misses, which stays within its cap.
  abbrev pub IsServed : Asked → Response × ChallengeServer → Type 0
  IsServed g (r, c') =
      (c'.http ≡ c.http)
      × (c'.alpn ≡ c.alpn)
      × (length c.misses ≤ token_miss_cap → length c'.misses ≤ token_miss_cap)
      × ((key_auth : Content)
          → r ≡ key_authorization key_auth
          → ((token : Text) × (lookup token c.http ≡ some key_auth))
            ⊎ (g.body ≡ some (ok key_auth)))

  unchanged : (g : Asked) → IsServed g (not_found, c)
  unchanged g = (refl, refl, λ b. b, λ k e. absurd (ground (arith, e)))

  bounded :
      (token : Text) (t : ℕ)
      → length c.misses ≤ token_miss_cap
      → length (missed_at token t c).misses ≤ token_miss_cap
  unfolding missed_at
  bounded token t b = elim (Bool-cases (leb token_miss_cap (length c.misses))) [
    | inl full ↦ rw full (omega (arith, length-insert-le token t no_misses))
    | inr room ↦ rw room (ground (arith, room, length-insert-le token t c.misses))
  ]
    where
      no_misses : Map ℕ
      no_misses = []

  from_storage-IsServed :
      (g : Asked) (token : Text)
      → MayServe g (get_object (http_key c token))
      → Safe MayServe note_asked IsServed g (from_storage token c)
  unfolding from_storage note_token_miss missed_at
  from_storage-IsServed g token may = (may, λ body. got body)
    where
      got :
          (body : Result Content)
          → Safe MayServe note_asked IsServed
              (record g { body = some body })
              (on_ok body
                (λ e. do c' ← note_token_miss token c; ret (not_found, c'))
                λ key_auth. ret (key_authorization key_auth, c))
      got (ok key_auth) = (refl, refl, λ b. b, λ k e. inr (ap (λ r. some (ok (content_of r))) e))
      got (err e) = (tt, λ t. (refl, refl, bounded token t, λ k e. absurd (ground (arith, e))))

  not_staged-IsServed :
      (token : Text)
      → IsToken token
      → lookup token c.http ≡ none
      → Safe MayServe note_asked IsServed not_asked (not_staged token c)
  unfolding not_staged recent_token_miss
  not_staged-IsServed token is_token absent' =
      Safe-if MayServe note_asked IsServed not_asked
        (do
          recent' ← recent_token_miss token c
          if recent' then ret (not_found, c) else from_storage token c)
        (ret (not_found, c)) c.has_backend (λ on. remembered (lookup token c.misses) refl)
        (λ off. unchanged not_asked)
    where
      remembered :
          (at : Option ℕ)
          → lookup token c.misses ≡ at
          → Safe MayServe note_asked IsServed not_asked (do
            recent' ← (elim at [
              | none ↦ ret false
              | some at ↦ do now ← do_call time_now; ret (ltb now (at + token_miss_ttl))
            ])
            if recent' then ret (not_found, c) else from_storage token c)
      remembered none e =
          from_storage-IsServed not_asked token
            (token, refl, is_token, absent', λ at is_at. absurd (ground (arith, e, is_at)))
      remembered (some at) e = (
        tt,
        λ t.
            Safe-if MayServe note_asked IsServed (record not_asked { time = some t })
              (ret (not_found, c)) (from_storage token c) (ltb t (at + token_miss_ttl))
              (λ early. unchanged (record not_asked { time = some t }))
              (λ late.
                from_storage-IsServed (record not_asked { time = some t }) token
                  (
                    token,
                    refl,
                    is_token,
                    absent',
                    λ at' is_at. (t, refl, ground (arith, sym e ∙ is_at, late)),
                  )),
      )

  -- Every storage read of the HTTP-01 handler is for a token: not empty, at most 128 bytes,
  -- without "/" or ".", under the directory of challenges, so that no path of a request reads
  -- another object; it is made only for a token that this node has not staged and that its table of
  -- misses, which is emptied when it is full, does not hold as found missing in the last ten
  -- seconds. The handler answers only with what this node has staged or
  -- what storage has just returned, and it keeps the table of misses within its cap.
  pub serve_http-IsServed :
      (path : Text) → Safe MayServe note_asked IsServed not_asked (serve_http path c)
  unfolding serve_http serve_token
  serve_http-IsServed path =
      Safe-if MayServe note_asked IsServed not_asked (serve_token token c) (ret (not_found, c))
        (has_prefix path prefix)
        (λ under.
          Safe-if MayServe note_asked IsServed not_asked
            (elim (lookup token c.http) [
              | some key_auth ↦ ret (key_authorization key_auth, c)
              | none ↦ not_staged token c
            ])
            (ret (not_found, c)) (valid_token token)
            (λ valid. staged valid (lookup token c.http) refl) (λ bad. unchanged not_asked))
        (λ elsewhere. unchanged not_asked)
    where
      prefix : Text
      prefix = codes "/.well-known/acme-challenge/"

      token : Text
      token = trim_prefix path prefix

      staged :
          valid_token token ≡ true
          → (found : Option Content) → lookup token c.http ≡ found
          → Safe MayServe note_asked IsServed not_asked (elim found [
            | some key_auth ↦ ret (key_authorization key_auth, c)
            | none ↦ not_staged token c
          ])
      staged valid none e = not_staged-IsServed token (valid_token-IsToken token valid) e
      staged valid (some key_auth) e =
          (refl, refl, λ b. b, λ k same. inl (token, e ∙ ap (λ r. some (content_of r)) same))
