-- ===== src/OnDemand/Pointed.antt =====
-- On what evidence the pre-flight of ondemand.go refuses a hostname, and on what it lets it pass.
use go_certs_manager.Base.{
  Bool-cases, List, Option, Text, [], arith, false, if◌then◌else◌, inl, inr, lookup,
  lookup-insert_self, lookup-remove_self, ltb, none, refl, some, text_eq, true, ℕ, ◌+◌, ◌∷◌, ◌≡◌,
  ◌≢◌, ◌⊎◌,
}
use go_certs_manager.Effects.{
  Call, Error, Reply, Result, do_call, err, lookup_cname, lookup_host, ok, on_ok, ret, time_now,
  ◌>>=◌,
}
use go_certs_manager.Effects.Logic.{Safe, Safe-bind, Safe-if}
use go_certs_manager.OnDemand.{OnDemand, preflight_backoff}
use go_certs_manager.OnDemand.Preflight.{
  Reason, compare_hosts, does_not_resolve, is_cname, lookup_says_absent, preflight_ok,
  recent_failure, resolve, resolve_unless, resolved, resolves_elsewhere, resolves_to, shares,
  undotted,
}

-- The answers of DNS, in the order of the questions, and the last reading of the clock.
pub record Dns : Type 0 where
  pub cname : Option (Result Text)
  pub ours : Option (Result (List Text))
  pub theirs : Option (Result (List Text))
  pub time : Option ℕ

-- Before any question to DNS.
abbrev pub unasked : Option ℕ → Dns
unasked time' = record { cname = none; ours = none; theirs = none; time = time' }

abbrev pub note_dns : Dns → (c : Call) → Reply c → Dns
note_dns g (lookup_cname h) r = record g { cname = some r }
note_dns g (lookup_host h) r = elim g.ours [
  | none ↦ record g { ours = some r }
  | some a ↦ record g { theirs = some r }
]
note_dns g time_now t = record g { time = some t }
note_dns g c r = g

-- What passes a hostname, and what refuses it: the latter rests on definite answers.
pub data Passes (target : Text) (g : Dns) : Type 0 where
  by_cname :
      (name : Text)
      → g.cname ≡ some (ok name)
      → text_eq (undotted name) target ≡ true
      → Passes target g
  ours_unknown : (e : Error) → g.ours ≡ some (err e) → Passes target g
  theirs_unknown :
      (e : Error) → g.theirs ≡ some (err e) → lookup_says_absent e ≡ false → Passes target g
  by_address :
      (ours theirs : List Text)
      → g.ours ≡ some (ok ours)
      → g.theirs ≡ some (ok theirs)
      → shares ours theirs ≡ true
      → Passes target g

pub data Refutes (target : Text) (g : Dns) : Reason → Type 0 where
  absent :
      (ours : List Text) (e : Error)
      → g.ours ≡ some (ok ours)
      → g.theirs ≡ some (err e)
      → lookup_says_absent e ≡ true
      → Refutes target g does_not_resolve
  elsewhere :
      (ours theirs : List Text)
      → g.ours ≡ some (ok ours)
      → g.theirs ≡ some (ok theirs)
      → shares ours theirs ≡ false
      → Refutes target g (resolves_elsewhere theirs target)

module _ (hostname : Text) (o : OnDemand) where
  abbrev pub IsBacking : Dns → Type 0
  IsBacking g =
      (until : ℕ) × (t : ℕ) × (lookup hostname o.preflight ≡ some until)
      × (g.time ≡ some t)
      × (ltb t until ≡ true)

  -- No earlier refusal stands: there is none, or it has run out.
  abbrev pub IsClear : Dns → Type 0
  IsClear g =
      (lookup hostname o.preflight ≡ none)
      ⊎ ((until : ℕ) × (t : ℕ) × (lookup hostname o.preflight ≡ some until)
          × (g.time ≡ some t)
          × (ltb t until ≡ false))

  abbrev pub MayAsk : Dns → Call → Type 0
  MayAsk g (lookup_cname h) = (h ≡ hostname) × IsClear g
  MayAsk g (lookup_host h) = IsClear g × ((h ≡ undotted o.cfg.expected_target) ⊎ (h ≡ hostname))
  MayAsk g time_now = Unit {0}
  MayAsk g c = ⊥

  abbrev IsResolved : Dns → Option Reason → Type 0
  IsResolved g none = Passes (undotted o.cfg.expected_target) g
  IsResolved g (some r) = Refutes (undotted o.cfg.expected_target) g r

  -- How the pre-flight ends.
  abbrev Judgement : Dns → Option Reason × OnDemand → Type 0
  Judgement g (none, o') =
      ((o.cfg.expected_target ≡ []) × (o' ≡ o))
      ⊎ (Passes (undotted o.cfg.expected_target) g × (lookup hostname o'.preflight ≡ none))
  Judgement g (some recent_failure, o') = IsBacking g × (o' ≡ o)
  Judgement g (some reason, o') =
      Refutes (undotted o.cfg.expected_target) g reason
      × ((t : ℕ) × (g.time ≡ some t)
          × (lookup hostname o'.preflight ≡ some (t + preflight_backoff)))

  -- Nothing but the refusals changes.
  abbrev pub IsJudged : Dns → Option Reason × OnDemand → Type 0
  IsJudged g x = Judgement g x × (x.1 ≡ record o { preflight = x.1.preflight })

  compared_hosts :
      (g : Dns) (ours : List Text) (theirs : Result (List Text))
      → g.ours ≡ some (ok ours)
      → g.theirs ≡ some theirs
      → IsResolved g (compare_hosts (undotted o.cfg.expected_target) ours theirs)
  unfolding compare_hosts
  compared_hosts g ours (err e) p q = elim (Bool-cases (lookup_says_absent e)) [
    | inl yes' ↦ rw yes' (absent ours e p q yes')
    | inr no' ↦ rw no' (theirs_unknown e q no')
  ]
  compared_hosts g ours (ok theirs) p q = elim (Bool-cases (shares ours theirs)) [
    | inl yes' ↦ rw yes' (by_address ours theirs p q yes')
    | inr no' ↦ rw no' (elsewhere ours theirs p q no')
  ]

  resolves_to-IsResolved :
      (time' : Option ℕ)
      → IsClear (unasked time')
      → Safe MayAsk note_dns IsResolved
          (unasked time')
          (resolves_to hostname (undotted o.cfg.expected_target))
  unfolding resolves_to is_cname
  resolves_to-IsResolved time' clear = ((refl, clear), λ cname. named cname)
    where
      target : Text
      target = undotted o.cfg.expected_target

      addressed :
          (cname : Result Text) (ours : Result (List Text))
          → Safe MayAsk note_dns IsResolved
              (record (unasked time') { cname = some cname; ours = some ours })
              (on_ok ours
                (λ e. ret none)
                λ addresses. (do
                  theirs ← do_call (lookup_host hostname)
                  ret (compare_hosts target addresses theirs)))
      addressed cname (err e) = ours_unknown e refl
      addressed cname (ok addresses) = (
        (clear, inr refl),
        λ theirs.
            compared_hosts
              (record (unasked time') {
                cname = some cname;
                ours = some (ok addresses);
                theirs = some theirs;
              })
              addresses theirs refl refl,
      )

      asked :
          (cname : Result Text)
          → Safe MayAsk note_dns IsResolved
              (record (unasked time') { cname = some cname })
              (do
                ours ← do_call (lookup_host target)
                on_ok ours
                    (λ e. ret none)
                    λ addresses. (do
                      theirs ← do_call (lookup_host hostname)
                      ret (compare_hosts target addresses theirs)))
      asked cname = ((clear, inl refl), λ ours. addressed cname ours)

      named :
          (cname : Result Text)
          → Safe MayAsk note_dns IsResolved
              (record (unasked time') { cname = some cname })
              (if is_cname target cname then ret none else (do
                ours ← do_call (lookup_host target)
                on_ok ours
                    (λ e. ret none)
                    λ addresses. (do
                      theirs ← do_call (lookup_host hostname)
                      ret (compare_hosts target addresses theirs))))
      named (err e) = asked (err e)
      named (ok name) = elim (Bool-cases (text_eq (undotted name) target)) [
        | inl yes' ↦ rw yes' (by_cname name refl yes')
        | inr no' ↦ rw no' (asked (ok name))
      ]

  later :
      (g : Dns) (t : ℕ) (r : Reason)
      → Refutes (undotted o.cfg.expected_target) g r
      → Refutes (undotted o.cfg.expected_target) (record g { time = some t }) r
  later g t r (absent ours e p q a) = absent ours e p q a
  later g t r (elsewhere ours theirs p q a) = elsewhere ours theirs p q a

  definite : (g : Dns) → Refutes (undotted o.cfg.expected_target) g recent_failure → ⊥
  definite g r = not_recent recent_failure r refl
    where
      not_recent :
          (reason : Reason)
          → Refutes (undotted o.cfg.expected_target) g reason
          → reason ≢ recent_failure
      not_recent reason (absent ours e p q a) same = absurd (ground arith)
      not_recent reason (elsewhere ours theirs p q a) same = absurd (ground arith)

  resolved-IsJudged :
      (g : Dns) (reason : Option Reason)
      → IsResolved g reason
      → Safe MayAsk note_dns IsJudged g (resolved hostname reason o)
  unfolding resolved
  resolved-IsJudged g none p = (inr (p, lookup-remove_self hostname o.preflight), refl)
  resolved-IsJudged g (some recent_failure) r = absurd (definite g r)
  resolved-IsJudged g (some does_not_resolve) r = (
    tt,
    λ t. (
      (
        later g t does_not_resolve r,
        (t, refl, lookup-insert_self hostname (t + preflight_backoff) o.preflight),
      ),
      refl,
    ),
  )
  resolved-IsJudged g (some (resolves_elsewhere theirs target)) r = (
    tt,
    λ t. (
      (
        later g t (resolves_elsewhere theirs target) r,
        (t, refl, lookup-insert_self hostname (t + preflight_backoff) o.preflight),
      ),
      refl,
    ),
  )

  resolve-IsJudged :
      (time' : Option ℕ)
      → IsClear (unasked time')
      → Safe MayAsk note_dns IsJudged (unasked time') (resolve hostname o)
  unfolding resolve
  resolve-IsJudged time' clear =
      Safe-bind MayAsk note_dns IsResolved IsJudged (λ reason. resolved hostname reason o)
        (unasked time') (resolves_to hostname (undotted o.cfg.expected_target))
        (resolves_to-IsResolved time' clear) resolved-IsJudged

  -- The pre-flight asks DNS only when no earlier refusal of the hostname stands, about the
  -- hostname and the expected target alone. It refuses on definite answers only: the hostname has
  -- no address, or none of the target's, while the target's addresses are known; then no question
  -- is asked for the next 24 hours. It passes where the canonical name is the target, where an
  -- address is shared, where DNS could not tell, or where no target is expected, and a passed
  -- hostname has no refusal standing. Nothing but the refusals changes.
  pub preflight_ok-IsJudged : Safe MayAsk note_dns IsJudged (unasked none) (preflight_ok hostname o)
  unfolding preflight_ok resolve_unless
  preflight_ok-IsJudged = judged o.cfg.expected_target refl
    where
      told :
          (b : Option ℕ)
          → lookup hostname o.preflight ≡ b
          → Safe MayAsk note_dns IsJudged (unasked none) (resolve_unless b hostname o)
      told none e = resolve-IsJudged none (inl e)
      told (some until) e = (
        tt,
        λ t.
            Safe-if MayAsk note_dns IsJudged (unasked (some t)) (ret (some recent_failure, o))
              (resolve hostname o) (ltb t until)
              (λ early. (((until, t, e, refl, early), refl), refl))
              (λ late. resolve-IsJudged (some t) (inr (until, t, e, refl, late))),
      )

      judged :
          (target : Text)
          → o.cfg.expected_target ≡ target
          → Safe MayAsk note_dns IsJudged (unasked none) (elim target [
            | [] ↦ ret (none, o)
            | c ∷ s ↦ resolve_unless (lookup hostname o.preflight) hostname o
          ])
      judged [] e = (inl (e, refl), refl)
      judged (c ∷ s) e = told (lookup hostname o.preflight) refl
