-- ===== src/Node/Requested.antt =====
-- The guards that requestIssue of manager.go puts before the order that a handshake asks for.
use go_certs_manager.Base.{
  Bool, Option, Text, ap, false, inl, inr, none, refl, some, subst, sym, true, ℕ, ◌∙◌, ◌≡◌,
}
use go_certs_manager.Bucket.{take as take_token}
use go_certs_manager.Effects.{Prog, do_call, ret, time_now, ◌>>=◌}
use go_certs_manager.Effects.Logic.{Safe, Safe-bind}
use go_certs_manager.Node.{Node, with_on_demand}
use go_certs_manager.Node.Admission.{
  IsGranted, IsPointed, MayAdmit, Passes-time, preflight_ok-Admits,
}
use go_certs_manager.Node.Hello.{admit_background, admit_request}
use go_certs_manager.OnDemand.{OnDemand}
use go_certs_manager.OnDemand.Pointed.{Dns, IsJudged, note_dns, unasked}
use go_certs_manager.OnDemand.Preflight.{Reason, preflight_ok}

module _ (host : Text) (o : OnDemand) where
  -- An order for an on-demand hostname goes on only pointed and with a token.
  abbrev pub IsBudgeted : Dns → Bool × Node → Type 0
  IsBudgeted g (false, n') = Unit {0}
  IsBudgeted g (true, n') = IsPointed host o g × IsGranted host o g n'

  budgeted :
      (g : Dns) (o1 : OnDemand) (n : Node) (t : ℕ) (b : Bool)
      → IsPointed host o g
      → o1.orders ≡ o.orders
      → (take_token t o1.orders).1 ≡ b
      → IsBudgeted
          (record g { time = some t })
          (b, with_on_demand (record o1 { orders = (take_token t o1.orders).0 }) n)
  budgeted g o1 n t false pointed same e = tt
  budgeted g o1 n t true pointed same e = (
    Passes-time host o g t pointed,
    (
      t,
      record o1 { orders = (take_token t o1.orders).0 },
      refl,
      ap (λ q. (take_token t q).1) (sym same) ∙ e,
      refl,
      ap (λ q. (take_token t q).0) same,
    ),
  )

  -- Before the order that a handshake asks for on behalf of an on-demand hostname: no call places
  -- one, DNS is asked under the rules of the pre-flight, and the order goes on only if the
  -- pre-flight passes and the bucket grants a token, which is spent.
  pub admit_request-IsBudgeted :
      (n : Node)
      → n.on_demand ≡ some o
      → Safe (MayAdmit host o) note_dns IsBudgeted (unasked none) (admit_request host true n)
  unfolding admit_request admit_background
  admit_request-IsBudgeted n has =
      subst
        (λ q.
          Safe (MayAdmit host o) note_dns IsBudgeted (unasked none)
            (elim q [ none ↦ ret (true, n) | some p ↦ admit_background host p n ]))
        (sym has) guarded
    where
      after : Option Reason × OnDemand → Prog (Bool × Node)
      after x = elim x.0 [
        | some r ↦ ret (false, with_on_demand x.1 n)
        | none ↦ do
          now ← do_call time_now
          let (orders', granted) = take_token now x.1.orders
          ret (granted, with_on_demand (record x.1 { orders = orders' }) n)
      ]

      passed : (g : Dns) (o' : OnDemand) → IsJudged host o g (none, o') → IsPointed host o g
      passed g o' (inl open_to_all, f) = inl open_to_all.0
      passed g o' (inr p, f) = inr p.0

      judged :
          (g : Dns) (x : Option Reason × OnDemand)
          → IsJudged host o g x
          → Safe (MayAdmit host o) note_dns IsBudgeted g (after x)
      judged g (some r, o') j = tt
      judged g (none, o') j = (
        tt,
        λ t.
            budgeted g o' n t (take_token t o'.orders).1 (passed g o' j) (ap (λ q. q.orders) j.1)
              refl,
      )

      guarded :
          Safe (MayAdmit host o) note_dns IsBudgeted (unasked none) (admit_background host o n)
      guarded =
          Safe-bind (MayAdmit host o) note_dns (IsJudged host o) IsBudgeted after (unasked none)
            (preflight_ok host o) (preflight_ok-Admits host o) judged
