-- ===== src/Node/Admission.antt =====
-- The guards that maintainOnDemand of scheduler.go puts before an on-demand order.
use go_certs_manager.Base.{
  Bool, Bool-cases, Option, Text, [], ap, arith, false, inl, inr, none, refl, some, subst, sym,
  true, ℕ, ◌∙◌, ◌≡◌, ◌⊎◌,
}
use go_certs_manager.Bucket.{take as take_token}
use go_certs_manager.CertCache.{CertCache, absent_from_storage, get, refresh}
use go_certs_manager.CertCache.Reads.{Adopts, IsRead, refresh-Adopts}
use go_certs_manager.Effects.{Call, Certificate, Prog, Reply, Result, err, get_object, ok, ret}
use go_certs_manager.Effects.Logic.{Safe, Safe-along, Safe-bind, forget}
use go_certs_manager.Node.{Node, refresh_node, with_cache, with_on_demand}
use go_certs_manager.Node.Maintain.{admit_first, admit_host, admit_pointed}
use go_certs_manager.OnDemand.{OnDemand}
use go_certs_manager.OnDemand.Pointed.{
  Dns, IsJudged, MayAsk, Passes, by_address, by_cname, note_dns, ours_unknown,
  preflight_ok-IsJudged, theirs_unknown, unasked,
}
use go_certs_manager.OnDemand.Preflight.{Reason, preflight_ok, undotted}

-- The guards ask DNS, under the rules of the pre-flight, and read storage and the clock.
abbrev pub MayAdmit : Text → OnDemand → Dns → Call → Type 0
MayAdmit host o g (get_object k) = Unit {0}
MayAdmit host o g c = MayAsk host o g c

pub pre_allows :
    (host : Text) (o : OnDemand) (c : Call) (g h : Dns)
    → g ≡ h
    → MayAsk host o g c
    → MayAdmit host o h c
pre_allows host o (get_object k) g h e m = tt
pre_allows host o c g h e m = subst (λ q. MayAsk host o q c) e m

read_allows :
    (host : Text) (o : OnDemand) (c : Call) (u : Unit {0}) (g : Dns)
    → IsRead u c
    → MayAdmit host o g c
read_allows host o (get_object k) u g m = tt
read_allows host o c u g m = absurd m

read_keeps :
    (c : Call) (r : Reply c) (u : Unit {0}) (g0 g : Dns) → g ≡ g0 → IsRead u c → note_dns g c r ≡ g0
read_keeps (get_object k) r u g0 g e m = e
read_keeps c r u g0 g e m = absurd m

refresh_node-Adopts :
    (host : Text) (o : OnDemand) (n : Node) (g0 : Dns)
    → Safe
        (MayAdmit host o)
        note_dns
        (λ g x.
          (g ≡ g0)
          × ((c : CertCache) × (x.1 ≡ with_cache c n)
              × Adopts host n.manager.cert_cache tt (x.0, c)))
        g0
        (refresh_node host n)
unfolding refresh_node
refresh_node-Adopts host o n g0 =
    Safe-bind (MayAdmit host o) note_dns (λ g x. (g ≡ g0) × Adopts host n.manager.cert_cache tt x)
      (λ g x.
        (g ≡ g0)
        × ((c : CertCache) × (x.1 ≡ with_cache c n) × Adopts host n.manager.cert_cache tt (x.0, c)))
      (λ x. ret (x.0, with_cache x.1 n)) g0 (refresh n.manager.key_store host n.manager.cert_cache)
      (Safe-along IsRead forget (MayAdmit host o) note_dns (Adopts host n.manager.cert_cache)
        (λ g x. (g ≡ g0) × Adopts host n.manager.cert_cache tt x) (λ u g. g ≡ g0)
        (λ u g c e m. read_allows host o c u g m) (λ u g c r e m. read_keeps c r u g0 g e m)
        (λ u g x e a. (e, a)) tt g0 (refresh n.manager.key_store host n.manager.cert_cache) refl
        (refresh-Adopts n.manager.key_store host n.manager.cert_cache))
      (λ g x a. (a.0, (x.1, refl, a.1)))

abbrev certificate_of : Result Certificate → Option Certificate
certificate_of (ok cert) = some cert
certificate_of (err e) = none

-- The pre-flight is one of the guards.
pub preflight_ok-Admits :
    (host : Text) (o : OnDemand)
    → Safe (MayAdmit host o) note_dns (IsJudged host o) (unasked none) (preflight_ok host o)
preflight_ok-Admits host o =
    (Safe-along (MayAsk host o) note_dns (MayAdmit host o) note_dns (IsJudged host o)
      (IsJudged host o) (λ g h. g ≡ h) (λ g h c e m. pre_allows host o c g h e m)
      (λ g h c r e m. ap (λ q. note_dns q c r) e)
      (λ g h x e j. subst (λ q. IsJudged host o q x) e j) (unasked none) (unasked none)
      (preflight_ok host o) refl (preflight_ok-IsJudged host o))

-- What lets an order through. `o` is the on-demand half before, `n'` the node after.
module _ (host : Text) (o : OnDemand) where
  -- The pre-flight passed.
  abbrev pub IsPointed : Dns → Type 0
  IsPointed g = (o.cfg.expected_target ≡ []) ⊎ Passes (undotted o.cfg.expected_target) g

  -- A token for a first issuance was granted at the last reading of the clock, and is spent.
  abbrev pub IsGranted : Dns → Node → Type 0
  IsGranted g n' =
      (t : ℕ) × (o' : OnDemand) × (g.time ≡ some t)
      × ((take_token t o.orders).1 ≡ true)
      × (n'.on_demand ≡ some o')
      × (o'.orders ≡ (take_token t o.orders).0)

  -- No token is spent.
  abbrev pub IsFree : Node → Type 0
  IsFree n' = (o' : OnDemand) × (n'.on_demand ≡ some o') × (o'.orders ≡ o.orders)

  abbrev pub IsAdmitted : Bool → Dns → Bool × Node → Type 0
  IsAdmitted is_renewal g (false, n') = Unit {0}
  IsAdmitted true g (true, n') = IsPointed g × IsFree n'
  IsAdmitted false g (true, n') =
      IsPointed g
      × (((cert : Certificate) × (get host n'.manager.cert_cache ≡ some cert) × IsFree n')
          ⊎ IsGranted g n')

  pub Passes-time : (g : Dns) (t : ℕ) → IsPointed g → IsPointed (record g { time = some t })
  Passes-time g t (inl e) = inl e
  Passes-time g t (inr (by_cname name p q)) = inr (by_cname name p q)
  Passes-time g t (inr (ours_unknown e p)) = inr (ours_unknown e p)
  Passes-time g t (inr (theirs_unknown e p q)) = inr (theirs_unknown e p q)
  Passes-time g t (inr (by_address a b p q r)) = inr (by_address a b p q r)

  admit_first-IsAdmitted :
      (g : Dns) (found : Result Certificate) (o' : OnDemand) (n : Node)
      → IsPointed g
      → o'.orders ≡ o.orders
      → n.on_demand ≡ some o'
      → ((cert : Certificate) → found ≡ ok cert → get host n.manager.cert_cache ≡ some cert)
      → Safe (MayAdmit host o) note_dns (IsAdmitted false) g (admit_first found n (some o'))
  unfolding admit_first
  admit_first-IsAdmitted g (ok cert) o' n pointed same has adopted =
      (pointed, inl (cert, adopted cert refl, (o', has, same)))
  admit_first-IsAdmitted g (err e) o' n pointed same has adopted =
      elim (Bool-cases (absent_from_storage e)) [
        | inl absent' ↦ rw absent' (tt, λ t. granted t (take_token t o'.orders).1 refl)
        | inr unknown ↦ rw unknown tt
      ]
    where
      granted :
          (t : ℕ) (b : Bool)
          → (take_token t o'.orders).1 ≡ b
          → IsAdmitted false
              (record g { time = some t })
              (b, with_on_demand (record o' { orders = (take_token t o'.orders).0 }) n)
      granted t false e = tt
      granted t true e =
          let o'' = record o' { orders = (take_token t o'.orders).0 } in
          (
            Passes-time g t pointed,
            inr (
              t,
              o'',
              refl,
              ap (λ q. (take_token t q).1) (sym same) ∙ e,
              refl,
              ap (λ q. (take_token t q).0) same,
            ),
          )

  adopted_cert :
      (found : Result Certificate) (c c0 : CertCache)
      → Adopts host c0 tt (found, c)
      → (cert : Certificate) → found ≡ ok cert
      → get host c ≡ some cert
  adopted_cert (ok cert') c c0 a cert e = a.0 ∙ ap certificate_of e
  adopted_cert (err e') c c0 a cert e = absurd (ground (arith, e))

  admit_pointed-IsAdmitted :
      (g : Dns) (is_renewal : Bool) (o' : OnDemand) (n : Node)
      → IsPointed g
      → o'.orders ≡ o.orders
      → Safe
          (MayAdmit host o)
          note_dns
          (IsAdmitted is_renewal)
          g
          (admit_pointed host is_renewal (with_on_demand o' n))
  unfolding admit_pointed
  admit_pointed-IsAdmitted g true o' n pointed same = (pointed, (o', refl, same))
  admit_pointed-IsAdmitted g false o' n pointed same =
      let n0 = with_on_demand o' n in
      Safe-bind (MayAdmit host o) note_dns
        (λ g' x.
          (g' ≡ g)
          × ((c : CertCache) × (x.1 ≡ with_cache c n0)
              × Adopts host n0.manager.cert_cache tt (x.0, c)))
        (IsAdmitted false) (λ x. admit_first x.0 x.1 x.1.on_demand) g (refresh_node host n0)
        (refresh_node-Adopts host o n0 g)
        (λ g' x a.
          subst
            (λ q.
              Safe (MayAdmit host o) note_dns (IsAdmitted false) g' (admit_first x.0 q q.on_demand))
            (sym a.1.1)
            (admit_first-IsAdmitted g' x.0 o' (with_cache a.1.0 n0)
              (subst IsPointed (sym a.0) pointed) same refl
              (adopted_cert x.0 a.1.0 n0.manager.cert_cache a.1.2)))

  -- Before an on-demand order is placed: no call places one, DNS is asked under the rules of the
  -- pre-flight, and the order is let through only if the pre-flight passes; a renewal spends no
  -- token; a first issuance is let through only with a certificate that storage turned out to hold,
  -- then without a token, or with a token that the bucket granted and that is spent.
  pub admit_host-IsAdmitted :
      (is_renewal : Bool) (n : Node)
      → Safe
          (MayAdmit host o)
          note_dns
          (IsAdmitted is_renewal)
          (unasked none)
          (admit_host host is_renewal o n)
  unfolding admit_host
  admit_host-IsAdmitted is_renewal n =
      Safe-bind (MayAdmit host o) note_dns (IsJudged host o) (IsAdmitted is_renewal) admitted
        (unasked none) (preflight_ok host o) (preflight_ok-Admits host o) judged
    where
      admitted : Option Reason × OnDemand → Prog (Bool × Node)
      admitted x = elim x.0 [
        | some r ↦ ret (false, with_on_demand x.1 n)
        | none ↦ admit_pointed host is_renewal (with_on_demand x.1 n)
      ]

      passed : (g : Dns) (o' : OnDemand) → IsJudged host o g (none, o') → IsPointed g
      passed g o' (inl open_to_all, f) = inl open_to_all.0
      passed g o' (inr p, f) = inr p.0

      judged :
          (g : Dns) (x : Option Reason × OnDemand)
          → IsJudged host o g x
          → Safe (MayAdmit host o) note_dns (IsAdmitted is_renewal) g (admitted x)
      judged g (some r, o') j = tt
      judged g (none, o') j =
          admit_pointed-IsAdmitted g is_renewal o' n (passed g o' j) (ap (λ q. q.orders) j.1)
