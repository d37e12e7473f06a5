-- ===== src/Manager/Readiness.antt =====
-- What lets an attempt order stays so through the calls that may order.
use go_certs_manager.Layout
use go_certs_manager.Base.{
  Bool, Option, Text, codes, false, inl, inr, none, refl, some, text_eq, text_eq_refl, to_lower, ℕ,
  ◌++◌, ◌≡◌,
}
use go_certs_manager.Effects.{
  Call, Content, Prog, PutOptions, Reply, Result, authorize_order, err, finalize_order, get_object,
  not_exist, ok, put_object, remove_object, time_now,
}
use go_certs_manager.Effects.Logic.{Anything, Safe, Safe-along, forget}
use go_certs_manager.Manager.{Manager}
use go_certs_manager.Manager.Quiet.{Idle, MayAct, MayRest, apart}
use go_certs_manager.Manager.Seen.{
  IsAdmitted, IsDue, IsExclusive, IsReady, IsWarranted, MayOrder, Seen, first, learn, learn_get,
  lease_object,
}

module _ (prefix domain : Text) where
  pub learn_get-chain :
      (g : Seen) (k : Text) (r : Result Content)
      → k ≡ Layout.chain prefix domain
      → learn_get prefix domain g k r ≡ record g { chain = some r; key = none; looked = none }
  learn_get-chain g k r e = rw (e, text_eq_refl (Layout.chain prefix domain)) refl

  pub learn_get-key :
      (g : Seen) (k : Text) (r : Result Content)
      → k ≡ Layout.key prefix domain
      → learn_get prefix domain g k r ≡ record g { key = some r }
  unfolding Layout.chain Layout.key
  learn_get-key g k r e =
      rw
        (
          e,
          apart prefix (codes "eys/" ++ to_lower domain) (codes "erts/" ++ to_lower domain) b'k'
              b'c' refl,
          text_eq_refl (Layout.key prefix domain),
        )
        refl

  pub learn_get-other :
      (g : Seen) (k : Text) (r : Result Content)
      → MayAct prefix domain tt (get_object k)
      → learn_get prefix domain g k r ≡ g
  learn_get-other g k r e = rw (e.0, e.1) refl

  module _ (force : Bool) (m : Manager) where
    act-MayOrder :
        (u : Unit {0}) (g : Seen) (c : Call)
        → IsReady prefix domain force m g
        → MayAct prefix domain u c
        → MayOrder prefix domain force m g c
    act-MayOrder u g (authorize_order d) h e = (e, h)
    act-MayOrder u g (finalize_order o d s) h e = (e, h)
    act-MayOrder u g _ h e = tt

    pub clock-IsAdmitted :
        (g : Seen) (n : ℕ)
        → IsAdmitted prefix domain force m g
        → IsAdmitted prefix domain force m (learn prefix domain g time_now n)
    clock-IsAdmitted g n (t, e, a) = (t, rw e refl, a)

    pub put-IsExclusive :
        (g : Seen) (k : Text) (c : Content) (o : PutOptions) (r : Result (Unit {0}))
        → IsExclusive prefix domain force m g
        → IsExclusive prefix domain force m (learn prefix domain g (put_object k c o) r)
    put-IsExclusive g k c o r (inl free) = inl free
    put-IsExclusive g k c o r (inr held) = inr (rw held refl)

    pub remove-IsExclusive :
        (g : Seen) (k : Text) (r : Result (Unit {0}))
        → text_eq k (lease_object prefix domain) ≡ false
        → IsExclusive prefix domain force m g
        → IsExclusive prefix domain force m (learn prefix domain g (remove_object k) r)
    remove-IsExclusive g k r other (inl free) = inl free
    remove-IsExclusive g k r other (inr held) = inr (rw (held, other) refl)

    clock-IsDue :
        (w : ℕ) (chain' key' : Option (Result Content)) (looked : Option ℕ) (n : ℕ)
        → IsDue w chain' key' looked
        → IsDue w chain' key' (first looked n)
    clock-IsDue w (some (err not_exist)) key' looked n h = tt
    clock-IsDue w (some (ok data')) (some (err not_exist)) looked n h = tt
    clock-IsDue w (some (ok data')) (some (ok k)) (some t) n h = h
    clock-IsDue w (some (ok data')) (some (ok k)) none n h = absurd h
    clock-IsDue w _ _ looked n h = absurd h

    clock-IsWarranted :
        (g : Seen) (n : ℕ)
        → IsWarranted prefix domain force m g
        → IsWarranted prefix domain force m (learn prefix domain g time_now n)
    clock-IsWarranted g n (inl forced) = inl forced
    clock-IsWarranted g n (inr due) = inr (clock-IsDue m.renew_before g.chain g.key g.looked n due)

    act-IsReady :
        (u : Unit {0}) (g : Seen) (c : Call) (r : Reply c)
        → IsReady prefix domain force m g
        → MayAct prefix domain u c
        → IsReady prefix domain force m (learn prefix domain g c r)
    act-IsReady u g (get_object k) r h e = rw (learn_get-other g k r e) h
    act-IsReady u g (put_object k c o) r h e = (h.0, put-IsExclusive g k c o r h.1, h.2)
    act-IsReady u g (remove_object k) r h e = (h.0, remove-IsExclusive g k r e h.1, h.2)
    act-IsReady u g time_now r h e = (clock-IsAdmitted g r h.0, h.1, clock-IsWarranted g r h.2)
    act-IsReady u g _ r h e = h

    abbrev pub Ordering : {A : Type 0} → (Seen → A → Type 0) → Seen → Prog A → Type 0
    Ordering = Safe (MayOrder prefix domain force m) (learn prefix domain)

    pub act-Ordering :
        {A : Type 0} (Q : A → Type 0) (g : Seen) (p : Prog A)
        → IsReady prefix domain force m g
        → Safe (MayAct prefix domain) forget (λ u a. Q a) tt p
        → Ordering (λ h a. IsReady prefix domain force m h × Q a) g p
    act-Ordering Q g p h q =
        Safe-along (MayAct prefix domain) forget (MayOrder prefix domain force m)
          (learn prefix domain) (λ u a. Q a) (λ h a. IsReady prefix domain force m h × Q a)
          (λ u h. IsReady prefix domain force m h) act-MayOrder act-IsReady (λ u h a i q. (i, q)) tt
          g p h q

    rest-MayOrder :
        (u : Unit {0}) (g : Seen) (c : Call)
        → Unit {0}
        → MayRest u c
        → MayOrder prefix domain force m g c
    rest-MayOrder u g (authorize_order d) h e = absurd e
    rest-MayOrder u g (finalize_order o d s) h e = absurd e
    rest-MayOrder u g _ h e = tt

    pub Idle-Ordering :
        {A : Type 0} (g : Seen) (p : Prog A) → Idle p → Ordering (λ h a. Unit {0}) g p
    Idle-Ordering g p q =
        Safe-along MayRest forget (MayOrder prefix domain force m) (learn prefix domain) Anything
          (λ h a. Unit {0}) (λ u h. Unit {0}) rest-MayOrder (λ u h c r i e. tt) (λ u h a i q. tt) tt
          g p tt q
