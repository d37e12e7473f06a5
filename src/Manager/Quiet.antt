-- ===== src/Manager/Quiet.antt =====
-- The calls of ensureIssuer (manager.go) and of issuer.go leave alone what the decision to order
-- rests on; those after the order place none.
use go_certs_manager.Layout
use go_certs_manager.Base.{
  Bool, Bool-cases, Option, Option-cases, Text, [], ap, arith, codes, false, inl, inr, none, refl,
  some, text_eq, text_eq_iff, to_lower, ℕ, ◌++◌, ◌==◌, ◌||◌, ◌∷◌, ◌≡◌,
}
use go_certs_manager.Effects.{
  Call, KeyType, Order, OrderRecord, Prog, Result, Signer, ask_leader, authorize_order, ecdsa_p256,
  err, finalize_order, generate_key, get_object, no_journal, not_exist, ok, on_ok, put_object,
  remove_object, ret, ◌>>=◌,
}
use go_certs_manager.Effects.Logic.{Anything, Safe, Safe-along, Safe-bind, forget}
use go_certs_manager.Issuer.{
  clear_order, forgotten, is_dead, is_stale, journal_key, load_order, obtain_order, parse_order,
  place, record_order, resume_from, resume_known, resume_order, resume_record,
}
use go_certs_manager.KeyStore.{
  KeyStore, account_key_name, load_or_create, load_or_create_account_key,
}
use go_certs_manager.KeyStore.Once.{
  Answer, MayCreate, ReadsBack, load_or_create-ReadsBack, note_answer,
}
use go_certs_manager.Layout.{cert_domain}
use go_certs_manager.Layout.Names.{append_cancel}
use go_certs_manager.Manager.{Manager, ensure_issuer}
use go_certs_manager.Manager.Seen.{lease_object}

-- Two names with one prefix that go on with different characters.
pub apart :
    (p s t : Text) (c d : ℕ) → (c == d) ≡ false → text_eq (p ++ (c ∷ s)) (p ++ (d ∷ t)) ≡ false
apart p s t c d h = elim (Bool-cases (text_eq (p ++ (c ∷ s)) (p ++ (d ∷ t)))) [
  | inl same ↦
      let whole =
        append_cancel p (c ∷ s) (d ∷ t) ((text_eq_iff (p ++ (c ∷ s)) (p ++ (d ∷ t))).0 same) in
      absurd (ground arith)
  | inr other ↦ other
]

-- The calls of a phase that may order.
abbrev pub MayAct : Text → Text → Unit {0} → Call → Type 0
MayAct prefix domain g (get_object k) =
    (text_eq k (Layout.chain prefix domain) ≡ false)
    × (text_eq k (Layout.key prefix domain) ≡ false)
MayAct prefix domain g (remove_object k) = text_eq k (lease_object prefix domain) ≡ false
MayAct prefix domain g (authorize_order d) = d ≡ cert_domain (to_lower domain)
MayAct prefix domain g (finalize_order u d s) = d ≡ cert_domain (to_lower domain)
MayAct prefix domain g c = Unit {0}

-- The calls of a phase that orders nothing.
abbrev pub MayRest : Unit {0} → Call → Type 0
MayRest g (authorize_order d) = ⊥
MayRest g (finalize_order u d s) = ⊥
MayRest g c = Unit {0}

abbrev pub Quiet : Text → Text → {A : Type 0} → Prog A → Type 0
Quiet prefix domain m = Safe (MayAct prefix domain) forget Anything tt m

abbrev pub Idle : {A : Type 0} → Prog A → Type 0
Idle m = Safe MayRest forget Anything tt m

-- Building the issuer leaves the certificates in memory alone.
abbrev pub SameCache : Manager → Result Bool × Manager → Type 0
SameCache m r = r.1.cert_cache ≡ m.cert_cache

module _ (prefix domain : Text) where
  pub Quiet-bind :
      {A B : Type 0} (f : A → Prog B) (m : Prog A)
      → Quiet prefix domain m
      → ((a : A) → Quiet prefix domain (f a))
      → Quiet prefix domain (m >>= f)
  Quiet-bind f m s k =
      Safe-bind (MayAct prefix domain) forget Anything Anything f tt m s (λ g a q. k a)

  -- Reading an object that is neither the chain nor the key.
  account-apart : (t : Text) → MayAct prefix domain tt (get_object (prefix ++ (b'a' ∷ t)))
  unfolding Layout.chain Layout.key
  account-apart t = (apart prefix t _ b'a' b'c' refl, apart prefix t _ b'a' b'k' refl)

  creation-MayAct :
      (name : Text)
      → name ≡ prefix ++ codes "acme/account.key"
      → (g : Answer) (h : Unit {0}) (c : Call) → Unit {0}
      → MayCreate name g c
      → MayAct prefix domain h c
  creation-MayAct name n g h (get_object k) u e =
      rw (e, n) (account-apart (codes "cme/account.key"))
  creation-MayAct name n g h (put_object k c o) u e = tt
  creation-MayAct name n g h ask_leader u e = tt
  creation-MayAct name n g h (generate_key t) u e = tt
  creation-MayAct name n g h _ u e = absurd e

  load_or_create-Quiet :
      (k : KeyStore) (name : Text) (t : KeyType)
      → name ≡ prefix ++ codes "acme/account.key"
      → Quiet prefix domain (load_or_create k name t)
  load_or_create-Quiet k name t n =
      Safe-along (MayCreate name) note_answer (MayAct prefix domain) forget ReadsBack Anything
        (λ g h. Unit {0}) (creation-MayAct name n) (λ g h c r u s. tt) (λ g h a u q. tt) none tt
        (load_or_create k name t) tt (load_or_create-ReadsBack name k t)

  account-kept :
      (m : Manager) (r : Result Signer)
      → Safe
          (MayAct prefix domain)
          forget
          (λ u r. SameCache m r)
          tt
          (on_ok r (λ e. ret (err e, m)) λ key'. ret (ok false, record m { issuer = some false }))
  account-kept m (ok s) = refl
  account-kept m (err e) = refl

  pub ensure_issuer-Quiet :
      (m : Manager)
      → m.key_store.prefix ≡ prefix
      → Safe (MayAct prefix domain) forget (λ u r. SameCache m r) tt (ensure_issuer m)
  unfolding ensure_issuer load_or_create_account_key account_key_name
  ensure_issuer-Quiet m e = elim (Option-cases m.issuer) [
    | inr (registered, built) ↦ rw (built, ensure_issuer) refl
    | inl absent ↦
        rw (absent, ensure_issuer)
          (Safe-bind (MayAct prefix domain) forget Anything (λ u r. SameCache m r) _ tt
            (load_or_create_account_key m.key_store)
            (load_or_create-Quiet m.key_store (account_key_name m.key_store) ecdsa_p256
              (ap (λ p. p ++ codes "acme/account.key") e))
            (λ u r q. account-kept m r))
  ]

  pub clear_order-Quiet : (name : Text) → Quiet prefix domain (clear_order prefix name)
  unfolding clear_order journal_key
  clear_order-Quiet name = (apart prefix _ _ b'o' b'l' refl, λ r. tt)

  pub cleared-Quiet :
      (name : Text) (a : Result (Option Order))
      → Quiet prefix domain (do _ ← clear_order prefix name; ret a)
  cleared-Quiet name a =
      Quiet-bind (λ _. ret a) (clear_order prefix name) (clear_order-Quiet name) (λ _. tt)

  resume_known-Quiet :
      (name : Text) (r : Result Order) → Quiet prefix domain (resume_known prefix name r)
  unfolding resume_known
  resume_known-Quiet name (err e) = elim (Bool-cases (forgotten e)) [
    | inl gone ↦ rw gone (cleared-Quiet name (ok none))
    | inr other ↦ rw other tt
  ]
  resume_known-Quiet name (ok o) = (
    tt,
    λ now. elim (Bool-cases (is_dead now o)) [
      | inl dead ↦ rw dead (cleared-Quiet name (ok none))
      | inr alive ↦ rw alive tt
    ],
  )

  resume_record-Quiet :
      (name spki : Text) (rec : OrderRecord)
      → Quiet prefix domain (resume_record prefix name spki rec)
  unfolding resume_record
  resume_record-Quiet name spki rec = (
    tt,
    λ now. elim (Bool-cases (text_eq rec.order_url [] || is_stale now rec)) [
      | inl stale ↦ rw stale (cleared-Quiet name (ok none))
      | inr usable ↦ rw usable (elim (Bool-cases (text_eq rec.spki spki)) [
        | inl same ↦ rw same (tt, λ r. resume_known-Quiet name r)
        | inr other ↦ rw other tt
      ])
    ],
  )

  resume_from-Quiet :
      (name spki : Text) (r : Result OrderRecord)
      → Quiet prefix domain (resume_from prefix name spki r)
  unfolding resume_from
  resume_from-Quiet name spki (ok rec) = resume_record-Quiet name spki rec
  resume_from-Quiet name spki (err not_exist) = tt
  resume_from-Quiet name spki (err no_journal) = tt
  resume_from-Quiet name spki (err _) = tt

  place-Quiet :
      (name spki : Text)
      → Quiet prefix domain (place prefix name (cert_domain (to_lower domain)) spki)
  unfolding place record_order
  place-Quiet name spki = (refl, elim [ ok o ↦ (tt, λ now. (tt, λ r. tt)) | err e ↦ tt ])

  pub obtain_order-Quiet :
      (name spki : Text)
      → Quiet prefix domain (obtain_order prefix name (cert_domain (to_lower domain)) spki)
  unfolding obtain_order resume_order load_order journal_key Layout.chain Layout.key
  obtain_order-Quiet name spki = (
    (apart prefix _ _ b'o' b'c' refl, apart prefix _ _ b'o' b'k' refl),
    λ r.
        Quiet-bind _ (resume_from prefix name spki (parse_order r))
          (resume_from-Quiet name spki (parse_order r))
          (elim [ ok (some o) ↦ tt | ok none ↦ place-Quiet name spki | err e ↦ tt ]),
  )
