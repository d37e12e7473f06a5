-- ===== src/Issuer/Journal.antt =====
-- order_journal.go and resumeOrder of issuer.go: a new order is placed only where no usable one is
-- outstanding, and it is journalled at once.
use go_certs_manager.Base.{
  Option, Text, [], false, inl, inr, none, refl, some, text_eq, true, ℕ, ◌||◌, ◌≡◌, ◌⊎◌,
}
use go_certs_manager.Effects.{
  Call, Content, Order, OrderRecord, Reply, Result, authorize_order, err, get_object, get_order,
  no_journal, not_exist, ok, on_ok, order_json, put_object, remove_object, ret, time_now, ◌>>=◌,
}
use go_certs_manager.Effects.Logic.{Safe, Safe-bind, Safe-if}
use go_certs_manager.Issuer.{
  clear_order, forgotten, is_dead, is_stale, journal_key, load_order, obtain_order, parse_order,
  place, record_order, resume_from, resume_known, resume_order, resume_record,
}
use go_certs_manager.Lease.{unix}

-- What has been learnt: the journal's answer, the CA's about the journalled order, the last reading
-- of the clock and the CA's answer to the new order.
pub record Journalled : Type 0 where
  pub journal : Option (Result Content)
  pub known : Option (Result Order)
  pub now : ℕ
  pub placed : Option (Result Order)

abbrev pub note_order : Journalled → (c : Call) → Reply c → Journalled
note_order g (get_object k) r = record g { journal = some r }
note_order g (get_order u) r = record g { known = some r }
note_order g time_now n = record g { now = n }
note_order g (authorize_order d) r = record g { placed = some r }
note_order g c r = g

-- The CA has answered that it does not know the order any more, or that it cannot be collected.
abbrev pub IsGone : ℕ → Option (Result Order) → Type 0
IsGone now (some (err e)) = forgotten e ≡ true
IsGone now (some (ok o)) = is_dead now o ≡ true
IsGone now none = ⊥

-- There is no journal entry, or one that is of no use for the key.
abbrev pub IsOpen : Text → Journalled → Type 0
IsOpen spki g = elim g.journal [
  | some (ok (order_json rec)) ↦
      ((text_eq rec.order_url [] || is_stale g.now rec) ≡ true)
      ⊎ ((text_eq rec.spki spki ≡ false) ⊎ IsGone g.now g.known)
  | some (err not_exist) ↦ Unit {0}
  | some (err no_journal) ↦ Unit {0}
  | _ ↦ ⊥
]

abbrev pub entry_told : OrderRecord → Option (Result Order) → ℕ → Journalled
entry_told rec known now = record {
  journal = some (ok (order_json rec));
  known = known;
  now = now;
  placed = none;
}

module _ (prefix name domain spki : Text) where
  abbrev pub MayPlace : Journalled → Call → Type 0
  MayPlace g (get_object k) = k ≡ journal_key prefix name
  MayPlace g (remove_object k) = (k ≡ journal_key prefix name) × IsOpen spki g
  MayPlace g (put_object k c o) =
      (k ≡ journal_key prefix name)
      × ((placed : Order) × (g.placed ≡ some (ok placed))
          × (c
              ≡ order_json
                  (record { order_url = placed.uri; spki = spki; created_at = unix g.now })))
  MayPlace g (get_order u) = Unit {0}
  MayPlace g time_now = Unit {0}
  MayPlace g (authorize_order d) = (d ≡ domain) × IsOpen spki g × (g.placed ≡ none)
  MayPlace g c = ⊥

  -- The order to complete is the new one, or the one that the CA still knows.
  abbrev pub IsFound : Journalled → Result Order → Type 0
  IsFound g (ok o) = (g.placed ≡ some (ok o)) ⊎ (g.known ≡ some (ok o))
  IsFound g (err e) = Unit {0}

  abbrev pub IsResumed : Journalled → Result (Option Order) → Type 0
  IsResumed g (ok (some o)) = (g.known ≡ some (ok o))
  IsResumed g (ok none) = IsOpen spki g × (g.placed ≡ none)
  IsResumed g (err e) = Unit {0}

  cleared-Safe :
      (g : Journalled)
      → IsOpen spki g
      → g.placed ≡ none
      → Safe MayPlace note_order IsResumed g (do _ ← clear_order prefix name; ret (ok none))
  unfolding clear_order
  cleared-Safe g open' fresh = ((refl, open'), λ r. (open', fresh))

  resume_known-Safe :
      (rec : OrderRecord) (now : ℕ) (r : Result Order)
      → Safe MayPlace note_order IsResumed
          (record {
            journal = some (ok (order_json rec));
            known = some r;
            now = now;
            placed = none;
          })
          (resume_known prefix name r)
  unfolding resume_known
  resume_known-Safe rec now (err e) =
      Safe-if MayPlace note_order IsResumed _ _ (ret (err e)) (forgotten e)
        (λ gone. cleared-Safe (entry_told rec (some (err e)) now) (inr (inr gone)) refl)
        (λ other. tt)
  resume_known-Safe rec now (ok o) = (
    tt,
    λ t.
        Safe-if MayPlace note_order IsResumed _ _ (ret (ok (some o))) (is_dead t o)
          (λ dead. cleared-Safe (entry_told rec (some (ok o)) t) (inr (inr dead)) refl)
          (λ alive. refl),
  )

  resume_from-Safe :
      (now : ℕ) (r : Result Content)
      → Safe MayPlace note_order IsResumed
          (record { journal = some r; known = none; now = now; placed = none })
          (resume_from prefix name spki (parse_order r))
  unfolding resume_from resume_record parse_order
  resume_from-Safe now (ok (order_json rec)) = (
    tt,
    λ t.
        Safe-if MayPlace note_order IsResumed _ _ _ (text_eq rec.order_url [] || is_stale t rec)
          (λ stale. cleared-Safe (entry_told rec none t) (inl stale) refl)
          (λ usable.
            Safe-if MayPlace note_order IsResumed _ _ (ret (ok none)) (text_eq rec.spki spki)
              (λ same. (tt, λ r. resume_known-Safe rec t r)) (λ other. (inr (inl other), refl))),
  )
  resume_from-Safe now (ok _) = tt
  resume_from-Safe now (err not_exist) = (tt, refl)
  resume_from-Safe now (err no_journal) = (tt, refl)
  resume_from-Safe now (err _) = tt

  place-Safe :
      (g : Journalled)
      → IsOpen spki g
      → g.placed ≡ none
      → Safe MayPlace note_order IsFound g (place prefix name domain spki)
  unfolding place record_order
  place-Safe g open' fresh = (
    (refl, open', fresh),
    elim [ err e ↦ tt | ok o ↦ (tt, λ t. ((refl, (o, refl, refl)), λ r. inl refl)) ],
  )

  -- Whatever storage, the clock and the CA answer, a new order is placed at most once, only for the
  -- given domain, and only once the journal has answered that it has no entry, or with one that
  -- names no order, is a week old, is for another key, or is for an order that the CA has forgotten
  -- or that is dead; the journal's entry is removed only then, and written only for the new order,
  -- under the current key; and the order to go on with is the new one or the one that the CA knows.
  pub obtain_order-IsFound :
      (now : ℕ)
      → Safe MayPlace note_order IsFound
          (record { journal = none; known = none; now = now; placed = none })
          (obtain_order prefix name domain spki)
  unfolding obtain_order resume_order load_order
  obtain_order-IsFound now = (
    refl,
    λ r.
        Safe-bind MayPlace note_order IsResumed IsFound _ _
          (resume_from prefix name spki (parse_order r)) (resume_from-Safe now r)
          (λ g found i. continued g found i),
  )
    where
      continued :
          (g : Journalled) (found : Result (Option Order))
          → IsResumed g found
          → Safe MayPlace note_order IsFound g (
              on_ok found
                (λ e. ret (err e))
                λ known. elim known [ some o ↦ ret (ok o) | none ↦ place prefix name domain spki ])
      continued g (err e) i = tt
      continued g (ok (some o)) i = inr i
      continued g (ok none) i = place-Safe g i.0 i.1
