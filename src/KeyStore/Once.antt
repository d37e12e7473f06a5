-- ===== src/KeyStore/Once.antt =====
-- keystore.go: a key is created once, and the live key is replaced only by the staged one.
use go_certs_manager.Base.{Bool, Option, Text, false, if◌then◌else◌, none, refl, some, true, ◌≡◌}
use go_certs_manager.Effects.{
  Call, Content, KeyType, Reply, Result, Signer, ask_leader, conditional_put, create_only, do_call,
  err, generate_key, get_object, key_pem, not_exist, not_leader, ok, on_ok, put_object,
  remove_object, ret, ◌>>=◌,
}
use go_certs_manager.Effects.Logic.{Safe}
use go_certs_manager.KeyStore.{
  KeyStore, after_create, can_create, cert_key_name, create, load, load_or_create,
  load_or_create_from, loaded, next_cert_key_name, parse_key_pem, promote, promote_next_cert_key,
  put, read_failure,
}

-- What a creator has learnt: the last answer of storage about the key.
abbrev pub Answer : Type 0
Answer = Option (Result Content)

-- A creator reads, asks for the leadership, and, once storage has said that there is none,
-- generates a key and puts it under the condition that there still is none.
abbrev pub MayCreate : Text → Answer → Call → Type 0
MayCreate name g (get_object k) = k ≡ name
MayCreate name g ask_leader = Unit {0}
MayCreate name g (generate_key t) = g ≡ some (err not_exist)
MayCreate name g (put_object k c o) = (k ≡ name) × (o ≡ create_only) × (g ≡ some (err not_exist))
MayCreate name g c = ⊥

abbrev pub note_answer : Answer → (c : Call) → Reply c → Answer
note_answer g (get_object k) r = some r
note_answer g c r = g

-- The key returned is the one that storage answered with last.
abbrev pub ReadsBack : Answer → Result Signer → Type 0
ReadsBack g (ok s) = g ≡ some (ok (key_pem s))
ReadsBack g (err e) = Unit {0}

module _ (name : Text) where
  loaded-ReadsBack : (r : Result Content) → ReadsBack (some r) (loaded r)
  unfolding loaded parse_key_pem
  loaded-ReadsBack (ok (key_pem s)) = refl
  loaded-ReadsBack (ok _) = tt
  loaded-ReadsBack (err e) = tt

  load-Safe : (g : Answer) → Safe (MayCreate name) note_answer ReadsBack g (load name)
  unfolding load
  load-Safe g = (refl, λ r. loaded-ReadsBack r)

  after_create-Safe :
      (g : Answer) (r : Result (Unit {0}))
      → Safe (MayCreate name) note_answer ReadsBack g (after_create name r)
  unfolding after_create
  after_create-Safe g (ok done) = load-Safe g
  after_create-Safe g (err conditional_put) = load-Safe g
  after_create-Safe g (err _) = tt

  generated-Safe :
      (g : Answer) (r : Result Signer)
      → g ≡ some (err not_exist)
      → Safe (MayCreate name) note_answer ReadsBack g (
          on_ok r
            (λ e. ret (err e))
            λ signer. (do done ← put name signer create_only; after_create name done))
  unfolding put
  generated-Safe g (err e) h = tt
  generated-Safe g (ok s) h = ((refl, refl, h), λ r. after_create-Safe g r)

  create-Safe :
      (k : KeyStore) (t : KeyType) (g : Answer)
      → g ≡ some (err not_exist)
      → Safe (MayCreate name) note_answer ReadsBack g (create k name t)
  unfolding create can_create
  create-Safe k t g h = go k.clustered
    where
      go :
          (b : Bool)
          → Safe (MayCreate name) note_answer ReadsBack g (do
            may_create ← if b then do_call ask_leader else ret true
            if may_create
                then (do
                  fresh ← do_call (generate_key t)
                  on_ok fresh
                      (λ e. ret (err e))
                      λ signer. do done ← put name signer create_only; after_create name done)
                else ret (err not_exist))
      go true = (tt, elim [ true ↦ (h, λ r. generated-Safe g r h) | false ↦ tt ])
      go false = (h, λ r. generated-Safe g r h)

  load_or_create_from-Safe :
      (k : KeyStore) (t : KeyType) (r : Result Content)
      → Safe
          (MayCreate name)
          note_answer
          ReadsBack
          (some r)
          (load_or_create_from k name t (loaded r))
  unfolding load_or_create_from loaded read_failure parse_key_pem
  load_or_create_from-Safe k t (ok (key_pem s)) = refl
  load_or_create_from-Safe k t (ok _) = tt
  load_or_create_from-Safe k t (err not_exist) = create-Safe k t _ refl
  load_or_create_from-Safe k t (err _) = tt

  -- Whatever storage answers, loadOrCreate reads and writes no object but the key's; it generates
  -- a key, and writes it only where there still is none, after storage has said that there is
  -- none; and a key that it returns is the one that storage last answered with.
  pub load_or_create-ReadsBack :
      (k : KeyStore) (t : KeyType)
      → Safe (MayCreate name) note_answer ReadsBack none (load_or_create k name t)
  unfolding load_or_create load
  load_or_create-ReadsBack k t = (refl, λ r. load_or_create_from-Safe k t r)

-- What a promotion has learnt: the staged key that storage answered with, and whether the live key
-- has been replaced by it.
abbrev pub Promotion : Type 0
Promotion = Option Content × Bool

abbrev pub MayPromote : Text → Text → Promotion → Call → Type 0
MayPromote live next g (get_object k) = k ≡ next
MayPromote live next g ask_leader = Unit {0}
MayPromote live next g (put_object k c o) = (k ≡ live) × (g ≡ (some c, false))
MayPromote live next g (remove_object k) = (k ≡ next) × (g.1 ≡ true)
MayPromote live next g c = ⊥

abbrev pub note_promotion : Promotion → (c : Call) → Reply c → Promotion
note_promotion g (get_object k) (ok c) = (some c, false)
note_promotion g (put_object k c o) (ok done) = (g.0, true)
note_promotion g c r = g

abbrev pub IsPromoted : Promotion → Result (Unit {0}) → Type 0
IsPromoted g (ok done) = g.1 ≡ true
IsPromoted g (err e) = g.1 ≡ false

module _ (k : KeyStore) (domain : Text) where
  promote-loaded-Safe :
      (r : Result Content)
      → Safe
          (MayPromote (cert_key_name k domain) (next_cert_key_name k domain))
          note_promotion
          IsPromoted
          (note_promotion (none, false) (get_object (next_cert_key_name k domain)) r)
          (on_ok (loaded r) (λ e. ret (err e)) λ signer. promote k domain signer)
  unfolding loaded read_failure parse_key_pem promote put
  promote-loaded-Safe (ok (key_pem s)) =
      ((refl, refl), elim [ ok done ↦ ((refl, refl), λ r. refl) | err e ↦ refl ])
  promote-loaded-Safe (ok _) = refl
  promote-loaded-Safe (err not_exist) = refl
  promote-loaded-Safe (err _) = refl

  -- Whatever storage answers, PromoteNextCertKey writes only the live key, with the staged key that
  -- storage answered with; it removes only the staged key, and only once the live key has been
  -- replaced; and it succeeds just when that has happened.
  pub promote_next_cert_key-IsPromoted :
      Safe
        (MayPromote (cert_key_name k domain) (next_cert_key_name k domain))
        note_promotion
        IsPromoted
        (none, false)
        (promote_next_cert_key k domain)
  unfolding promote_next_cert_key can_create load
  promote_next_cert_key-IsPromoted = go k.clustered
    where
      go :
          (b : Bool)
          → Safe
              (MayPromote (cert_key_name k domain) (next_cert_key_name k domain))
              note_promotion
              IsPromoted
              (none, false)
              (do
                may_create ← if b then do_call ask_leader else ret true
                if may_create
                    then (do
                      next ← load (next_cert_key_name k domain)
                      on_ok next (λ e. ret (err e)) λ signer. promote k domain signer)
                    else ret (err not_leader))
      go true = (tt, elim [ true ↦ (refl, promote-loaded-Safe) | false ↦ refl ])
      go false = (refl, promote-loaded-Safe)
