-- ===== src/Dane/Desired.antt =====
-- What DesiredRecords (dane_controller.go) advertises for a host.
use go_certs_manager.Base.{
  Bool, Bool-cases, List, Text, [], arith, false, if◌then◌else◌, inl, inr, keep_if, map, refl,
  text_eq, text_eq_refl, to_lower, true, ℕ, ◌++◌, ◌∷◌, ◌≡◌,
}
use go_certs_manager.Budget.Branches.{answer}
use go_certs_manager.Dane.{TlsaRecord, new_spki_record, retiring_object_name}
use go_certs_manager.Dane.Controller.{
  DaneController, markers, noted, records_for, records_for_host, retiring, retiring_record,
  staged_records, still_needed, with_retiring, with_staged,
}
use go_certs_manager.Dane.Soak.{
  Advertises, Carries, MarkedToo, StagedToo, front-advertised, markers-has_digest, marks-Fate,
  same-Advertises,
}
use go_certs_manager.Effects.{
  Call, Content, Reply, Result, RetiringRecord, Signer, do_call, err, get_object, key_pem,
  not_exist, ok, on_ok, ret, time_now, ◌>>=◌,
}
use go_certs_manager.Effects.Logic.{Safe}
use go_certs_manager.KeyStore.{
  cert_key_name, load, load_cert_key, load_next_cert_key, loaded, next_cert_key_name, parse_key_pem,
  read_failure,
}

-- The answers so far, in the order of the questions, and the clock.
abbrev pub Told : Type 0
Told = List (Result Content) × ℕ

abbrev pub MayAsk : DaneController → Text → Told → Call → Type 0
MayAsk d host ([], now) (get_object k) = k ≡ cert_key_name d.key_store host
MayAsk d host (live ∷ [], now) (get_object k) = k ≡ next_cert_key_name d.key_store host
MayAsk d host (live ∷ next ∷ [], now) (get_object k) = k ≡ retiring_object_name d.prefix host
MayAsk d host g time_now = Unit {0}
MayAsk d host g c = ⊥

abbrev pub note_told : Told → (c : Call) → Reply c → Told
note_told (rs, now) (get_object k) r = (rs ++ (r ∷ []), now)
note_told (rs, now) time_now n = (rs, n)
note_told g c r = g

-- The records of a host are complete for what was answered.
abbrev pub IsComplete : Told → Result (List TlsaRecord) → Type 0
IsComplete g (err e) = Unit {0}
IsComplete (err not_exist ∷ [], now) (ok rs) = rs ≡ []
IsComplete (ok (key_pem s) ∷ next ∷ [], now) (ok rs) = Advertises rs s.spki × StagedToo rs next
IsComplete (ok (key_pem s) ∷ next ∷ marks ∷ [], now) (ok rs) =
    Advertises rs s.spki × StagedToo rs next × MarkedToo now rs marks
IsComplete g (ok rs) = ⊥

module _ (d : DaneController) (host : Text) where
  live_record-Advertises :
      (live : Text) (more : List TlsaRecord)
      → Advertises (new_spki_record host live d.ttl ∷ more) live
  unfolding new_spki_record
  live_record-Advertises live more = rw (text_eq_refl (to_lower live)) refl

  staged-Advertises :
      (live next : Text)
      → Advertises (new_spki_record host live d.ttl ∷ staged_records d host live next) next
  unfolding new_spki_record staged_records noted
  staged-Advertises live next = elim (Bool-cases (text_eq next live)) [
    | inl same ↦
        same-Advertises (new_spki_record host live d.ttl ∷ staged_records d host live next) next
          live same (live_record-Advertises live (staged_records d host live next))
    | inr other ↦ ground (arith, other, text_eq_refl (to_lower next))
  ]

  with_retiring-Safe :
      (s : Signer) (answer : Result Content) (next : Text) (rs : List TlsaRecord) (now : ℕ)
      → Carries d host s.spki next now rs
      → ((more : List TlsaRecord) → StagedToo (rs ++ more) answer)
      → Safe
          (MayAsk d host)
          note_told
          IsComplete
          (ok (key_pem s) ∷ answer ∷ [], now)
          (with_retiring d host s.spki next rs)
  unfolding with_retiring retiring
  with_retiring-Safe s answer next rs now carries staged = (tt, λ t. asked t d.has_backend)
    where
      front : (more : List TlsaRecord) → Advertises (rs ++ more) s.spki
      front more = front-advertised d host s.spki next now rs more s.spki carries.0

      answered :
          (t : ℕ) (r : Result Content) (ms : Result (List RetiringRecord))
          → markers r ≡ ms
          → IsComplete
              (ok (key_pem s) ∷ answer ∷ r ∷ [], t)
              (on_ok ms
                (λ e. err e)
                λ xs.
                  ok (rs ++ map (retiring_record d host) (keep_if (still_needed t s.spki next) xs)))
      answered t r (err e) h = tt
      answered t r (ok ms) h = (
        front (map (retiring_record d host) (keep_if (still_needed t s.spki next) ms)),
        staged (map (retiring_record d host) (keep_if (still_needed t s.spki next) ms)),
        (ms, h, marks-Fate d host s.spki next t rs ms carries (markers-has_digest r ms h)),
      )

      asked :
          (t : ℕ) (b : Bool)
          → Safe
              (MayAsk d host)
              note_told
              IsComplete
              (ok (key_pem s) ∷ answer ∷ [], t)
              (do
                marks ←
                    (if b
                      then (do
                        got ← do_call (get_object (retiring_object_name d.prefix host))
                        ret (markers got))
                      else ret (ok []))
                ret (
                    on_ok marks
                      (λ e. err e)
                      λ xs. ok (
                        rs
                        ++ map (retiring_record d host) (keep_if (still_needed t s.spki next) xs))))
      asked t false = (front [], staged [])
      asked t true = (refl, λ r. answered t r (markers r) refl)

  with_staged-Safe :
      (s : Signer) (now : ℕ) (r : Result Content)
      → Safe
          (MayAsk d host)
          note_told
          IsComplete
          (ok (key_pem s) ∷ r ∷ [], now)
          (with_staged d host s.spki (loaded r))
  unfolding with_staged loaded parse_key_pem read_failure
  with_staged-Safe s now (ok (key_pem n)) =
      with_retiring-Safe s (ok (key_pem n)) n.spki
        (new_spki_record host s.spki d.ttl ∷ staged_records d host s.spki n.spki) now
        (
          live_record-Advertises s.spki (staged_records d host s.spki n.spki),
          inr (staged-Advertises s.spki n.spki),
        )
        (λ more.
          front-advertised d host s.spki n.spki now
            (new_spki_record host s.spki d.ttl ∷ staged_records d host s.spki n.spki) more n.spki
            (staged-Advertises s.spki n.spki))
  with_staged-Safe s now (ok _) = tt
  with_staged-Safe s now (err not_exist) =
      with_retiring-Safe s (err not_exist) [] (new_spki_record host s.spki d.ttl ∷ []) now
        (live_record-Advertises s.spki [], inl (text_eq_refl [])) (λ more. tt)
  with_staged-Safe s now (err _) = tt

  records_for-Safe :
      (now : ℕ) (r : Result Content)
      → Safe (MayAsk d host) note_told IsComplete (r ∷ [], now) (records_for d host (loaded r))
  unfolding records_for load_next_cert_key load loaded parse_key_pem read_failure
  records_for-Safe now (ok (key_pem s)) = (refl, λ r. with_staged-Safe s now r)
  records_for-Safe now (ok _) = tt
  records_for-Safe now (err not_exist) = refl
  records_for-Safe now (err _) = tt

  -- Whatever storage and the clock answer, the records of a host only come of reading its live key,
  -- its staged key and its markers. If there is no live key there are none; otherwise they carry
  -- the live digest, the staged one if a key is staged, and, if the controller has a storage, the
  -- digest of every usable marker whose soak has not elapsed; and an answer about a key that failed
  -- or does not parse, or about the markers that failed, gives an error.
  pub records_for_host-IsComplete :
      (now : ℕ) → Safe (MayAsk d host) note_told IsComplete ([], now) (records_for_host d host)
  unfolding records_for_host load_cert_key load
  records_for_host-IsComplete now = (refl, λ r. records_for-Safe now r)
