-- ===== src/Dane/Gate.antt =====
-- gateIssuance and verifyPublished of dane_controller.go: what they make of DNS.
use go_certs_manager.Base.{
  Bool-cases, Has, Option, Text, any_iff, arith, if◌then◌else◌, inl, inr, none, refl, some, text_eq,
  text_eq_iff, true, ◌&&◌, ◌==◌, ◌↔◌, ◌≡◌, ◌⊎◌,
}
use go_certs_manager.Dane.{has_dane_ee}
use go_certs_manager.Dane.Controller.{DaneController, gate, gate_issuance, is_mx}
use go_certs_manager.Effects.{
  Call, Content, LookupResult, Reply, Result, dane_gate, err, get_object, key_pem, lookup_tlsa,
  not_exist, ok, on_ok, ret,
}
use go_certs_manager.Effects.Logic.{Safe, Safe-if, Safe-mono}
use go_certs_manager.KeyStore.{
  cert_key_name, load, load_cert_key, loaded, parse_key_pem, read_failure,
}

-- The answers about the live key and about DNS.
abbrev pub Heard : Type 0
Heard = Option (Result Content) × Option (Result LookupResult)

abbrev pub MayHear : DaneController → Text → Heard → Call → Type 0
MayHear d host g (get_object k) = k ≡ cert_key_name d.key_store host
MayHear d host g (lookup_tlsa h) = h ≡ host
MayHear d host g c = ⊥

abbrev pub note_heard : Heard → (c : Call) → Reply c → Heard
note_heard g (get_object k) r = (some r, g.1)
note_heard g (lookup_tlsa h) r = (g.0, some r)
note_heard g c r = g

abbrev pub nothing_heard : Heard
nothing_heard = (none, none)

-- DNS publishes a DANE-EE record.
abbrev pub HasDaneEe : LookupResult → Type 0
HasDaneEe r = Has (λ rr. rr.usage ≡ 3) r.rrs

-- The answer that DNS calls for where there is no live key: a lookup must have been made.
abbrev pub IsJudged : Option (Result LookupResult) → Result (Unit {0}) → Type 0
IsJudged none r = ⊥
IsJudged (some (err e)) r = r ≡ ok tt
IsJudged (some (ok p)) r = (HasDaneEe p × (r ≡ err dane_gate)) ⊎ ((¬ HasDaneEe p) × (r ≡ ok tt))

-- The answer that the read of the live key calls for, which must have been made.
abbrev pub IsAnswered : Heard → Result (Unit {0}) → Type 0
IsAnswered (none, p) r = ⊥
IsAnswered (some (err not_exist), p) r = IsJudged p r
IsAnswered (some k, p) r = r ≡ ok tt

has_dane_ee_iff : (r : LookupResult) → (has_dane_ee r ≡ true) ↔ HasDaneEe r
unfolding has_dane_ee
has_dane_ee_iff r =
    any_iff (λ rr. rr.usage ≡ 3) (λ rr. rr.usage == 3)
      (λ rr. (λ h. ground (arith, h), λ h. ground (arith, h))) r.rrs

module _ (normalise : Text → Text) (d : DaneController) (host : Text) where
  -- There is a resolver, and the hostname is one of the MX hosts under its normal form.
  abbrev pub IsGuarded : Type 0
  IsGuarded = (d.has_lookup ≡ true) × Has (λ h. normalise h ≡ normalise host) d.mx_hosts

  abbrev pub IsGated : Heard → Result (Unit {0}) → Type 0
  IsGated g r = (IsGuarded × IsAnswered g r) ⊎ ((¬ IsGuarded) × ((g ≡ nothing_heard) × (r ≡ ok tt)))

  is_guarded_iff : (d.has_lookup && is_mx normalise d host ≡ true) ↔ IsGuarded
  unfolding is_mx
  is_guarded_iff =
      let mx =
        any_iff (λ h. normalise h ≡ normalise host) (λ h. text_eq (normalise h) (normalise host))
          (λ h. text_eq_iff (normalise h) (normalise host)) d.mx_hosts in
      (λ h. (ground (arith, h), mx.0 (ground (arith, h))), λ h. rw (h.0, mx.1 h.1) refl)

  published-IsJudged :
      (p : Result LookupResult)
      → IsJudged (some p) (on_ok p (λ e. ok tt) λ r. if has_dane_ee r then err dane_gate else ok tt)
  published-IsJudged (err e) = refl
  published-IsJudged (ok p) = elim (Bool-cases (has_dane_ee p)) [
    | inl is ↦ rw is (inl ((has_dane_ee_iff p).0 is, refl))
    | inr other ↦
        rw other (inr (λ has. absurd (ground (arith, other, (has_dane_ee_iff p).1 has)), refl))
  ]

  gate-IsAnswered :
      (r : Result Content)
      → Safe (MayHear d host) note_heard IsAnswered (some r, none) (gate host (loaded r))
  unfolding gate loaded parse_key_pem read_failure
  gate-IsAnswered (ok (key_pem s)) = (refl, λ p. refl)
  gate-IsAnswered (ok _) = refl
  gate-IsAnswered (err not_exist) = (refl, λ p. published-IsJudged p)
  gate-IsAnswered (err _) = refl

  -- Where there is a resolver and the hostname is an MX host, the gate reads the host's live key;
  -- if storage says that there is none, it looks up the host's records and refuses exactly if DNS
  -- answers with a DANE-EE record among them; a key that is there or cannot be read, and a lookup
  -- that fails, let the order pass. For any other hostname, or without a resolver, it asks nothing
  -- and lets the order pass.
  pub gate_issuance-IsGated :
      Safe (MayHear d host) note_heard IsGated nothing_heard (gate_issuance normalise (some d) host)
  unfolding gate_issuance load_cert_key load
  gate_issuance-IsGated =
      Safe-if (MayHear d host) note_heard IsGated nothing_heard _ (ret (ok tt))
        (d.has_lookup && is_mx normalise d host)
        (λ asks. (
          refl,
          λ r.
              Safe-mono (MayHear d host) note_heard IsAnswered IsGated (some r, none)
                (gate host (loaded r)) (gate-IsAnswered r)
                (λ h a answered. inl (is_guarded_iff.0 asks, answered)),
        ))
        (λ no_gate.
          inr (λ guarded. absurd (ground (arith, no_gate, is_guarded_iff.1 guarded)), (refl, refl)))
