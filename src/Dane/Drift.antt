-- ===== src/Dane/Drift.antt =====
-- verifyPublished of dane_controller.go: when the published records count as the desired ones.
use go_certs_manager.Base.{
  All, Bool, Bool-cases, Has, List, Text, [], any, any_iff, arith, false, inl, inr, not, refl,
  text_eq, text_eq_iff, to_lower, true, ◌&&◌, ◌↔◌, ◌∷◌, ◌≡◌,
}
use go_certs_manager.Dane.{TlsaRecord, contains_spki_digest, is_spki_record}
use go_certs_manager.Dane.Controller.{matches}
use go_certs_manager.Effects.{LookupResult, PublishedTlsa}

-- A `3 1 1` record: DANE-EE, SubjectPublicKeyInfo, SHA-256.
abbrev pub IsSpki : PublishedTlsa → Type 0
IsSpki rr = (rr.usage ≡ 3) × (rr.selector ≡ 1) × (rr.matching_type ≡ 1)

-- Every desired digest, in lower case, is that of a published `3 1 1` record, and the digest of
-- every published `3 1 1` record is a desired one.
abbrev pub Agree : List TlsaRecord → LookupResult → Type 0
Agree desired published =
    All (λ rec. Has (λ rr. IsSpki rr × (rr.cert ≡ to_lower rec.cert)) published.rrs) desired
    × All (λ rr. IsSpki rr → Has (λ rec. rec.cert ≡ rr.cert) desired) published.rrs

is_spki_record_iff : (rr : PublishedTlsa) → (is_spki_record rr ≡ true) ↔ IsSpki rr
unfolding is_spki_record
is_spki_record_iff rr =
    (λ h. (ground (arith, h), ground (arith, h), ground (arith, h)), λ h. ground (arith, h))

and_split : (a b : Bool) → (a && b) ≡ true → (a ≡ true) × (b ≡ true)
and_split true b h = (refl, h)
and_split false b h = absurd (ground (arith, h))

contains_spki_digest_iff :
    (digest : Text) (r : LookupResult)
    → (contains_spki_digest digest r ≡ true)
      ↔ Has (λ rr. IsSpki rr × (rr.cert ≡ to_lower digest)) r.rrs
unfolding contains_spki_digest
contains_spki_digest_iff digest r =
    any_iff (λ rr. IsSpki rr × (rr.cert ≡ to_lower digest))
      (λ rr. is_spki_record rr && text_eq rr.cert (to_lower digest))
      (λ rr. (
        λ h.
            let (spki, same) =
              and_split (is_spki_record rr) (text_eq rr.cert (to_lower digest)) h in
            ((is_spki_record_iff rr).0 spki, (text_eq_iff rr.cert (to_lower digest)).0 same),
        λ h. rw ((is_spki_record_iff rr).1 h.0, (text_eq_iff rr.cert (to_lower digest)).1 h.1) refl,
      ))
      r.rrs

-- No element fails: all hold.
none_failing {ℓ} :
    {A : Type ℓ} (P : A → Type 0) (p : A → Bool)
    → ((x : A) → (p x ≡ false) ↔ P x)
    → (xs : List A) → (not (any p xs) ≡ true) ↔ All P xs
none_failing P p tells xs = (there xs, back xs)
  where
    there : (ys : List _) → not (any p ys) ≡ true → All P ys
    there [] h = tt
    there (y ∷ ys) h = elim (Bool-cases (p y)) [
      | inl yes' ↦ absurd (ground (arith, h, yes'))
      | inr no' ↦ ((tells y).0 no', there ys (ground (arith, h, no')))
    ]

    back : (ys : List _) → All P ys → not (any p ys) ≡ true
    back [] h = refl
    back (y ∷ ys) h = ground (arith, (tells y).1 h.0, back ys h.1)

-- A test that fails only where `a` holds and `b` does not.
implies_iff :
    {A B : Type 0} (a b : Bool) → (a ≡ true) ↔ A → (b ≡ true) ↔ B → ((a && not b) ≡ false) ↔ (A → B)
implies_iff false b is_a is_b = (λ h x. absurd (ground (arith, is_a.1 x)), λ h. refl)
implies_iff true true is_a is_b = (λ h x. is_b.0 refl, λ h. refl)
implies_iff true false is_a is_b =
    (λ h x. absurd (ground (arith, h)), λ h. absurd (ground (arith, is_b.1 (h (is_a.0 refl)))))

not_iff : {A : Type 0} (a : Bool) → (a ≡ true) ↔ A → (not a ≡ false) ↔ A
not_iff true is_a = (λ h. is_a.0 refl, λ h. refl)
not_iff false is_a = (λ h. absurd (ground (arith, h)), λ h. absurd (ground (arith, is_a.1 h)))

-- The published records match the desired ones exactly if each desired digest is published as a
-- DANE-EE, SubjectPublicKeyInfo, SHA-256 record and each digest published so is desired; other
-- published records do not matter.
pub matches-Agree :
    (desired : List TlsaRecord) (published : LookupResult)
    → (matches desired published ≡ true) ↔ Agree desired published
unfolding matches
matches-Agree desired published = (
  λ h.
      let both = and_split (not (any lacking desired)) (not (any stray published.rrs)) h in
      (desired_iff.0 both.0, published_iff.0 both.1),
  λ h. rw (desired_iff.1 h.0, published_iff.1 h.1) refl,
)
  where
    lacking : TlsaRecord → Bool
    lacking rec = not (contains_spki_digest rec.cert published)

    stray : PublishedTlsa → Bool
    stray rr = is_spki_record rr && not (any (λ rec. text_eq rec.cert rr.cert) desired)

    desired_iff :
        (not (any lacking desired) ≡ true)
        ↔ All (λ rec. Has (λ rr. IsSpki rr × (rr.cert ≡ to_lower rec.cert)) published.rrs) desired
    desired_iff =
        none_failing (λ rec. Has (λ rr. IsSpki rr × (rr.cert ≡ to_lower rec.cert)) published.rrs)
          lacking
          (λ rec.
            not_iff (contains_spki_digest rec.cert published)
              (contains_spki_digest_iff rec.cert published))
          desired

    published_iff :
        (not (any stray published.rrs) ≡ true)
        ↔ All (λ rr. IsSpki rr → Has (λ rec. rec.cert ≡ rr.cert) desired) published.rrs
    published_iff =
        none_failing (λ rr. IsSpki rr → Has (λ rec. rec.cert ≡ rr.cert) desired) stray
          (λ rr.
            implies_iff (is_spki_record rr) (any (λ rec. text_eq rec.cert rr.cert) desired)
              (is_spki_record_iff rr)
              (any_iff (λ rec. rec.cert ≡ rr.cert) (λ rec. text_eq rec.cert rr.cert)
                (λ rec. text_eq_iff rec.cert rr.cert) desired))
          published.rrs
