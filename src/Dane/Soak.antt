-- ===== src/Dane/Soak.antt =====
-- Which markers (dane_controller.go, recordsForHost) still have their digest advertised.
use go_certs_manager.Base.{
  All, All-mono, Bool, Bool-cases, List, Text, [], any, any-append, ap, arith, false, inl, inr,
  keep_if, map, not, refl, subst, sym, text_eq, text_eq_iff, text_eq_refl, to_lower, true, ℕ, ◌++◌,
  ◌||◌, ◌∙◌, ◌∷◌, ◌≡◌, ◌≢◌, ◌⊎◌,
}
use go_certs_manager.Dane.{TlsaRecord, expired, has_digest, new_spki_record, parse_retiring}
use go_certs_manager.Dane.Controller.{DaneController, markers, noted, retiring_record, still_needed}
use go_certs_manager.Effects.{
  Content, Result, RetiringRecord, err, key_pem, not_exist, ok, retiring_array, retiring_object,
}

true≢false : true ≢ false
true≢false e = ground arith

-- One of the records carries the digest.
abbrev pub Advertises : List TlsaRecord → Text → Type 0
Advertises rs digest = any (λ rec. text_eq rec.cert (to_lower digest)) rs ≡ true

-- A marker's soak has elapsed, or its digest is advertised.
abbrev pub Fate : ℕ → List TlsaRecord → RetiringRecord → Type 0
Fate now rs mark = (expired now mark ≡ true) ⊎ Advertises rs mark.digest

-- What the answers about the live key, the staged key and the markers ask of the records.
abbrev pub StagedToo : List TlsaRecord → Result Content → Type 0
StagedToo rs (ok (key_pem s)) = Advertises rs s.spki
StagedToo rs (ok c) = ⊥
StagedToo rs (err not_exist) = Unit {0}
StagedToo rs (err e) = ⊥

abbrev pub MarkedToo : ℕ → List TlsaRecord → Result Content → Type 0
MarkedToo now rs r = (ms : List RetiringRecord) × (markers r ≡ ok ms) × All (Fate now rs) ms

pub same-Advertises :
    (rs : List TlsaRecord) (a b : Text) → text_eq a b ≡ true → Advertises rs b → Advertises rs a
same-Advertises rs a b same h = rw ((text_eq_iff a b).0 same) h

all_but : (a b c : Bool) → not (a || b || c) ≡ false → a ≡ false → b ≡ false → c ≡ true
all_but true b c h i j = absurd (true≢false i)
all_but false true c h i j = absurd (true≢false j)
all_but false false true h i j = refl
all_but false false false h i j = absurd (true≢false h)

module _ (d : DaneController) (host : Text) (live next : Text) (now : ℕ) where
  -- The records before the markers' ones carry the live digest, and the staged one if there is one.
  abbrev pub Carries : List TlsaRecord → Type 0
  Carries rs = Advertises rs live × ((text_eq next [] ≡ true) ⊎ Advertises rs next)

  mark-advertised :
      (rs : List TlsaRecord) (mark : RetiringRecord) (more : List TlsaRecord)
      → Advertises (rs ++ (retiring_record d host mark ∷ more)) mark.digest
  unfolding retiring_record noted new_spki_record
  mark-advertised rs mark more = ground (
    arith,
    any-append (λ rec. text_eq rec.cert (to_lower mark.digest)) rs
        (retiring_record d host mark ∷ more),
    text_eq_refl (to_lower mark.digest),
  )

  more-advertised :
      (rs : List TlsaRecord) (rec : TlsaRecord) (more : List TlsaRecord) (digest : Text)
      → Advertises (rs ++ more) digest
      → Advertises (rs ++ (rec ∷ more)) digest
  more-advertised rs rec more digest h = ground (
    arith,
    h,
    any-append (λ r. text_eq r.cert (to_lower digest)) rs more,
    any-append (λ r. text_eq r.cert (to_lower digest)) rs (rec ∷ more),
  )

  pub front-advertised :
      (rs more : List TlsaRecord) (digest : Text)
      → Advertises rs digest
      → Advertises (rs ++ more) digest
  front-advertised rs more digest h =
      ground (arith, h, any-append (λ r. text_eq r.cert (to_lower digest)) rs more)

  abbrev pub kept : List RetiringRecord → List TlsaRecord
  kept ms = map (retiring_record d host) (keep_if (still_needed now live next) ms)

  kept-yes :
      (mark : RetiringRecord) (ms : List RetiringRecord)
      → still_needed now live next mark ≡ true
      → kept (mark ∷ ms) ≡ retiring_record d host mark ∷ kept ms
  kept-yes mark ms h = rw (h, keep_if) refl

  kept-no :
      (mark : RetiringRecord) (ms : List RetiringRecord)
      → still_needed now live next mark ≡ false
      → kept (mark ∷ ms) ≡ kept ms
  kept-no mark ms h = rw (h, keep_if) refl

  -- A marker that is not carried on its own account has elapsed, or is live or staged.
  spared-Fate :
      (rs : List TlsaRecord) (m : RetiringRecord)
      → Carries rs
      → has_digest m ≡ true
      → still_needed now live next m ≡ false
      → Fate now rs m
  unfolding still_needed has_digest
  spared-Fate rs m (on_live, on_next) named spare = elim (Bool-cases (expired now m)) [
    | inl over ↦ inl over
    | inr fresh ↦ elim (Bool-cases (text_eq m.digest live)) [
      | inl same ↦ inr (same-Advertises rs m.digest live same on_live)
      | inr other ↦ elim on_next [
        | inl unstaged ↦
            let is_next =
              all_but (expired now m) (text_eq m.digest live) (text_eq m.digest next) spare fresh
                other in
            let is_empty' =
              (text_eq_iff m.digest []).1
                ((text_eq_iff m.digest next).0 is_next ∙ (text_eq_iff next []).0 unstaged) in
            absurd (true≢false (sym named ∙ ap not is_empty'))
        | inr shown ↦ inr (
            same-Advertises rs m.digest next
              (all_but (expired now m) (text_eq m.digest live) (text_eq m.digest next) spare fresh
                other)
              shown)
      ]
    ]
  ]

  -- Every marker with a digest has elapsed or is advertised.
  pub marks-Fate :
      (rs : List TlsaRecord) (ms : List RetiringRecord)
      → Carries rs
      → All (λ mark. has_digest mark ≡ true) ms
      → All (Fate now (rs ++ kept ms)) ms
  marks-Fate rs [] carries a = tt
  marks-Fate rs (mark ∷ ms) carries a = elim (Bool-cases (still_needed now live next mark)) [
    | inl needed ↦
        subst (λ k. All (Fate now (rs ++ k)) (mark ∷ ms)) (sym (kept-yes mark ms needed))
          (
            inr (mark-advertised rs mark (kept ms)),
            All-mono (Fate now (rs ++ kept ms))
                (Fate now (rs ++ (retiring_record d host mark ∷ kept ms)))
                (λ m. elim [
                  | inl over ↦ inl over
                  | inr shown ↦
                      inr
                        (more-advertised rs (retiring_record d host mark) (kept ms) m.digest shown)
                ])
                ms (marks-Fate rs ms carries a.1),
          )
    | inr spare ↦
        subst (λ k. All (Fate now (rs ++ k)) (mark ∷ ms)) (sym (kept-no mark ms spare))
          (
            elim (spared-Fate rs mark carries a.0 spare) [
              | inl over ↦ inl over
              | inr shown ↦ inr (front-advertised rs (kept ms) mark.digest shown)
            ],
            marks-Fate rs ms carries a.1,
          )
  ]

pub markers-has_digest :
    (r : Result Content) (ms : List RetiringRecord)
    → markers r ≡ ok ms
    → All (λ mark. has_digest mark ≡ true) ms
unfolding markers parse_retiring
markers-has_digest r ms h = subst (λ q. Named q) h (named r)
  where
    Named : Result (List RetiringRecord) → Type 0
    Named (ok xs) = All (λ mark. has_digest mark ≡ true) xs
    Named (err e) = Unit {0}

    kept_named :
        (xs : List RetiringRecord) → All (λ mark. has_digest mark ≡ true) (keep_if has_digest xs)
    kept_named [] = tt
    kept_named (x ∷ xs) = elim (Bool-cases (has_digest x)) [
      | inl has ↦ rw has (has, kept_named xs)
      | inr lacks ↦ rw lacks (kept_named xs)
    ]

    named : (q : Result Content) → Named (markers q)
    named (ok (retiring_array rs)) = kept_named rs
    named (ok (retiring_object r')) = kept_named (r' ∷ [])
    named (ok _) = tt
    named (err not_exist) = tt
    named (err _) = tt
