-- ===== src/Dane/Markers.antt =====
-- dane/retiring.go: what is written as markers is read as markers.
use go_certs_manager.Base.{
  All, All-mono, Bool, Bool-cases, List, Option, Text, [], any, ap, arith, false, inl, inr, keep_if,
  none, not, refl, some, subst, sym, text_eq, text_eq_refl, true, ℕ, ◌++◌, ◌+◌, ◌∷◌, ◌≡◌, ◌⊎◌,
}
use go_certs_manager.Dane.{
  expired, has_digest, marshal_retiring, parse_retiring, retiring_object_name,
}
use go_certs_manager.Dane.Controller.{DaneController, mark_in, unexpired, write_retiring}
use go_certs_manager.Dane.Soak.{kept}
use go_certs_manager.Effects.{
  Call, Content, Reply, Result, RetiringRecord, do_call, err, ok, overwrite, put_object,
  remove_object, ret,
}
use go_certs_manager.Effects.Logic.{Safe, Safe-if}
use go_certs_manager.Lease.{unix}

keep_if-All :
    (p : RetiringRecord → Bool) (rs : List RetiringRecord)
    → All (λ r. p r ≡ true) rs
    → keep_if p rs ≡ rs
keep_if-All p [] a = refl
keep_if-All p (r ∷ rs) a = ground (arith, a.0, keep_if-All p rs a.1)

-- Markers that all have a digest are read back as they were written, whether there is none, one,
-- which is written in the older form, or several.
pub parse_retiring-marshal_retiring :
    (rs : List RetiringRecord)
    → All (λ r. has_digest r ≡ true) rs
    → parse_retiring (marshal_retiring rs) ≡ ok rs
unfolding parse_retiring marshal_retiring
parse_retiring-marshal_retiring [] a = refl
parse_retiring-marshal_retiring (r ∷ []) a = ap (λ xs. ok xs) (keep_if-All has_digest (r ∷ []) a)
parse_retiring-marshal_retiring (r ∷ q ∷ rs) a =
    ap (λ xs. ok xs) (keep_if-All has_digest (r ∷ q ∷ rs) a)

-- What a write of the markers leaves for the next reader: nothing to read, or what was put.
abbrev pub Written : Type 0
Written = Option Content

abbrev pub MayMark : Text → Written → Call → Type 0
MayMark slot g (put_object k c o) = (k ≡ slot) × (o ≡ overwrite)
MayMark slot g (remove_object k) = k ≡ slot
MayMark slot g c = ⊥

abbrev pub note_written : Written → (c : Call) → Reply c → Written
note_written g (put_object k c o) (ok done) = some c
note_written g c r = g

-- The digest is marked: by a marker that was there and has not elapsed, or by one that a reader of
-- what was written finds, beside every marker that has not elapsed.
abbrev pub IsMarked : Text → ℕ → List RetiringRecord → Written → Result (Unit {0}) → Type 0
IsMarked digest now existing g (err e) = Unit {0}
IsMarked digest now existing none (ok done) =
    any (λ r. text_eq r.digest digest) (unexpired now existing) ≡ true
IsMarked digest now existing (some c) (ok done) =
    (ms : List RetiringRecord) × (parse_retiring c ≡ ok ms)
    × (any (λ r. text_eq r.digest digest) ms ≡ true)
    × All (λ m. (expired now m ≡ true) ⊎ (any (λ r. text_eq r.digest m.digest) ms ≡ true)) existing

-- One of the markers is for the digest.
abbrev pub Marks : List RetiringRecord → Text → Type 0
Marks ms digest = any (λ r. text_eq r.digest digest) ms ≡ true

more-Marks :
    (r : RetiringRecord) (ms : List RetiringRecord) (digest : Text)
    → Marks ms digest
    → Marks (r ∷ ms) digest
more-Marks r ms digest h = ground (arith, h)

last-Marks : (ms : List RetiringRecord) (r : RetiringRecord) → Marks (ms ++ (r ∷ [])) r.digest
last-Marks [] r = rw (text_eq_refl r.digest) refl
last-Marks (m ∷ ms) r = more-Marks m (ms ++ (r ∷ [])) r.digest (last-Marks ms r)

unexpired-over :
    (now : ℕ) (m : RetiringRecord) (ms : List RetiringRecord)
    → expired now m ≡ true
    → unexpired now (m ∷ ms) ≡ unexpired now ms
unfolding unexpired
unexpired-over now m ms over = rw (over, keep_if) refl

unexpired-fresh :
    (now : ℕ) (m : RetiringRecord) (ms : List RetiringRecord)
    → expired now m ≡ false
    → unexpired now (m ∷ ms) ≡ m ∷ unexpired now ms
unfolding unexpired
unexpired-fresh now m ms fresh = rw (fresh, keep_if) refl

-- A marker has elapsed, or its digest has a marker among these.
abbrev pub Lasts : ℕ → List RetiringRecord → RetiringRecord → Type 0
Lasts now kept m = (expired now m ≡ true) ⊎ Marks kept m.digest

more-Lasts :
    (now : ℕ) (r : RetiringRecord) (kept : List RetiringRecord) (m : RetiringRecord)
    → Lasts now kept m
    → Lasts now (r ∷ kept) m
more-Lasts now r kept m (inl over) = inl over
more-Lasts now r kept m (inr marked) = inr (more-Marks r kept m.digest marked)

-- No marker that has not elapsed is lost to the pruning.
unexpired-Lasts :
    (now : ℕ) (ms more : List RetiringRecord) → All (Lasts now (unexpired now ms ++ more)) ms
unexpired-Lasts now [] more = tt
unexpired-Lasts now (m ∷ ms) more = elim (Bool-cases (expired now m)) [
  | inl over ↦
      subst (λ k. All (Lasts now (k ++ more)) (m ∷ ms)) (sym (unexpired-over now m ms over))
        (inl over, unexpired-Lasts now ms more)
  | inr fresh ↦
      subst (λ k. All (Lasts now (k ++ more)) (m ∷ ms)) (sym (unexpired-fresh now m ms fresh))
        (
          inr (rw (text_eq_refl m.digest) refl),
          All-mono (Lasts now (unexpired now ms ++ more))
              (Lasts now (m ∷ (unexpired now ms ++ more)))
              (more-Lasts now m (unexpired now ms ++ more)) ms (unexpired-Lasts now ms more),
        )
]

unexpired-has_digest :
    (now : ℕ) (ms : List RetiringRecord) (r : RetiringRecord)
    → All (λ m. has_digest m ≡ true) ms
    → has_digest r ≡ true
    → All (λ m. has_digest m ≡ true) (unexpired now ms ++ (r ∷ []))
unfolding unexpired
unexpired-has_digest now [] r a h = (h, tt)
unexpired-has_digest now (m ∷ ms) r a h = elim (Bool-cases (expired now m)) [
  | inl over ↦ rw over (unexpired-has_digest now ms r a.1 h)
  | inr fresh ↦ rw fresh (a.0, unexpired-has_digest now ms r a.1 h)
]

module _ (d : DaneController) (host digest : Text) (now : ℕ) where
  abbrev pub new_mark : RetiringRecord
  new_mark = record { digest = digest; retire_after = unix (now + d.soak) }

  write_retiring-one :
      (ms : List RetiringRecord) (r : RetiringRecord)
      → write_retiring d host (ms ++ (r ∷ []))
        ≡ do_call (
            put_object
              (retiring_object_name d.prefix host)
              (marshal_retiring (ms ++ (r ∷ [])))
              overwrite)
  unfolding write_retiring
  write_retiring-one [] r = refl
  write_retiring-one (m ∷ ms) r = refl

  -- For a digest that is not empty, and markers read so far that all have one: whatever storage
  -- answers, marking the digest as retiring writes only the host's markers; and if it succeeds, either the digest had a marker that has not
  -- elapsed and nothing was written, or a reader of what was written finds a marker of the digest
  -- and one of every digest whose marker has not elapsed.
  pub mark_in-IsMarked :
      (existing : List RetiringRecord)
      → text_eq digest [] ≡ false
      → All (λ m. has_digest m ≡ true) existing
      → Safe
          (MayMark (retiring_object_name d.prefix host))
          note_written
          (IsMarked digest now existing)
          none
          (mark_in d host digest now existing)
  unfolding mark_in has_digest
  mark_in-IsMarked existing named all_named =
      Safe-if (MayMark (retiring_object_name d.prefix host)) note_written
        (IsMarked digest now existing) none (ret (ok tt)) _
        (any (λ r. text_eq r.digest digest) (unexpired now existing)) (λ marked. marked)
        (λ unmarked.
          subst
            (λ q.
              Safe (MayMark (retiring_object_name d.prefix host)) note_written
                (IsMarked digest now existing) none q)
            (sym (write_retiring-one (unexpired now existing) new_mark))
            (
              (refl, refl),
              elim [
                | err e ↦ tt
                | ok done ↦ (
                  unexpired now existing ++ (new_mark ∷ []),
                  parse_retiring-marshal_retiring (unexpired now existing ++ (new_mark ∷ []))
                      (unexpired-has_digest now existing new_mark all_named (ap not named)),
                  last-Marks (unexpired now existing) new_mark,
                  unexpired-Lasts now existing (new_mark ∷ []),
                )
              ],
            ))
