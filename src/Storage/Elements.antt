-- ===== src/Storage/Elements.antt =====
-- The elements of a path (storage/filesystem.go): how Split, Join and Clean act on them.
use go_certs_manager.Base.{
  All, All-mono, Bool, Bool-cases, List, Text, [], any, ap, arith, false, has_prefix, if◌then◌else◌,
  inl, inr, keep_if, refl, sym, text_eq, true, ℕ, ◌++◌, ◌==◌, ◌∙◌, ◌∷◌, ◌≡◌,
}
use go_certs_manager.Dane.Soak.{kept}
use go_certs_manager.Storage.Paths.{
  add_to_first, clean_from, dot_dot, is_proper, join, reversed, slash, split,
}

-- A path element holds no separator.
unfoldable pub is_flat : Text → Bool
is_flat [] = true
is_flat (c ∷ p) = if c == slash then false else is_flat p

abbrev pub AllFlat : List Text → Type 0
AllFlat ps = All (λ p. is_flat p ≡ true) ps

abbrev pub is_up : Text → Bool
is_up p = text_eq p dot_dot

-- What a clean path's elements are.
abbrev pub AllKept : List Text → Type 0
AllKept ps = All (λ p. (is_flat p ≡ true) × (is_proper p ≡ true) × (is_up p ≡ false)) ps

first-append :
    (c : ℕ) (s : Text) (ts : List Text)
    → add_to_first c (split s ++ ts) ≡ add_to_first c (split s) ++ ts
unfolding split
first-append c [] ts = refl
first-append c (d ∷ s) ts = elim (Bool-cases (d == slash)) [
  | inl e ↦ rw e refl
  | inr e ↦ rw e (shifted (split s))
]
  where
    shifted :
        (ss : List Text)
        → add_to_first c (add_to_first d ss ++ ts) ≡ add_to_first c (add_to_first d ss) ++ ts
    shifted [] = refl
    shifted (u ∷ us) = refl

pub split-append : (s t : Text) → split (s ++ (slash ∷ t)) ≡ split s ++ split t
unfolding split
split-append [] t = refl
split-append (c ∷ s) t = elim (Bool-cases (c == slash)) [
  | inl e ↦ rw e (ap (◌∷◌ []) (split-append s t))
  | inr e ↦ rw (e, split-append s t) (first-append c s (split t))
]

pub split_flat : (p : Text) → is_flat p ≡ true → split p ≡ p ∷ []
unfolding split is_flat
split_flat [] f = refl
split_flat (c ∷ p) f = elim (Bool-cases (c == slash)) [
  | inl e ↦ absurd (ground (arith, f, e))
  | inr e ↦ rw (e, split_flat p (rest_flat e)) refl
]
  where
    rest_flat : (c == slash) ≡ false → is_flat p ≡ true
    rest_flat e = sym (rw e refl) ∙ f

pub flat_split : (s : Text) → AllFlat (split s)
unfolding split is_flat
flat_split [] = (refl, tt)
flat_split (c ∷ s) = elim (Bool-cases (c == slash)) [
  | inl e ↦ rw e (refl, flat_split s)
  | inr e ↦ rw e (longer e (split s) (flat_split s))
]
  where
    longer : (c == slash) ≡ false → (ss : List Text) → AllFlat ss → AllFlat (add_to_first c ss)
    longer e [] a = (rw e refl, tt)
    longer e (u ∷ us) a = (rw e a.0, a.1)

-- Joined elements are split again.
pub split-join : (p : Text) (ps : List Text) → AllFlat (p ∷ ps) → split (join (p ∷ ps)) ≡ p ∷ ps
unfolding join
split-join p [] a = split_flat p a.0
split-join p (q ∷ ps) a =
    rw (split-append p (join (q ∷ ps)), split_flat p a.0, split-join q ps a.1) refl

pub join-append :
    (p : Text) (ps : List Text) (q : Text) (qs : List Text)
    → join ((p ∷ ps) ++ (q ∷ qs)) ≡ join (p ∷ ps) ++ (slash ∷ join (q ∷ qs))
unfolding join
join-append p [] q qs = refl
join-append p (r ∷ ps) q qs = rw (join-append r ps q qs) (append_assoc p)
  where
    append_assoc :
        (s : Text)
        → s ++ (slash ∷ (join (r ∷ ps) ++ (slash ∷ join (q ∷ qs))))
          ≡ (s ++ (slash ∷ join (r ∷ ps))) ++ (slash ∷ join (q ∷ qs))
    append_assoc [] = refl
    append_assoc (c ∷ s) = ap (◌∷◌ c) (append_assoc s)

-- Without "..", Clean only drops what is not proper.
pub clean_from-keep_if :
    (rooted : Bool) (kept ps : List Text)
    → any is_up ps ≡ false
    → clean_from rooted kept ps ≡ reversed (keep_if is_proper ps) kept
unfolding clean_from reversed
clean_from-keep_if rooted kept [] n = refl
clean_from-keep_if rooted kept (p ∷ ps) n = elim (Bool-cases (text_eq p dot_dot)) [
  | inl up ↦ absurd (ground (arith, n, up))
  | inr down ↦ elim (Bool-cases (is_proper p)) [
    | inl proper ↦
        rw (proper, down) (clean_from-keep_if rooted (p ∷ kept) ps (ground (arith, n, down)))
    | inr improper ↦ rw improper (clean_from-keep_if rooted kept ps (ground (arith, n, down)))
  ]
]

pub reversed-reversed : (xs ys : List Text) → reversed (reversed xs ys) [] ≡ reversed ys xs
unfolding reversed
reversed-reversed [] ys = refl
reversed-reversed (x ∷ xs) ys = reversed-reversed xs (x ∷ ys)

pub keep_if-AllKept :
    (ps : List Text) → AllFlat ps → any is_up ps ≡ false → AllKept (keep_if is_proper ps)
keep_if-AllKept [] f n = tt
keep_if-AllKept (p ∷ ps) f n = elim (Bool-cases (is_proper p)) [
  | inl proper ↦
      rw proper ((f.0, proper, ground (arith, n)), keep_if-AllKept ps f.1 (ground (arith, n)))
  | inr improper ↦ rw improper (keep_if-AllKept ps f.1 (ground (arith, n)))
]

pub AllKept-proper : (ps : List Text) → AllKept ps → keep_if is_proper ps ≡ ps
AllKept-proper [] a = refl
AllKept-proper (p ∷ ps) a = rw a.0.1 (ap (◌∷◌ p) (AllKept-proper ps a.1))

pub AllKept-down : (ps : List Text) → AllKept ps → any is_up ps ≡ false
AllKept-down [] a = refl
AllKept-down (p ∷ ps) a = rw a.0.2 (AllKept-down ps a.1)

pub AllKept-flat : (ps : List Text) → AllKept ps → AllFlat ps
AllKept-flat ps a =
    All-mono (λ p. (is_flat p ≡ true) × (is_proper p ≡ true) × (is_up p ≡ false))
      (λ p. is_flat p ≡ true) (λ p k. k.0) ps a

pub keep_if-append :
    (p : Text → Bool) (xs ys : List Text) → keep_if p (xs ++ ys) ≡ keep_if p xs ++ keep_if p ys
keep_if-append p [] ys = refl
keep_if-append p (x ∷ xs) ys = ground (arith, keep_if-append p xs ys)

pub join-first : (c : ℕ) (q : Text) (ps : List Text) → (t : Text) × (join ((c ∷ q) ∷ ps) ≡ c ∷ t)
unfolding join
join-first c q [] = (q, refl)
join-first c q (r ∷ ps) = (q ++ (slash ∷ join (r ∷ ps)), refl)

pub has_prefix-append : (s t : Text) → has_prefix (s ++ t) s ≡ true
unfolding has_prefix
has_prefix-append [] [] = refl
has_prefix-append [] (c ∷ t) = refl
has_prefix-append (c ∷ s) t = ground (arith, has_prefix-append s t)

pub append_nil : (ps : List Text) → ps ++ [] ≡ ps
append_nil [] = refl
append_nil (p ∷ ps) = ap (◌∷◌ p) (append_nil ps)

pub append_one : (s : Text) (c : ℕ) (t : Text) → (s ++ c ∷ []) ++ t ≡ s ++ (c ∷ t)
append_one [] c t = refl
append_one (d ∷ s) c t = ap (◌∷◌ d) (append_one s c t)
