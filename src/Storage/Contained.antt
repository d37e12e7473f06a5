-- ===== src/Storage/Contained.antt =====
-- Where the keys of storage/filesystem.go lead: getFullPath on a clean absolute base.
use go_certs_manager.Base.{
  Bool, Bool-cases, List, Option, Text, [], any, any-append, ap, arith, false, has_prefix,
  if◌then◌else◌, inl, inr, keep_if, none, refl, some, subst, sym, text_dec, text_eq, text_eq_refl,
  trim_prefix, true, ℕ, ◌++◌, ◌==◌, ◌||◌, ◌∙◌, ◌∷◌, ◌≡◌,
}
use go_certs_manager.Storage.Elements.{
  AllKept, AllKept-down, AllKept-flat, AllKept-proper, append_nil, append_one, clean_from-keep_if,
  flat_split, has_prefix-append, is_flat, is_up, join-append, join-first, keep_if-AllKept,
  keep_if-append, reversed-reversed, split-append, split-join,
}
use go_certs_manager.Storage.Paths.{
  clean, clean_from, dot_dot, get_full_path, is_proper, is_rooted, join, join_two, or_dot, reversed,
  slash, split,
}

abbrev Elements : Text → List Text → Type 0
Elements s ps = (keep_if is_proper (split s) ≡ ps) × (any is_up (split s) ≡ false)

join-Elements : (ps : List Text) → AllKept ps → Elements (join ps) ps
unfolding join split is_proper text_dec
join-Elements [] a = (refl, refl)
join-Elements (p ∷ ps) a =
    let e = split-join p ps (AllKept-flat (p ∷ ps) a) in
    (
      ap (keep_if is_proper) e ∙ AllKept-proper (p ∷ ps) a,
      ap (any is_up) e ∙ AllKept-down (p ∷ ps) a,
    )

untouched :
    (c : ℕ) (t : Text) → (c == slash) ≡ false → trim_prefix (or_dot (c ∷ t)) (slash ∷ []) ≡ c ∷ t
unfolding trim_prefix or_dot has_prefix
untouched c t e = rw e refl

trim_prefix-join :
    (p : Text) (ps : List Text)
    → AllKept (p ∷ ps)
    → trim_prefix (or_dot (join (p ∷ ps))) (slash ∷ []) ≡ join (p ∷ ps)
unfolding is_flat is_proper text_dec
trim_prefix-join [] ps a = absurd (ground (arith, a.0.1))
trim_prefix-join (c ∷ q) ps a =
    let (t, e) = join-first c q ps in
    subst (λ s. trim_prefix (or_dot s) (slash ∷ []) ≡ s) (sym e)
      (untouched c t (ground (arith, a.0.0)))

-- What is left of a cleaned key, with the separator before it trimmed.
trimmed-Elements :
    (rooted : Bool) (ps : List Text)
    → AllKept ps
    → Elements (trim_prefix (or_dot (if rooted then slash ∷ join ps else join ps)) (slash ∷ [])) ps
unfolding trim_prefix or_dot has_prefix join split is_proper text_dec
trimmed-Elements true ps a = join-Elements ps a
trimmed-Elements false [] a = (refl, refl)
trimmed-Elements false (p ∷ ps) a =
    subst (λ s. Elements s (p ∷ ps)) (sym (trim_prefix-join p ps a)) (join-Elements (p ∷ ps) a)

clean-Elements :
    (s : Text) (ps : List Text)
    → Elements s ps
    → clean s ≡ or_dot (if is_rooted s then slash ∷ join ps else join ps)
unfolding clean
clean-Elements s ps e =
    ap (λ body. or_dot (if is_rooted s then slash ∷ body else body)) (ap join kept)
  where
    kept : reversed (clean_from (is_rooted s) [] (split s)) [] ≡ ps
    kept =
        ap (λ q. reversed q []) (clean_from-keep_if (is_rooted s) [] (split s) e.1)
        ∙ (reversed-reversed (keep_if is_proper (split s)) [] ∙ e.0)

module _ (b : Text) (bs : List Text) (base_kept : AllKept (b ∷ bs)) where
  abbrev pub base : Text
  base = slash ∷ join (b ∷ bs)

  base-Elements : Elements base (b ∷ bs)
  unfolding split is_proper text_dec
  base-Elements = join-Elements (b ∷ bs) base_kept

  joined_path :
      (s : Text) (ps : List Text) → Elements s ps → join_two base s ≡ slash ∷ join ((b ∷ bs) ++ ps)
  unfolding join_two or_dot is_rooted
  joined_path s ps e = clean-Elements (base ++ (slash ∷ s)) ((b ∷ bs) ++ ps) (kept, down)
    where
      both : split (base ++ (slash ∷ s)) ≡ split base ++ split s
      both = split-append base s

      kept : keep_if is_proper (split (base ++ (slash ∷ s))) ≡ (b ∷ bs) ++ ps
      kept =
          ap (keep_if is_proper) both
          ∙ (keep_if-append is_proper (split base) (split s) ∙ cc (base-Elements.0, e.0))

      down : any is_up (split (base ++ (slash ∷ s))) ≡ false
      down =
          ap (any is_up) both
          ∙ (any-append is_up (split base) (split s) ∙ rw (base-Elements.1, e.1) refl)

  inside :
      (ps : List Text)
      → (has_prefix (slash ∷ join ((b ∷ bs) ++ ps)) (base ++ slash ∷ [])
          || text_eq (slash ∷ join ((b ∷ bs) ++ ps)) base)
        ≡ true
  inside [] =
      subst
        (λ q.
          (has_prefix (slash ∷ join q) (base ++ slash ∷ []) || text_eq (slash ∷ join q) base)
          ≡ true)
        (sym (append_nil (b ∷ bs))) (ground (arith, text_eq_refl base))
  inside (p ∷ ps) = ground (arith, prefixed)
    where
      prefixed : has_prefix (slash ∷ join ((b ∷ bs) ++ (p ∷ ps))) (base ++ slash ∷ []) ≡ true
      prefixed =
          ap (λ q. has_prefix q (base ++ slash ∷ []))
            (ap (◌∷◌ slash) (join-append b bs p ps) ∙ sym (append_one base slash (join (p ∷ ps))))
          ∙ has_prefix-append (base ++ slash ∷ []) (join (p ∷ ps))

  -- On an absolute clean base other than the root, a key with an element ".." has no path; any
  -- other key's path is the base followed by the key's elements in order, less the empty ones and
  -- ".": no key leads out of the base, and two keys share a path only if they have the same such
  -- elements.
  pub get_full_path-below :
      (key : Text)
      → get_full_path base key ≡ (
          if any (λ seg. text_eq seg dot_dot) (split key)
          then none
          else some (slash ∷ join ((b ∷ bs) ++ keep_if is_proper (split key))))
  unfolding get_full_path
  get_full_path-below key = elim (Bool-cases (any is_up (split key))) [
    | inl up ↦ rw up refl
    | inr down ↦ rw down (found down)
  ]
    where
      ps : List Text
      ps = keep_if is_proper (split key)

      cleaned : any is_up (split key) ≡ false → Elements (trim_prefix (clean key) (slash ∷ [])) ps
      cleaned down =
          subst (λ q. Elements (trim_prefix q (slash ∷ [])) ps)
            (sym (clean-Elements key ps (refl, down)))
            (trimmed-Elements (is_rooted key) ps
              (keep_if-AllKept (split key) (flat_split key) down))

      full :
          any is_up (split key) ≡ false
          → join_two base (trim_prefix (clean key) (slash ∷ [])) ≡ slash ∷ join ((b ∷ bs) ++ ps)
      full down = joined_path (trim_prefix (clean key) (slash ∷ [])) ps (cleaned down)

      checked : (q : Text) → Option Text
      checked q = if has_prefix q (base ++ slash ∷ []) || text_eq q base then some q else none

      found :
          any is_up (split key) ≡ false
          → checked (join_two base (trim_prefix (clean key) (slash ∷ [])))
            ≡ some (slash ∷ join ((b ∷ bs) ++ ps))
      found down = ap checked (full down) ∙ rw (inside ps) refl
