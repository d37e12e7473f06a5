-- ===== src/Storage/Contract.antt =====
-- That the operations of storage/filesystem.go keep the error contract of storage/interface.go.
use go_certs_manager.Base.{
  Bool, Bool-cases, Option, Text, [], ap, arith, false, inl, inr, none, refl, some, sym, text_eq,
  text_eq_iff, true, ℕ, ◌∙◌, ◌∷◌, ◌≡◌, ◌⊎◌,
}
use go_certs_manager.Effects.{Content, PutOptions, Result, conditional_put, err, ok}
use go_certs_manager.Storage.Filesystem.{linked, publish, renamed, swap_if}
use go_certs_manager.Storage.Os.{
  File, Look, Node, Os, OsLaws, OsResult, done, exists, failed, folder, missing, nothing_there,
  object_at, other_error, plain_file,
}

-- A conditional put's condition on the object that is there: with IfNoneMatch there is none, with
-- IfMatch there is one with this ETag.
abbrev pub IsMet : (Text → ℕ → Text) → Text → PutOptions → Option File → Type 0
IsMet etag_of key opts before =
    (opts.if_none_match ≡ true → before ≡ none)
    × (opts.if_none_match ≡ false
        → ¬ (opts.if_match ≡ [])
        → (c : Content) × (n : ℕ) × (before ≡ some (c, n)) × (etag_of key n ≡ opts.if_match))

abbrev pub IsWritten : Content → Node → Type 0
IsWritten content after = (n : ℕ) × (after ≡ plain_file (content, n))

-- What a put promises: success stores the content and its condition held; a refusal means that the
-- condition failed, or that a folder is in the way, and leaves the object as it was; after any other
-- error the object is as it was, or the whole content is there and the condition held.
abbrev pub IsPut :
    (Text → ℕ → Text)
    → Text
    → Content
    → PutOptions
    → Option File
    → Result (Unit {0})
    → Node
    → Type 0
IsPut etag_of key content opts before (ok x) after =
    IsMet etag_of key opts before × IsWritten content after
IsPut etag_of key content opts before (err conditional_put) after =
    ((¬ IsMet etag_of key opts before) ⊎ (after ≡ folder)) × (object_at after ≡ before)
IsPut etag_of key content opts before (err e) after =
    (object_at after ≡ before) ⊎ (IsMet etag_of key opts before × IsWritten content after)

abbrev options : Bool → Text → PutOptions
options once tag = record { if_none_match = once; if_match = tag }

abbrev pub written_at : Option File → ℕ
written_at none = 0
written_at (some f) = f.1

object_at-none : (n : Node) → ¬ (n ≡ nothing_there) → (object_at n ≡ none) → n ≡ folder
unfolding object_at
object_at-none nothing_there there is = absurd (there refl)
object_at-none folder there is = refl
object_at-none (plain_file f) there is = absurd (ground (arith, is))

module _ {W : Type 0} (os : Os W) (look : Look W) (spare : Text → Bool)
    (laws : OsLaws os look spare) (etag_of : Text → ℕ → Text) (base_path : Text) where
  abbrev object : Text → W → Option File
  object p w = object_at (look p w)

  link-IsPut :
      (key p tmp : Text) (content : Content) (opts : PutOptions) (n : ℕ) (w : W)
      → opts.if_none_match ≡ true
      → look tmp w ≡ plain_file (content, n)
      → IsPut etag_of key content opts
          (object p w)
          (linked (os.link tmp p w).0)
          (look p (os.link tmp p w).1)
  unfolding linked object_at
  link-IsPut key p tmp content opts n w once filled = outcome (os.link tmp p w).0 refl
    where
      met : look p w ≡ nothing_there → IsMet etag_of key opts (object p w)
      met is = (λ _. ap object_at is, λ twice. absurd (ground (arith, once, twice)))

      either :
          (object_at (look p (os.link tmp p w).1) ≡ object p w)
          ⊎ (IsMet etag_of key opts (object p w) × IsWritten content (look p (os.link tmp p w).1))
      either = elim (laws.link_atomic tmp p w) [
        | inl same ↦ inl (ap object_at same)
        | inr made ↦ inr (met made.0, (n, made.1 ∙ filled))
      ]

      refused :
          ¬ (look p w ≡ nothing_there)
          → ((¬ IsMet etag_of key opts (object p w)) ⊎ (look p (os.link tmp p w).1 ≡ folder))
            × (object_at (look p (os.link tmp p w).1) ≡ object p w)
      refused there = elim (laws.link_atomic tmp p w) [
        | inr made ↦ absurd (there made.0)
        | inl same ↦ (
          elim (object-cases (look p w)) [
            | inl empty' ↦ inr (same ∙ object_at-none (look p w) there empty')
            | inr full ↦ inl (λ is_met. full (is_met.0 once))
          ],
          ap object_at same,
        )
      ]
        where
          object-cases : (x : Node) → (object_at x ≡ none) ⊎ (¬ (object_at x ≡ none))
          object-cases (plain_file f) = inr (λ e. absurd (ground (arith, e)))
          object-cases nothing_there = inl refl
          object-cases folder = inl refl

      outcome :
          (r : OsResult (Unit {0}))
          → (os.link tmp p w).0 ≡ r
          → IsPut etag_of key content opts (object p w) (linked r) (look p (os.link tmp p w).1)
      outcome (done x) e = let is = laws.link_done tmp p w e in (met is.0, (n, is.1 ∙ filled))
      outcome (failed exists) e = refused (laws.link_exists tmp p w e)
      outcome (failed missing) e = either
      outcome (failed other_error) e = either

  rename-IsPut :
      (key p tmp : Text) (content : Content) (opts : PutOptions) (n : ℕ) (w : W)
      → (¬ (look p w ≡ folder) → IsMet etag_of key opts (object p w))
      → look tmp w ≡ plain_file (content, n)
      → IsPut etag_of key content opts
          (object p w)
          (renamed (os.rename tmp p w).0)
          (look p (os.rename tmp p w).1)
  unfolding renamed
  rename-IsPut key p tmp content opts n w met filled = outcome (os.rename tmp p w).0 refl
    where
      outcome :
          (r : OsResult (Unit {0}))
          → (os.rename tmp p w).0 ≡ r
          → IsPut etag_of key content opts (object p w) (renamed r) (look p (os.rename tmp p w).1)
      outcome (done x) e =
          let is = laws.rename_done tmp p (content, n) w filled e in (met is.0, (n, is.1))
      outcome (failed x) e = elim (laws.rename_atomic tmp p (content, n) w filled) [
        | inl same ↦ inl (ap object_at same)
        | inr made ↦ inr (met made.0, (n, made.1))
      ]

  swap_if-IsPut :
      (key p tmp : Text) (content : Content) (opts : PutOptions) (n : ℕ) (w : W) (s : OsResult ℕ)
      → opts.if_none_match ≡ false
      → ¬ (opts.if_match ≡ [])
      → look tmp w ≡ plain_file (content, n)
      → os.stat p w ≡ s
      → let r = swap_if os etag_of base_path key p tmp opts.if_match w s in
        IsPut etag_of key content opts (object p w) r.0 (look p r.1)
  unfolding swap_if object_at
  swap_if-IsPut key p tmp content opts n w (failed missing) swap tagged filled e = (
    inl (λ met.
        absurd (ground (arith, (met.1 swap tagged).2, ap object_at (laws.stat_missing p w e)))),
    refl,
  )
  swap_if-IsPut key p tmp content opts n w (failed exists) swap tagged filled e = inl refl
  swap_if-IsPut key p tmp content opts n w (failed other_error) swap tagged filled e = inl refl
  swap_if-IsPut key p tmp content opts n w (done time) swap tagged filled e =
      elim (Bool-cases (text_eq (etag_of key time) opts.if_match)) [
        | inl same ↦ rw same (rename-IsPut key p tmp content opts n w (met same) filled)
        | inr other ↦ rw other (inl (unmet other), refl)
      ]
    where
      met :
          text_eq (etag_of key time) opts.if_match ≡ true
          → ¬ (look p w ≡ folder)
          → IsMet etag_of key opts (object p w)
      met same file' = (
        λ once. absurd (ground (arith, swap, once)),
        λ s t. elim (laws.stat_done p time w e) [
          | inl is ↦ absurd (file' is)
          | inr d ↦
              (d.0, time, ap object_at d.1, (text_eq_iff (etag_of key time) opts.if_match).0 same)
        ],
      )

      unmet :
          text_eq (etag_of key time) opts.if_match ≡ false → ¬ IsMet etag_of key opts (object p w)
      unmet other is_met =
          let m = is_met.1 swap tagged in
          elim (laws.stat_done p time w e) [
            | inl is ↦ absurd (ground (arith, m.2, ap object_at is))
            | inr d ↦
                let same_time = ap written_at (sym (ap object_at d.1) ∙ m.2) in
                let tag = ap (etag_of key) same_time ∙ m.3 in
                absurd (ground (arith, other, (text_eq_iff (etag_of key time) opts.if_match).1 tag))
          ]

  pub publish-IsPut :
      (key p tmp : Text) (content : Content) (opts : PutOptions) (n : ℕ) (w : W)
      → look tmp w ≡ plain_file (content, n)
      → let r = publish os etag_of base_path key p tmp opts w in
        IsPut etag_of key content opts (object p w) r.0 (look p r.1)
  unfolding publish
  publish-IsPut key p tmp content opts n w filled = each opts.if_none_match opts.if_match
    where
      each :
          (once : Bool) (tag : Text)
          → let o = options once tag in
            let r = publish os etag_of base_path key p tmp o w in
            IsPut etag_of key content o (object p w) r.0 (look p r.1)
      each true tag = link-IsPut key p tmp content (options true tag) n w refl filled
      each false [] =
          rename-IsPut key p tmp content (options false []) n w
            (λ file'. (λ once. absurd (ground (arith, once)), λ s t. absurd (t refl))) filled
      each false (c ∷ s) =
          swap_if-IsPut key p tmp content (options false (c ∷ s)) n w (os.stat p w) refl
            (λ e. absurd (ground (arith, e))) filled refl
