-- ===== src/Storage/Swap.antt =====
-- Compare and swap on storage/filesystem.go: what its conditional puts are for.
use go_certs_manager.Base.{
  Bool, Bool-cases, Text, [], ap, arith, false, inl, inr, refl, some, subst, sym, true, ℕ, ◌∙◌, ◌≡◌,
  ◌⊎◌,
}
use go_certs_manager.Budget.{second}
use go_certs_manager.Effects.{Content, PutOptions, Result, conditional_put, err, is_ok, ok}
use go_certs_manager.Storage.Contract.{IsMet, IsPut, written_at}
use go_certs_manager.Storage.Filesystem.{put_object}
use go_certs_manager.Storage.Os.{Look, Os, OsLaws, object_at, plain_file}
use go_certs_manager.Storage.Paths.{get_full_path}
use go_certs_manager.Storage.Putting.{put_object-IsPut}

module _ {W : Type 0} (os : Os W) (look : Look W) (spare : Text → Bool)
    (laws : OsLaws os look spare) (etag_of : Text → ℕ → Text) (base_path : Text) where
  -- On any file system with these laws, and for a key whose path is none that CreateTemp makes: of
  -- two writers with one condition, IfNoneMatch or one captured ETag, the second does not succeed
  -- after the first has, and the object stays the first one's; for an ETag, provided that the first
  -- write gave the object another one.
  pub put_object-once :
      (key p : Text) (first second : Content) (opts : PutOptions) (w : W)
      → get_full_path base_path key ≡ some p
      → spare p ≡ false
      → (opts.if_none_match ≡ true) ⊎ ¬ (opts.if_match ≡ [])
      → let r1 = put_object os etag_of base_path key first opts w in
        let r2 = put_object os etag_of base_path key second opts r1.1 in
        ((n : ℕ) → look p r1.1 ≡ plain_file (first, n) → ¬ (etag_of key n ≡ opts.if_match))
        → r1.0 ≡ ok tt
        → (is_ok r2.0 ≡ false) × ((n : ℕ) × (object_at (look p r2.1) ≡ some (first, n)))
  unfolding object_at
  put_object-once key p first second opts w found used conditional fresh_tag won =
      lost r2.0
        (put_object-IsPut os look spare laws etag_of base_path key p second opts r1.1 found used)
    where
      r1 : Result (Unit {0}) × W
      r1 = put_object os etag_of base_path key first opts w

      r2 : Result (Unit {0}) × W
      r2 = put_object os etag_of base_path key second opts r1.1

      stored' : (n : ℕ) × (look p r1.1 ≡ plain_file (first, n))
      stored' =
          (subst (λ r. IsPut etag_of key first opts (object_at (look p w)) r (look p r1.1)) won
            (put_object-IsPut os look spare laws etag_of base_path key p first opts w found used)).1

      kept : object_at (look p r1.1) ≡ some (first, stored'.0)
      kept = ap object_at stored'.1

      broken : ¬ IsMet etag_of key opts (object_at (look p r1.1))
      broken met = elim (Bool-cases opts.if_none_match) [
        | inl once ↦ absurd (ground (arith, met.0 once, kept))
        | inr swap ↦ elim conditional [
          | inl once ↦ absurd (ground (arith, once, swap))
          | inr tagged ↦
              let m = met.1 swap tagged in
              let same = ap written_at (sym kept ∙ m.2) in
              fresh_tag stored'.0 stored'.1 (ap (etag_of key) same ∙ m.3)
        ]
      ]

      lost :
          (r : Result (Unit {0}))
          → IsPut etag_of key second opts (object_at (look p r1.1)) r (look p r2.1)
          → (is_ok r ≡ false) × ((n : ℕ) × (object_at (look p r2.1) ≡ some (first, n)))
      lost (ok x) i = absurd (broken i.0)
      lost (err conditional_put) i = (refl, (stored'.0, i.1 ∙ kept))
      lost (err e) i = elim i [
        | inl same ↦ (refl, (stored'.0, same ∙ kept))
        | inr won_too ↦ absurd (broken won_too.0)
      ]
