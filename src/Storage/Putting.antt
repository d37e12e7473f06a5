-- ===== src/Storage/Putting.antt =====
-- PutObject of storage/filesystem.go as a whole: what a put promises, on any file system of which
-- the laws of `Storage.Os` hold.
use go_certs_manager.Base.{
  Bool, Option, Text, ap, false, inl, inr, refl, some, subst, sym, true, ℕ, ◌∙◌, ◌≡◌,
}
use go_certs_manager.Effects.{Content, PutOptions, Result, err, ok}
use go_certs_manager.Storage.Contract.{IsPut, publish-IsPut}
use go_certs_manager.Storage.Filesystem.{
  cleaned_up, dir_of, fill, or_fail, publish, put_at, put_object, synced, with_temp,
}
use go_certs_manager.Storage.Os.{
  File, Look, Os, OsLaws, OsResult, done, failed, object_at, plain_file,
}
use go_certs_manager.Storage.Paths.{get_full_path}

module _ {W : Type 0} (os : Os W) (look : Look W) (spare : Text → Bool)
    (laws : OsLaws os look spare) (etag_of : Text → ℕ → Text) (base_path : Text) where
  abbrev object : Text → W → Option File
  object p w = object_at (look p w)

  synced-IsPut :
      (key p dir : Text) (content : Content) (opts : PutOptions) (before : Option File)
      (r : Result (Unit {0}) × W)
      → IsPut etag_of key content opts before r.0 (look p r.1)
      → let s = synced os etag_of base_path dir r in
        IsPut etag_of key content opts before s.0 (look p s.1)
  unfolding synced
  synced-IsPut key p dir content opts before (ok x, w) i =
      (i.0, (i.1.0, laws.sync_dir_keeps dir p w ∙ i.1.1))
  synced-IsPut key p dir content opts before (err e, w) i = i

  -- A step before the publication.
  or_fail-IsPut :
      (key p : Text) (content : Content) (opts : PutOptions) (before : Option File)
      (r : OsResult (Unit {0}) × W) (next : W → Result (Unit {0}) × W)
      → object p r.1 ≡ before
      → (r.0 ≡ done tt → IsPut etag_of key content opts before (next r.1).0 (look p (next r.1).1))
      → IsPut etag_of key content opts before (or_fail r next).0 (look p (or_fail r next).1)
  or_fail-IsPut key p content opts before (done x, w) next same then = then refl
  or_fail-IsPut key p content opts before (failed e, w) next same then = inl same

  fill-IsPut :
      (key p dir tmp : Text) (content : Content) (opts : PutOptions) (w : W)
      → spare p ≡ false
      → spare tmp ≡ true
      → let r = fill os etag_of base_path key p dir tmp content opts w in
        IsPut etag_of key content opts (object p w) r.0 (look p r.1)
  unfolding fill
  fill-IsPut key p dir tmp content opts w used is_spare =
      or_fail-IsPut key p content opts (object p w) (os.copy tmp content w) copied
        (ap object_at kept1)
        λ d1.
          or_fail-IsPut key p content opts (object p w) (os.sync tmp w1) flushed
            (ap object_at kept2)
            λ d2.
              or_fail-IsPut key p content opts (object p w) (os.close tmp w2) finished
                (ap object_at kept3)
                λ d3.
                  synced-IsPut key p dir content opts (object p w)
                    (publish os etag_of base_path key p tmp opts w3)
                    (subst
                      (λ b.
                        let r = publish os etag_of base_path key p tmp opts w3 in
                        IsPut etag_of key content opts b r.0 (look p r.1))
                      (ap object_at kept3)
                      (publish-IsPut os look spare laws etag_of base_path key p tmp content opts
                        (laws.copy_fills tmp content w d1).0 w3 (filled d1)))
    where
      w1 : W
      w1 = (os.copy tmp content w).1

      w2 : W
      w2 = (os.sync tmp w1).1

      w3 : W
      w3 = (os.close tmp w2).1

      finished : W → Result (Unit {0}) × W
      finished w = synced os etag_of base_path dir (publish os etag_of base_path key p tmp opts w)

      flushed : W → Result (Unit {0}) × W
      flushed w = or_fail (os.close tmp w) finished

      copied : W → Result (Unit {0}) × W
      copied w = or_fail (os.sync tmp w) flushed

      kept1 : look p w1 ≡ look p w
      kept1 = laws.copy_keeps tmp p content w is_spare used

      kept2 : look p w2 ≡ look p w
      kept2 = laws.sync_keeps tmp p w1 ∙ kept1

      kept3 : look p w3 ≡ look p w
      kept3 = laws.close_keeps tmp p w2 ∙ kept2

      filled :
          (d : (os.copy tmp content w).0 ≡ done tt)
          → look tmp w3 ≡ plain_file (content, (laws.copy_fills tmp content w d).0)
      filled d =
          laws.close_keeps tmp tmp w2
          ∙ (laws.sync_keeps tmp tmp w1 ∙ (laws.copy_fills tmp content w d).1)

  with_temp-IsPut :
      (key p dir : Text) (content : Content) (opts : PutOptions) (t : OsResult Text × W)
      → spare p ≡ false
      → ((tmp : Text) → t.0 ≡ done tmp → spare tmp ≡ true)
      → let r = with_temp os etag_of base_path key p dir content opts t in
        IsPut etag_of key content opts (object p t.1) r.0 (look p r.1)
  unfolding with_temp cleaned_up
  with_temp-IsPut key p dir content opts (failed e, w) used is_spare = inl refl
  with_temp-IsPut key p dir content opts (done tmp, w) used is_spare =
      let r = fill os etag_of base_path key p dir tmp content opts w in
      subst (IsPut etag_of key content opts (object p w) r.0)
        (sym (laws.remove_temp tmp p r.1 (is_spare tmp refl) used))
        (fill-IsPut key p dir tmp content opts w used (is_spare tmp refl))

  put_at-IsPut :
      (key p : Text) (content : Content) (opts : PutOptions) (w : W)
      → spare p ≡ false
      → let r = put_at os etag_of base_path key p content opts w in
        IsPut etag_of key content opts (object p w) r.0 (look p r.1)
  unfolding put_at object_at
  put_at-IsPut key p content opts w used =
      or_fail-IsPut key p content opts (object p w) (os.mkdir_all dir w) staged grown λ d.
        subst (λ b. let r = staged w1 in IsPut etag_of key content opts b r.0 (look p r.1))
          (ap object_at (laws.create_temp_keeps dir p w1 used) ∙ grown)
          (with_temp-IsPut key p dir content opts (os.create_temp dir w1) used
            (λ tmp e. laws.create_temp_spare dir tmp w1 e))
    where
      dir : Text
      dir = dir_of p

      w1 : W
      w1 = (os.mkdir_all dir w).1

      grown : object p w1 ≡ object p w
      grown = elim (laws.mkdir_all_grows dir p w) [
        | inl same ↦ ap object_at same
        | inr made ↦ ap object_at made.1 ∙ sym (ap object_at made.0)
      ]

      staged : W → Result (Unit {0}) × W
      staged w' = with_temp os etag_of base_path key p dir content opts (os.create_temp dir w')

  -- On any file system with these laws, and for a key whose path is none that CreateTemp makes: a
  -- put that succeeds found its condition fulfilled and leaves the content under the key; one that
  -- is refused with a ConditionalPutError found its condition broken, or a folder at the path, and
  -- leaves the object as it was; and after any other error the object is as it was, or the whole
  -- content is there with the condition fulfilled, but never a part of it.
  pub put_object-IsPut :
      (key p : Text) (content : Content) (opts : PutOptions) (w : W)
      → get_full_path base_path key ≡ some p
      → spare p ≡ false
      → let r = put_object os etag_of base_path key content opts w in
        IsPut etag_of key content opts (object p w) r.0 (look p r.1)
  unfolding put_object
  put_object-IsPut key p content opts w found used =
      subst (λ r. IsPut etag_of key content opts (object p w) r.0 (look p r.1)) (sym leads)
        (put_at-IsPut key p content opts w used)
    where
      leads :
          put_object os etag_of base_path key content opts w
          ≡ put_at os etag_of base_path key p content opts w
      leads = rw (found, put_object) refl
