-- ===== src/Storage/Filesystem.antt =====
-- FilesystemBackend of storage/filesystem.go. `etag_of` is the hexadecimal MD5 of a key with a time.
-- A put takes fsCondPutMu for a swap and a removal does too, so that each of them is one step.
-- filepath.Dir: the path up to its last separator, cleaned.
use go_certs_manager.Base.{
  Bool, List, Text, [], if◌then◌else◌, none, not, some, text_eq, trim_prefix, ℕ, ◌&&◌, ◌++◌, ◌∷◌,
}
use go_certs_manager.Effects.{
  Content, ObjectInfo, PutOptions, Result, conditional_put, err, not_exist, ok, path_traversal,
  storage_failed,
}
use go_certs_manager.Storage.Os.{
  Entries, Entry, Os, OsResult, directory, done, entry_then, exists, failed, file, missing,
  no_entries, unreadable,
}
use go_certs_manager.Storage.Paths.{clean, get_full_path, slash, split}

unfoldable pub dir_of : Text → Text
dir_of path = clean (upto (split path))
  where
    upto : List Text → Text
    upto [] = []
    upto (p ∷ []) = []
    upto (p ∷ q ∷ ps) = p ++ (slash ∷ upto (q ∷ ps))

unfoldable pub linked : OsResult (Unit {0}) → Result (Unit {0})
linked (done x) = ok tt
linked (failed exists) = err conditional_put
linked (failed e) = err storage_failed

unfoldable pub renamed : OsResult (Unit {0}) → Result (Unit {0})
renamed (done x) = ok tt
renamed (failed e) = err storage_failed

-- A step that fails ends the put.
abbrev pub or_fail :
    {W : Type 0} → OsResult (Unit {0}) × W → (W → Result (Unit {0}) × W) → Result (Unit {0}) × W
or_fail (done x, w) next = next w
or_fail (failed e, w) next = (err storage_failed, w)

unfoldable pub opened : OsResult Content → Result Content
opened (done c) = ok c
opened (failed missing) = err not_exist
opened (failed e) = err storage_failed

unfoldable pub removed : OsResult (Unit {0}) → Result (Unit {0})
removed (done x) = ok tt
removed (failed missing) = ok tt
removed (failed e) = err storage_failed

module _ {W : Type 0} (os : Os W) (etag_of : Text → ℕ → Text) (base_path : Text) where
  -- putIfMatch, once the object has been looked at.
  unfoldable pub swap_if : Text → Text → Text → Text → W → OsResult ℕ → Result (Unit {0}) × W
  unfolding renamed
  swap_if key full_path tmp if_match' w (failed missing) = (err conditional_put, w)
  swap_if key full_path tmp if_match' w (failed e) = (err storage_failed, w)
  swap_if key full_path tmp if_match' w (done time) =
      if text_eq (etag_of key time) if_match'
      then (let (r, w') = os.rename tmp full_path w in (renamed r, w'))
      else (err conditional_put, w)

  unfoldable pub put_if_match : Text → Text → Text → Text → W → Result (Unit {0}) × W
  unfolding swap_if
  put_if_match key full_path tmp if_match' w =
      swap_if key full_path tmp if_match' w (os.stat full_path w)

  -- PutObject once the temporary file is complete: the three ways to give it its name.
  unfoldable pub publish : Text → Text → Text → PutOptions → W → Result (Unit {0}) × W
  unfolding put_if_match linked renamed
  publish key full_path tmp opts w =
      if opts.if_none_match
      then (let (r, w') = os.link tmp full_path w in (linked r, w'))
      else (elim opts.if_match [
        | [] ↦ let (r, w') = os.rename tmp full_path w in (renamed r, w')
        | c ∷ s ↦ put_if_match key full_path tmp (c ∷ s) w
      ])

  unfoldable pub synced : Text → Result (Unit {0}) × W → Result (Unit {0}) × W
  synced dir (ok x, w) = (ok tt, os.sync_dir dir w)
  synced dir (err e, w) = (err e, w)

  unfoldable pub fill : Text → Text → Text → Text → Content → PutOptions → W → Result (Unit {0}) × W
  unfolding publish synced
  fill key full_path dir tmp content opts w = or_fail (os.copy tmp content w) λ w1.
      or_fail (os.sync tmp w1)
        λ w2. or_fail (os.close tmp w2) λ w3. synced dir (publish key full_path tmp opts w3)

  -- `defer os.Remove(tmpPath)`
  unfoldable pub cleaned_up : Text → Result (Unit {0}) × W → Result (Unit {0}) × W
  cleaned_up tmp (r, w) = (r, (os.remove_file tmp w).1)

  unfoldable pub with_temp :
      Text → Text → Text → Content → PutOptions → OsResult Text × W → Result (Unit {0}) × W
  unfolding fill cleaned_up
  with_temp key full_path dir content opts (failed e, w) = (err storage_failed, w)
  with_temp key full_path dir content opts (done tmp, w) =
      cleaned_up tmp (fill key full_path dir tmp content opts w)

  unfoldable pub put_at : Text → Text → Content → PutOptions → W → Result (Unit {0}) × W
  unfolding with_temp dir_of
  put_at key full_path content opts w =
      let dir = dir_of full_path in
      or_fail (os.mkdir_all dir w)
        λ w'. with_temp key full_path dir content opts (os.create_temp dir w')

  -- PutObject
  unfoldable pub put_object : Text → Content → PutOptions → W → Result (Unit {0}) × W
  unfolding put_at
  put_object key content opts w = elim (get_full_path base_path key) [
    | none ↦ (err path_traversal, w)
    | some full_path ↦ put_at key full_path content opts w
  ]

  -- GetObject
  unfoldable pub get_object : Text → W → Result Content
  unfolding opened
  get_object key w = elim (get_full_path base_path key) [
    | none ↦ err path_traversal
    | some full_path ↦ opened (os.open_file full_path w)
  ]

  -- StatObject, without the size.
  unfoldable pub info_of : Text → OsResult ℕ → Result ObjectInfo
  info_of key (done time) = ok (record { key = key; etag = etag_of key time; last_modified = time })
  info_of key (failed missing) = err not_exist
  info_of key (failed e) = err storage_failed

  unfoldable pub stat_object : Text → W → Result ObjectInfo
  unfolding info_of
  stat_object key w = elim (get_full_path base_path key) [
    | none ↦ err path_traversal
    | some full_path ↦ info_of key (os.stat full_path w)
  ]

  -- RemoveObject
  unfoldable pub remove_object : Text → W → Result (Unit {0}) × W
  unfolding removed
  remove_object key w = elim (get_full_path base_path key) [
    | none ↦ (err path_traversal, w)
    | some full_path ↦ let (r, w') = os.remove_file full_path w in (removed r, w')
  ]

  -- ListObjects: the keys of the files found, relative to the base. A directory other than the one
  -- searched is skipped unless the search is recursive, and what cannot be read is passed over.
  unfoldable mutual
    pub collect_entry : Text → Bool → Entry → List ObjectInfo
    collect_entry search recursive (file path time) =
        let key = trim_prefix path (base_path ++ slash ∷ []) in
        record { key = key; etag = etag_of key time; last_modified = time } ∷ []
    collect_entry search recursive (directory path inside) =
        let found = collect_all search recursive inside in
        if not recursive && not (text_eq path search) then [] else found
    collect_entry search recursive (unreadable path) = []

    pub collect_all : Text → Bool → Entries → List ObjectInfo
    collect_all search recursive no_entries = []
    collect_all search recursive (entry_then n ns) =
        collect_entry search recursive n ++ collect_all search recursive ns

  unfoldable pub walked : Text → Bool → OsResult Entry → List ObjectInfo
  walked search recursive (done found) = collect_entry search recursive found
  walked search recursive (failed e) = []

  unfoldable pub list_objects : Text → Bool → W → Result (List ObjectInfo)
  list_objects prefix recursive w = elim (get_full_path base_path prefix) [
    | none ↦ err path_traversal
    | some search ↦ elim (os.stat search w) [
      | failed missing ↦ ok []
      | found ↦ ok (walked search recursive (os.walk search w))
    ]
  ]
