-- ===== src/Tests/Files.antt =====
-- The results on storage/filesystem.go at one concrete file system.
use go_certs_manager.Base.{
  All, Text, [], any, arith, codes, false, has_prefix, has_suffix, if◌then◌else◌, inr, insert,
  keep_if, lookup, none, refl, remove, some, sym, text_dec, text_eq, trim_prefix, true, ℕ, ◌++◌,
  ◌∙◌, ◌∷◌, ◌≡◌,
}
use go_certs_manager.Effects.{
  Content, PutOptions, Result, create_only, is_ok, ok, other_block, pem_chain,
}
use go_certs_manager.Storage.Contained.{base, get_full_path-below}
use go_certs_manager.Storage.Contract.{IsPut}
use go_certs_manager.Storage.Elements.{is_flat, is_up}
use go_certs_manager.Storage.Filesystem.{
  cleaned_up, dir_of, fill, publish, put_at, put_if_match, put_object, renamed, swap_if, synced,
  with_temp,
}
use go_certs_manager.Storage.Os.{Node, done, object_at, plain_file}
use go_certs_manager.Storage.Paths.{
  back_up, clean, clean_from, dot_dot, get_full_path, is_proper, is_rooted, join, join_two, or_dot,
  reversed, slash, split,
}
use go_certs_manager.Storage.Putting.{put_object-IsPut}
use go_certs_manager.Storage.Swap.{put_object-once}
use go_certs_manager.Tests.Disk.{
  Disk, copy_in, disk, is_made, look, make_folder, make_folders, mkdir_in, node_of, remove_found,
  rename_found, rename_in, spare, stat_found, temp_found, temp_in, ways,
}
use go_certs_manager.Tests.DiskLaws.{disk-laws}

abbrev tag_of : Text → ℕ → Text
tag_of key' n = key' ++ n ∷ []

abbrev root : Text
root = codes "/srv"

abbrev object : Text
object = codes "tls/certs/mail.example"

abbrev path : Text
path = codes "/srv/tls/certs/mail.example"

abbrev first_chain : Content
first_chain = pem_chain []

abbrev one_file : Disk
one_file = (path, plain_file (first_chain, 7)) ∷ []

-- What MkdirAll has made, Stat finds.
stat-mkdir_all : disk.stat (codes "/srv/tls") (disk.mkdir_all (codes "/srv/tls") []).1 ≡ done 0
unfolding disk mkdir_in ways make_folders make_folder is_made look node_of lookup insert stat_found
    text_dec
stat-mkdir_all = refl

object-path : get_full_path root object ≡ some path
unfolding get_full_path join_two clean clean_from split join is_rooted reversed or_dot is_proper
    has_prefix trim_prefix text_dec back_up
object-path = refl

path-used : spare path ≡ false
unfolding spare text_dec has_suffix
path-used = refl

root-kept :
    All (λ p. (is_flat p ≡ true) × (is_proper p ≡ true) × (is_up p ≡ false)) (codes "srv" ∷ [])
unfolding is_flat is_proper text_dec
root-kept = ((refl, refl, refl), tt)

get_full_path-below_example :
    get_full_path (base (codes "srv") [] root-kept) (codes "certs//./a") ≡ (
      if any (λ seg. text_eq seg dot_dot) (split (codes "certs//./a"))
      then none
      else some (slash ∷ join (codes "srv" ∷ keep_if is_proper (split (codes "certs//./a")))))
get_full_path-below_example = get_full_path-below (codes "srv") [] root-kept (codes "certs//./a")

put_object-IsPut_example :
    let r = put_object disk tag_of root object first_chain create_only [] in
    IsPut tag_of object first_chain create_only (object_at (look path [])) r.0 (look path r.1)
put_object-IsPut_example =
    put_object-IsPut disk look spare disk-laws tag_of root object path first_chain create_only []
      object-path path-used

abbrev second_chain : Content
second_chain = pem_chain (other_block ∷ [])

-- A writer that has captured the object's ETag.
abbrev swap : PutOptions
swap = record { if_none_match = false; if_match = tag_of object 7 }

abbrev swapped : Result (Unit {0}) × Disk
swapped = put_object disk tag_of root object second_chain swap one_file

swap-wins : swapped.0 ≡ ok tt
unfolding put_object get_full_path join_two clean clean_from split join is_rooted reversed or_dot
    is_proper has_prefix trim_prefix text_dec back_up put_at with_temp fill publish renamed synced
    cleaned_up disk mkdir_in ways make_folders make_folder is_made temp_in temp_found node_of
    object_at look copy_in rename_in rename_found insert lookup dir_of put_if_match swap_if
    stat_found remove
swap-wins = refl

time-swapped : look path swapped.1 ≡ plain_file (second_chain, 6)
unfolding put_object get_full_path join_two clean clean_from split join is_rooted reversed or_dot
    is_proper has_prefix trim_prefix text_dec back_up put_at with_temp fill publish renamed synced
    cleaned_up disk mkdir_in ways make_folders make_folder is_made temp_in temp_found node_of
    object_at look copy_in rename_in rename_found insert lookup dir_of put_if_match swap_if
    stat_found remove remove_found
time-swapped = refl

abbrev written : ℕ → Node
written n = plain_file (second_chain, n)

tag-apart : (n : ℕ) → written 6 ≡ written n → ¬ (tag_of object n ≡ tag_of object 7)
tag-apart n e t = absurd (ground (arith, e, t))

put_object-once_example :
    let r2 = put_object disk tag_of root object first_chain swap swapped.1 in
    (is_ok r2.0 ≡ false) × ((n : ℕ) × (object_at (look path r2.1) ≡ some (second_chain, n)))
put_object-once_example =
    put_object-once disk look spare disk-laws tag_of root object path second_chain first_chain swap
      one_file object-path path-used (inr (λ e. absurd (ground (arith, e))))
      (λ n e t. tag-apart n (sym time-swapped ∙ e) t) swap-wins
