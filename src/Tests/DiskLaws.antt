-- ===== src/Tests/DiskLaws.antt =====
-- The laws of `Storage.Os` on the file system of `Tests.Disk`.
use go_certs_manager.Base.{
  Bool-cases, List, Option, Text, [], ap, arith, false, has_suffix-append, inl, inr, insert, length,
  lookup, lookup-insert_ne, lookup-insert_self, lookup-remove_ne, lookup-remove_self, none, refl,
  remove, some, subst, sym, text_eq, text_eq_iff, true, ℕ, ◌++◌, ◌∙◌, ◌∷◌, ◌≡◌, ◌⊎◌,
}
use go_certs_manager.Effects.{Content, garbage}
use go_certs_manager.Storage.Os.{
  File, Node, OsLaws, OsResult, done, exists, failed, folder, missing, nothing_there, plain_file,
}
use go_certs_manager.Tests.Disk.{
  Disk, copy_in, disk, link_found, link_in, look, make_folder, make_folders, mkdir_in, node_of,
  open_found, remove_found, rename_found, rename_in, spare, stat_found, temp_found, temp_in,
  temp_name, ways,
}

look-insert_self : (p : Text) (n : Node) (w : Disk) → look p (insert p n w) ≡ n
unfolding look
look-insert_self p n w = ap node_of (lookup-insert_self p n w)

look-insert_ne :
    (k p : Text) (n : Node) (w : Disk) → text_eq k p ≡ false → look p (insert k n w) ≡ look p w
unfolding look
look-insert_ne k p n w other = ap node_of (lookup-insert_ne k p n w other)

look-remove_ne : (k p : Text) (w : Disk) → text_eq k p ≡ false → look p (remove k w) ≡ look p w
unfolding look
look-remove_ne k p w other = ap node_of (lookup-remove_ne k p w other)

look-remove_self : (p : Text) (w : Disk) → look p (remove p w) ≡ nothing_there
unfolding look node_of
look-remove_self p w = ap node_of (lookup-remove_self p w)

-- A spare path is none that is not.
apart : (t p : Text) → spare t ≡ true → spare p ≡ false → text_eq t p ≡ false
apart t p is_spare used = elim (Bool-cases (text_eq t p)) [
  | inl same ↦ absurd (ground (arith, is_spare, used, ap spare ((text_eq_iff t p).0 same)))
  | inr other ↦ other
]

abbrev Grows : Node → Node → Type 0
Grows before after = (after ≡ before) ⊎ ((before ≡ nothing_there) × (after ≡ folder))

make_folder-Grows :
    (d p : Text) (w : Disk) (at : Option Node)
    → lookup d w ≡ at
    → Grows (look p w) (look p (make_folder d w at))
unfolding make_folder look node_of
make_folder-Grows d p w (some n) e = inl refl
make_folder-Grows d p w none e = elim (Bool-cases (text_eq d p)) [
  | inr other ↦ inl (look-insert_ne d p folder w other)
  | inl same ↦
      let is = (text_eq_iff d p).0 same in
      inr (
        subst (λ q. look q w ≡ nothing_there) is (ap node_of e),
        subst (λ q. look q (insert d folder w) ≡ folder) is (look-insert_self d folder w),
      )
]

Grows-trans : (a b c : Node) → Grows a b → Grows b c → Grows a c
Grows-trans a b c (inl e) (inl f) = inl (f ∙ e)
Grows-trans a b c (inl e) (inr f) = inr (sym e ∙ f.0, f.1)
Grows-trans a b c (inr e) (inl f) = inr (e.0, f ∙ e.1)
Grows-trans a b c (inr e) (inr f) = inr (e.0, f.1)

make_folders-Grows :
    (ds : List Text) (p : Text) (w : Disk) → Grows (look p w) (look p (make_folders ds w))
unfolding make_folders
make_folders-Grows [] p w = inl refl
make_folders-Grows (d ∷ ds) p w =
    let w' = make_folder d w (lookup d w) in
    Grows-trans (look p w) (look p w') (look p (make_folders ds w'))
      (make_folder-Grows d p w (lookup d w) refl) (make_folders-Grows ds p w')

temp-spare : (d : Text) → spare (d ++ temp_name) ≡ true
unfolding spare
temp-spare d = has_suffix-append d temp_name

temp_found-keeps :
    (d p : Text) (w : Disk) (n : Node) → spare p ≡ false → look p (temp_found d w n).1 ≡ look p w
unfolding temp_found
temp_found-keeps d p w folder used =
    look-insert_ne (d ++ temp_name) p (plain_file (garbage, 0)) w
      (apart (d ++ temp_name) p (temp-spare d) used)
temp_found-keeps d p w nothing_there used = refl
temp_found-keeps d p w (plain_file f) used = refl

temp_found-spare :
    (d t : Text) (w : Disk) (n : Node) → (temp_found d w n).0 ≡ done t → spare t ≡ true
unfolding temp_found
temp_found-spare d t w folder e = subst (λ r. spare (path_in r) ≡ true) e (temp-spare d)
  where
    path_in : OsResult Text → Text
    path_in (done u) = u
    path_in (failed x) = []
temp_found-spare d t w nothing_there e = absurd (ground (arith, e))
temp_found-spare d t w (plain_file f) e = absurd (ground (arith, e))

link_found-done :
    (p : Text) (w : Disk) (a b : Node)
    → (link_found p w a b).0 ≡ done tt
    → (a ≡ nothing_there) × (look p (link_found p w a b).1 ≡ b)
unfolding link_found
link_found-done p w nothing_there (plain_file f) e = (refl, look-insert_self p (plain_file f) w)
link_found-done p w nothing_there nothing_there e = absurd (ground (arith, e))
link_found-done p w nothing_there folder e = absurd (ground (arith, e))
link_found-done p w folder b e = absurd (ground (arith, e))
link_found-done p w (plain_file f) b e = absurd (ground (arith, e))

link_found-exists :
    (p : Text) (w : Disk) (a b : Node)
    → (link_found p w a b).0 ≡ failed exists
    → ¬ (a ≡ nothing_there)
unfolding link_found
link_found-exists p w nothing_there (plain_file f) e is = absurd (ground (arith, e))
link_found-exists p w nothing_there nothing_there e is = absurd (ground (arith, e))
link_found-exists p w nothing_there folder e is = absurd (ground (arith, e))
link_found-exists p w folder b e is = absurd (ground (arith, is))
link_found-exists p w (plain_file f) b e is = absurd (ground (arith, is))

link_found-atomic :
    (p : Text) (w : Disk) (a b : Node)
    → (look p (link_found p w a b).1 ≡ look p w)
      ⊎ ((a ≡ nothing_there) × (look p (link_found p w a b).1 ≡ b))
unfolding link_found
link_found-atomic p w nothing_there (plain_file f) = inr (refl, look-insert_self p (plain_file f) w)
link_found-atomic p w nothing_there nothing_there = inl refl
link_found-atomic p w nothing_there folder = inl refl
link_found-atomic p w folder b = inl refl
link_found-atomic p w (plain_file f) b = inl refl

rename_found-done :
    (t p : Text) (f : File) (w : Disk) (b : Node)
    → (rename_found t p w (plain_file f) b).0 ≡ done tt
    → (¬ (b ≡ folder)) × (look p (rename_found t p w (plain_file f) b).1 ≡ plain_file f)
unfolding rename_found
rename_found-done t p f w folder e = absurd (ground (arith, e))
rename_found-done t p f w nothing_there e =
    (λ is. absurd (ground (arith, is)), look-insert_self p (plain_file f) (remove t w))
rename_found-done t p f w (plain_file g) e =
    (λ is. absurd (ground (arith, is)), look-insert_self p (plain_file f) (remove t w))

rename_found-atomic :
    (t p : Text) (f : File) (w : Disk) (b : Node)
    → (look p (rename_found t p w (plain_file f) b).1 ≡ look p w)
      ⊎ ((¬ (b ≡ folder)) × (look p (rename_found t p w (plain_file f) b).1 ≡ plain_file f))
unfolding rename_found
rename_found-atomic t p f w folder = inl refl
rename_found-atomic t p f w nothing_there = inr (rename_found-done t p f w nothing_there refl)
rename_found-atomic t p f w (plain_file g) = inr (rename_found-done t p f w (plain_file g) refl)

stat_found-done :
    (a : Node) (n : ℕ)
    → stat_found a ≡ done n
    → (a ≡ folder) ⊎ ((c : Content) × (a ≡ plain_file (c, n)))
unfolding stat_found
stat_found-done nothing_there n e = absurd (ground (arith, e))
stat_found-done folder n e = inl refl
stat_found-done (plain_file f) n e = inr (f.0, ap (λ r. plain_file (f.0, time_of r)) e)
  where
    time_of : OsResult ℕ → ℕ
    time_of (done m) = m
    time_of (failed x) = 0

stat_found-missing : (a : Node) → stat_found a ≡ failed missing → a ≡ nothing_there
unfolding stat_found
stat_found-missing nothing_there e = refl
stat_found-missing folder e = absurd (ground (arith, e))
stat_found-missing (plain_file f) e = absurd (ground (arith, e))

open_found-done :
    (a : Node) (c : Content)
    → open_found a ≡ done c
    → (a ≡ folder) ⊎ ((n : ℕ) × (a ≡ plain_file (c, n)))
unfolding open_found
open_found-done nothing_there c e = absurd (ground (arith, e))
open_found-done folder c e = inl refl
open_found-done (plain_file f) c e = inr (f.1, ap (λ r. plain_file (content_in r, f.1)) e)
  where
    content_in : OsResult Content → Content
    content_in (done d) = d
    content_in (failed x) = garbage

open_found-missing : (a : Node) → open_found a ≡ failed missing → a ≡ nothing_there
unfolding open_found
open_found-missing nothing_there e = refl
open_found-missing folder e = absurd (ground (arith, e))
open_found-missing (plain_file f) e = absurd (ground (arith, e))

remove_found-done :
    (p : Text) (w : Disk) (a : Node)
    → (remove_found p w a).0 ≡ done tt
    → look p (remove_found p w a).1 ≡ nothing_there
unfolding remove_found
remove_found-done p w nothing_there e = absurd (ground (arith, e))
remove_found-done p w folder e = absurd (ground (arith, e))
remove_found-done p w (plain_file f) e = look-remove_self p w

remove_found-missing :
    (p : Text) (w : Disk) (a : Node) → (remove_found p w a).0 ≡ failed missing → a ≡ nothing_there
unfolding remove_found
remove_found-missing p w nothing_there e = refl
remove_found-missing p w folder e = absurd (ground (arith, e))
remove_found-missing p w (plain_file f) e = absurd (ground (arith, e))

remove_found-atomic :
    (p : Text) (w : Disk) (a : Node)
    → (look p (remove_found p w a).1 ≡ look p w) ⊎ (look p (remove_found p w a).1 ≡ nothing_there)
unfolding remove_found
remove_found-atomic p w nothing_there = inl refl
remove_found-atomic p w folder = inl refl
remove_found-atomic p w (plain_file f) = inr (look-remove_self p w)

remove_found-keeps :
    (p q : Text) (w : Disk) (a : Node)
    → text_eq p q ≡ false
    → look q (remove_found p w a).1 ≡ look q w
unfolding remove_found
remove_found-keeps p q w nothing_there other = refl
remove_found-keeps p q w folder other = refl
remove_found-keeps p q w (plain_file f) other = look-remove_ne p q w other

pub disk-laws : OsLaws disk look spare
unfolding disk mkdir_in temp_in copy_in link_in rename_in
disk-laws = record {
  mkdir_all_grows = λ d p w. make_folders-Grows (ways d) p w;
  create_temp_keeps = λ d p w used. temp_found-keeps d p w (look d w) used;
  create_temp_spare = λ d t w e. temp_found-spare d t w (look d w) e;
  copy_keeps = λ t p c w is_spare used.
      look-insert_ne t p (plain_file (c, length w)) w (apart t p is_spare used);
  copy_fills = λ t c w e. (length w, look-insert_self t (plain_file (c, length w)) w);
  sync_keeps = λ t p w. refl;
  close_keeps = λ t p w. refl;
  link_done = λ t p w e. link_found-done p w (look p w) (look t w) e;
  link_exists = λ t p w e. link_found-exists p w (look p w) (look t w) e;
  link_atomic = λ t p w. link_found-atomic p w (look p w) (look t w);
  rename_done = λ t p f w src.
      subst
        (λ a.
          (rename_found t p w a (look p w)).0 ≡ done tt
          → (¬ (look p w ≡ folder)) × (look p (rename_found t p w a (look p w)).1 ≡ plain_file f))
        (sym src) (rename_found-done t p f w (look p w));
  rename_atomic = λ t p f w src.
      subst
        (λ a.
          (look p (rename_found t p w a (look p w)).1 ≡ look p w)
          ⊎ ((¬ (look p w ≡ folder)) × (look p (rename_found t p w a (look p w)).1 ≡ plain_file f)))
        (sym src) (rename_found-atomic t p f w (look p w));
  stat_done = λ p n w e. stat_found-done (look p w) n e;
  stat_missing = λ p w e. stat_found-missing (look p w) e;
  open_done = λ p c w e. open_found-done (look p w) c e;
  open_missing = λ p w e. open_found-missing (look p w) e;
  remove_done = λ p w e. remove_found-done p w (look p w) e;
  remove_missing = λ p w e. remove_found-missing p w (look p w) e;
  remove_atomic = λ p w. remove_found-atomic p w (look p w);
  remove_temp =
      λ t p w is_spare used. remove_found-keeps t p w (look t w) (apart t p is_spare used);
  remove_keeps = λ p q w tidy tidy' other. remove_found-keeps p q w (look p w) other;
  sync_dir_keeps = λ d p w. refl;
}
