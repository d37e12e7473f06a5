-- ===== src/Tests/Disk.antt =====
-- A small file system in memory, with files and folders, on which the laws of `Storage.Os` hold.
use go_certs_manager.Base.{
  Bool, List, Map, Option, Text, [], codes, has_suffix, if◌then◌else◌, insert, length, lookup, map,
  none, remove, some, ℕ, ◌++◌, ◌==◌, ◌∷◌,
}
use go_certs_manager.Effects.{Content, garbage}
use go_certs_manager.Storage.Os.{
  Look, Node, Os, OsResult, done, exists, failed, folder, missing, nothing_there, other_error,
  plain_file,
}

abbrev pub Disk : Type 0
Disk = Map Node

unfoldable pub node_of : Option Node → Node
node_of none = nothing_there
node_of (some n) = n

unfoldable pub look : Look Disk
unfolding node_of
look p w = node_of (lookup p w)

abbrev pub temp_name : Text
temp_name = codes "/.tmp-1"

-- CreateTemp makes one file in each folder.
unfoldable pub spare : Text → Bool
spare p = has_suffix p temp_name

-- The folders that lead to a path, and the path.
unfoldable pub ways : Text → List Text
ways [] = [] ∷ []
ways (c ∷ s) = if c == b'/' then [] ∷ map (◌∷◌ c) (ways s) else map (◌∷◌ c) (ways s)

unfoldable pub make_folder : Text → Disk → Option Node → Disk
make_folder d w none = insert d folder w
make_folder d w (some n) = w

unfoldable pub make_folders : List Text → Disk → Disk
unfolding make_folder
make_folders [] w = w
make_folders (d ∷ ds) w = make_folders ds (make_folder d w (lookup d w))

unfoldable pub is_made : Node → OsResult (Unit {0})
is_made folder = done tt
is_made n = failed other_error

unfoldable pub mkdir_in : Text → Disk → OsResult (Unit {0}) × Disk
unfolding ways make_folders is_made look
mkdir_in d w = let w' = make_folders (ways d) w in (is_made (look d w'), w')

unfoldable pub temp_found : Text → Disk → Node → OsResult Text × Disk
temp_found d w folder = (done (d ++ temp_name), insert (d ++ temp_name) (plain_file (garbage, 0)) w)
temp_found d w n = (failed missing, w)

unfoldable pub temp_in : Text → Disk → OsResult Text × Disk
unfolding temp_found look
temp_in d w = temp_found d w (look d w)

-- A file's time is how many nodes there were when it was written.
unfoldable pub copy_in : Text → Content → Disk → OsResult (Unit {0}) × Disk
copy_in t c w = (done tt, insert t (plain_file (c, length w)) w)

unfoldable pub link_found : Text → Disk → Node → Node → OsResult (Unit {0}) × Disk
link_found p w nothing_there (plain_file f) = (done tt, insert p (plain_file f) w)
link_found p w nothing_there src = (failed missing, w)
link_found p w dst src = (failed exists, w)

unfoldable pub link_in : Text → Text → Disk → OsResult (Unit {0}) × Disk
unfolding link_found look
link_in t p w = link_found p w (look p w) (look t w)

unfoldable pub rename_found : Text → Text → Disk → Node → Node → OsResult (Unit {0}) × Disk
rename_found t p w (plain_file f) folder = (failed exists, w)
rename_found t p w (plain_file f) dst = (done tt, insert p (plain_file f) (remove t w))
rename_found t p w src dst = (failed missing, w)

unfoldable pub rename_in : Text → Text → Disk → OsResult (Unit {0}) × Disk
unfolding rename_found look
rename_in t p w = rename_found t p w (look t w) (look p w)

unfoldable pub stat_found : Node → OsResult ℕ
stat_found nothing_there = failed missing
stat_found folder = done 0
stat_found (plain_file f) = done f.1

unfoldable pub open_found : Node → OsResult Content
open_found nothing_there = failed missing
open_found folder = done garbage
open_found (plain_file f) = done f.0

-- No folder is empty.
unfoldable pub remove_found : Text → Disk → Node → OsResult (Unit {0}) × Disk
remove_found p w nothing_there = (failed missing, w)
remove_found p w folder = (failed other_error, w)
remove_found p w (plain_file f) = (done tt, remove p w)

unfoldable pub disk : Os Disk
unfolding mkdir_in temp_in copy_in link_in rename_in stat_found open_found remove_found look
disk = record {
  mkdir_all = mkdir_in;
  create_temp = temp_in;
  copy = copy_in;
  sync = λ t w. (done tt, w);
  close = λ t w. (done tt, w);
  link = link_in;
  rename = rename_in;
  stat = λ p w. stat_found (look p w);
  open_file = λ p w. open_found (look p w);
  remove_file = λ p w. remove_found p w (look p w);
  sync_dir = λ d w. w;
  walk = λ p w. failed other_error;
}
