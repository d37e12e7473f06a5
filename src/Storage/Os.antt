-- ===== src/Storage/Os.antt =====
-- What storage/filesystem.go asks of package os: the operations on a file system of state `W`, each
-- with its outcome, and what is documented of them.
use go_certs_manager.Base.{Bool, Option, Text, false, none, some, text_eq, true, ℕ, ◌≡◌, ◌⊎◌}
use go_certs_manager.Effects.{Content}
use go_certs_manager.Storage.Paths.{clean}

-- os.IsNotExist, os.IsExist, and any other error.
pub data OsError : Type 0 where
  missing exists other_error : OsError

pub data OsResult (A : Type 0) : Type 0 where
  done : A → OsResult A
  failed : OsError → OsResult A

-- What filepath.Walk comes upon: a file, a directory with what is in it, or an entry that cannot
-- be read.
mutual
  pub data Entry : Type 0 where
    file : Text → ℕ → Entry
    directory : Text → Entries → Entry
    unreadable : Text → Entry

  pub data Entries : Type 0 where
    no_entries : Entries
    entry_then : Entry → Entries → Entries

pub record Os (W : Type 0) : Type 0 where
  pub mkdir_all : Text → W → OsResult (Unit {0}) × W
  pub create_temp : Text → W → OsResult Text × W
  pub copy : Text → Content → W → OsResult (Unit {0}) × W
  pub sync : Text → W → OsResult (Unit {0}) × W
  pub close : Text → W → OsResult (Unit {0}) × W
  pub link : Text → Text → W → OsResult (Unit {0}) × W
  pub rename : Text → Text → W → OsResult (Unit {0}) × W
  pub stat : Text → W → OsResult ℕ
  pub open_file : Text → W → OsResult Content
  pub remove_file : Text → W → OsResult (Unit {0}) × W
  pub sync_dir : Text → W → W
  pub walk : Text → W → OsResult Entry

-- A file: what was written to it, and the time of the write.
abbrev pub File : Type 0
File = Content × ℕ

-- What a path leads to.
pub data Node : Type 0 where
  nothing_there folder : Node
  plain_file : File → Node

unfoldable pub object_at : Node → Option File
object_at (plain_file f) = some f
object_at n = none

abbrev pub Look : Type 0 → Type 0
Look W = Text → W → Node

-- What package os and the system calls that it names document. `look` tells what a path leads to,
-- on a file system without symbolic links; `spare` tells the paths that CreateTemp makes. MkdirAll
-- makes folders and changes nothing else; CreateTemp and the writes to its file change only spare
-- paths; Link fails if there is anything at the new name; a Link, Rename or Remove that fails has
-- either happened or not; Rename puts no file in the place of a folder; Stat and Open work on
-- folders too.
pub record OsLaws {W : Type 0} (os : Os W) (look : Look W) (spare : Text → Bool) : Type 0 where
  pub mkdir_all_grows :
      (d p : Text) (w : W)
      → (look p (os.mkdir_all d w).1 ≡ look p w)
        ⊎ ((look p w ≡ nothing_there) × (look p (os.mkdir_all d w).1 ≡ folder))
  pub create_temp_keeps :
      (d p : Text) (w : W) → spare p ≡ false → look p (os.create_temp d w).1 ≡ look p w
  pub create_temp_spare : (d t : Text) (w : W) → (os.create_temp d w).0 ≡ done t → spare t ≡ true
  pub copy_keeps :
      (t p : Text) (c : Content) (w : W)
      → spare t ≡ true
      → spare p ≡ false
      → look p (os.copy t c w).1 ≡ look p w
  pub copy_fills :
      (t : Text) (c : Content) (w : W)
      → (os.copy t c w).0 ≡ done tt
      → (n : ℕ) × (look t (os.copy t c w).1 ≡ plain_file (c, n))
  pub sync_keeps : (t p : Text) (w : W) → look p (os.sync t w).1 ≡ look p w
  pub close_keeps : (t p : Text) (w : W) → look p (os.close t w).1 ≡ look p w
  pub link_done :
      (t p : Text) (w : W)
      → (os.link t p w).0 ≡ done tt
      → (look p w ≡ nothing_there) × (look p (os.link t p w).1 ≡ look t w)
  pub link_exists :
      (t p : Text) (w : W) → (os.link t p w).0 ≡ failed exists → ¬ (look p w ≡ nothing_there)
  pub link_atomic :
      (t p : Text) (w : W)
      → (look p (os.link t p w).1 ≡ look p w)
        ⊎ ((look p w ≡ nothing_there) × (look p (os.link t p w).1 ≡ look t w))
  pub rename_done :
      (t p : Text) (f : File) (w : W)
      → look t w ≡ plain_file f
      → (os.rename t p w).0 ≡ done tt
      → (¬ (look p w ≡ folder)) × (look p (os.rename t p w).1 ≡ plain_file f)
  pub rename_atomic :
      (t p : Text) (f : File) (w : W)
      → look t w ≡ plain_file f
      → (look p (os.rename t p w).1 ≡ look p w)
        ⊎ ((¬ (look p w ≡ folder)) × (look p (os.rename t p w).1 ≡ plain_file f))
  pub stat_done :
      (p : Text) (n : ℕ) (w : W)
      → os.stat p w ≡ done n
      → (look p w ≡ folder) ⊎ ((c : Content) × (look p w ≡ plain_file (c, n)))
  pub stat_missing : (p : Text) (w : W) → os.stat p w ≡ failed missing → look p w ≡ nothing_there
  pub open_done :
      (p : Text) (c : Content) (w : W)
      → os.open_file p w ≡ done c
      → (look p w ≡ folder) ⊎ ((n : ℕ) × (look p w ≡ plain_file (c, n)))
  pub open_missing :
      (p : Text) (w : W) → os.open_file p w ≡ failed missing → look p w ≡ nothing_there
  pub remove_done :
      (p : Text) (w : W)
      → (os.remove_file p w).0 ≡ done tt
      → look p (os.remove_file p w).1 ≡ nothing_there
  pub remove_missing :
      (p : Text) (w : W) → (os.remove_file p w).0 ≡ failed missing → look p w ≡ nothing_there
  pub remove_atomic :
      (p : Text) (w : W)
      → (look p (os.remove_file p w).1 ≡ look p w) ⊎ (look p (os.remove_file p w).1 ≡ nothing_there)
  pub remove_temp :
      (t p : Text) (w : W)
      → spare t ≡ true
      → spare p ≡ false
      → look p (os.remove_file t w).1 ≡ look p w
  pub remove_keeps :
      (p q : Text) (w : W)
      → clean p ≡ p
      → clean q ≡ q
      → text_eq p q ≡ false
      → look q (os.remove_file p w).1 ≡ look q w
  pub sync_dir_keeps : (d p : Text) (w : W) → look p (os.sync_dir d w) ≡ look p w
