-- ===== src/Storage/Reading.antt =====
-- What GetObject, StatObject and RemoveObject of storage/filesystem.go promise.
use go_certs_manager.Base.{Text, ℕ, ◌≡◌, ◌⊎◌}
use go_certs_manager.Effects.{Content, ObjectInfo, Result, err, not_exist, ok}
use go_certs_manager.Storage.Os.{Node, Os, folder, nothing_there, plain_file}

-- What was read is the object, unless a folder stands at its path.
abbrev pub IsRead : Node → Result Content → Type 0
IsRead there (ok c) = (there ≡ folder) ⊎ ((n : ℕ) × (there ≡ plain_file (c, n)))
IsRead there (err not_exist) = there ≡ nothing_there
IsRead there (err e) = Unit {0}

abbrev pub IsStat : (Text → ℕ → Text) → Text → Node → Result ObjectInfo → Type 0
IsStat etag_of key there (ok i) =
    (i.key ≡ key)
    × (i.etag ≡ etag_of key i.last_modified)
    × ((there ≡ folder) ⊎ ((c : Content) × (there ≡ plain_file (c, i.last_modified))))
IsStat etag_of key there (err not_exist) = there ≡ nothing_there
IsStat etag_of key there (err e) = Unit {0}

-- After a failed removal the object is as it was or gone.
abbrev pub IsRemoved : Node → Result (Unit {0}) → Node → Type 0
IsRemoved before (ok x) after = after ≡ nothing_there
IsRemoved before (err not_exist) after = ⊥
IsRemoved before (err e) after = (after ≡ before) ⊎ (after ≡ nothing_there)
