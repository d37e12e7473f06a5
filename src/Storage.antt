-- ===== src/Storage.antt =====
-- storage/filesystem.go: the backend on a local directory. `Storage.Paths` is what it uses of
-- path/filepath; `Storage.Os` what it uses of package os, as a record of operations; the other
-- children say where a key leads and that the operations keep the contract of
-- storage/interface.go.
pub mod Paths
pub mod Os
pub mod Filesystem
pub mod Elements
pub mod Contained
pub mod Contract
pub mod Putting
pub mod Reading
pub mod Swap
