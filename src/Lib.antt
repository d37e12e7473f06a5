-- ===== src/Lib.antt =====
-- go-certs-manager: certificates for a cluster of mail servers, ordered over ACME, kept in a shared
-- object store, and published over DANE. This library models the decisions of the root package and
-- of the packages `adminapi`, `certstore`, `dane`, `internal/layout` and `storage`.
--
-- The parts, and the files that model them:
--   Base, Window      what the source uses of Go: tests, slices, strings, maps, sliding windows
--   Effects           the calls that the source makes of storage (storage/interface.go), the clock,
--                     the leadership predicate, the CA, DNS and the per-name mutex; `Effects.Logic`
--                     is a logic for programs that make such calls, `Effects.World` runs them
--   Layout            internal/layout/layout.go, the names of the stored objects
--   Bucket            tokenBucket of ondemand.go
--   Budget            retry_budget.go, with the CA's rate limits
--   Lease             lease.go, one issuance lease for each hostname
--   KeyStore          keystore.go, the private keys, live and staged
--   CertCache         cert_cache.go, what a node serves, what is stored, what is held back
--   Dane              dane/record.go, dane/lookup.go, dane/retiring.go; `Dane.Controller` is
--                     dane_controller.go
--   Issuer            issuer.go, order_journal.go and the mirrored answers of challenge.go
--   Manager           issueWithKey and the helpers of manager.go; `Manager.Schedule` is obtain,
--                     RenewCertificate and the maintenance of one name in scheduler.go,
--                     `Manager.Ceremony` the replacement of a key there
--   Names             names.go, the one spelling of a name
--   Storage           storage/filesystem.go: `Storage.Paths` its use of path/filepath and
--                     getFullPath, `Storage.Os` package os as a record of operations with the laws
--                     its documentation gives, `Storage.Filesystem` the backend over them
--   Challenge         challenge.go, the staged answers and the HTTP-01 handler
--   OnDemand          ondemand.go: the allow set, with `OnDemand.Index` the index of certificates
--                     and `OnDemand.Preflight` the DNS pre-flight
--   Node              a manager with its on-demand half: `Node.Pass` is maintainOnce of
--                     scheduler.go, `Node.Maintain` maintainOnDemand, `Node.Restore`
--                     restoreMissingChains, `Node.Handshake` and `Node.Hello` the handshake path of
--                     manager.go, `Node.Start` what a node does at its start
--   AdminApi          adminapi/renew.go, the handler of a manual renewal over any Renewer;
--                     `AdminApi.Client` is the command line's side
--   Inventory         certstore/inventory.go, one stored certificate and its deletion
--   Tests             each result at one concrete input; `Tests.Runs` executes the model in a small
--                     concrete world, `Tests.Disk` is a file system with folders, on which
--                     the laws hold (`Tests.DiskLaws`)
--
-- How they interact. A maintenance pass (scheduler.go), a handshake's miss or an operator's command
-- leads to `issue_with_key`, which asks the budget, takes the lease, looks at storage once more
-- through the cache and the key store, has the issuer place or resume an order, and has the cache
-- store the chain. The DANE controller gates the first order and says which records to publish.
--
-- The representation. A function of the source that does I/O is a `Prog`: it returns, or makes one
-- call and goes on with the reply, so that anything may happen between two calls. State is passed
-- along explicitly. Stored bytes are represented by what they decode to, a key by its kind and the
-- digest of its public key, a certificate by its leaf's key and end. Times are nanoseconds in ℕ.
-- Each definition is a record, a data type or a function with the source's name in snake_case; a
-- nil pointer is `none` or a flag.
--
-- Bounds. `persist` recurses on the number of retries left, one less than the attempts of the
-- source. awaitCertificate has fuel, two polls more than the wait has seconds: a poll sleeps a
-- second, or what is left of the wait. There is no other loop that is not over a list.
--
-- Not modelled: logs and error texts; contexts, deadlines and backoff sleeps; the interleaving of
-- goroutines inside one process, but for the mutexes' calls and for what a waiting handshake finds
-- changed, which is arbitrary; the orders that a maintenance pass runs side by side are run one
-- after another. Case mapping, white space and IDNA beyond ASCII, the last a parameter; the bits of
-- PEM, X.509, JSON and TLS; the ACME client. A method that reads the clock twice under its lock
-- reads it once here. An error's text is printed only by adminapi, where it is a parameter.
-- certstore/command.go and the listing of an inventory, storage/s3_backend.go and the local copy
-- on disk have no model.
pub mod Base
pub mod Window
pub mod Layout
pub mod Bucket
pub mod Budget
pub mod Effects
pub mod Lease
pub mod KeyStore
pub mod CertCache
pub mod Dane
pub mod Issuer
pub mod Storage
pub mod Names
pub mod Challenge
pub mod OnDemand
pub mod Manager
pub mod Node
pub mod AdminApi
pub mod Inventory
pub mod Tests
