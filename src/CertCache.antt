-- ===== src/CertCache.antt =====
-- cert_cache.go: what a node serves from memory, and the chains in storage behind it. The cache is
-- the record `CertCache`; a method that talks to storage is a `Prog` that returns the new cache
-- beside its result. The local copy (local_copy.go) is off here: its hook in `confirmed` does
-- nothing but write that copy.
pub mod Build
pub mod Reads
pub mod Storing
use go_certs_manager.Layout
use go_certs_manager.Base.{
  Bool, List, Map, Option, Text, [], false, if◌then◌else◌, insert, lookup, ltb, none, remove, some,
  suc, text_eq, to_lower, true, zero, ℕ, ◌*◌, ◌+◌, ◌∷◌,
}
use go_certs_manager.Budget.{second}
use go_certs_manager.Effects.{
  Block, Certificate, Content, Error, Leaf, Prog, Result, Signer, bad_certificate, certificate,
  challenge_pem, do_call, err, get_object, key_mismatch, key_pem, no_certificate, not_exist, ok,
  on_ok, other_block, overwrite, pem_chain, persist_failed, put_object, ret, unparseable, ◌>>=◌,
}
use go_certs_manager.KeyStore.{KeyStore, load_cert_key, read_failure}

-- pendingPersist
pub record PendingPersist : Type 0 where
  pub chain_pem : Content
  pub not_after : ℕ

pub record CertCache : Type 0 where
  pub prefix : Text
  pub mem : Map Certificate
  pub neg : Map ℕ
  pub pending : Map PendingPersist
  pub from_local : Map (Unit {0})

abbrev pub persist_attempts : ℕ
persist_attempts = 3

abbrev pub cert_miss_negative_ttl : ℕ
cert_miss_negative_ttl = 3 * second

unfoldable pub new_cert_cache : Text → CertCache
new_cert_cache prefix = record {
  prefix = prefix;
  mem = [];
  neg = [];
  pending = [];
  from_local = [];
}

unfoldable pub chain_key : CertCache → Text → Text
chain_key c domain = Layout.chain c.prefix domain

unfoldable pub get : Text → CertCache → Option Certificate
get domain c = lookup (to_lower domain) c.mem

unfoldable pub set : Text → Certificate → CertCache → CertCache
set domain cert c = record c {
  mem = insert (to_lower domain) cert c.mem;
  neg = remove (to_lower domain) c.neg;
}

unfoldable pub confirmed : Text → CertCache → CertCache
confirmed domain c = record c { from_local = remove (to_lower domain) c.from_local }

unfoldable pub set_from_local : Text → Certificate → CertCache → CertCache
unfolding set
set_from_local domain cert c =
    let c' = set domain cert c in
    record c' { from_local = insert (to_lower domain) tt c'.from_local }

unfoldable pub hold : Text → Certificate → Content → CertCache → CertCache
unfolding set
hold domain cert chain_pem' c =
    let c' = set domain cert c in
    record c' {
      pending =
          insert (to_lower domain)
            (record { chain_pem = chain_pem'; not_after = cert.leaf.not_after }) c'.pending;
    }

unfoldable pub drop_pending : Text → CertCache → CertCache
drop_pending domain c = record c { pending = remove (to_lower domain) c.pending }

unfoldable pub is_pending : Text → CertCache → Bool
is_pending domain c = elim (lookup (to_lower domain) c.pending) [ none ↦ false | some p ↦ true ]

-- The blocks of type CERTIFICATE.
unfoldable pub certificates : List Block → List Block
certificates [] = []
certificates (certificate l ∷ bs) = certificate l ∷ certificates bs
certificates (bad_certificate ∷ bs) = bad_certificate ∷ certificates bs
certificates (other_block ∷ bs) = certificates bs

-- pem.Decode over the whole object: anything that is not PEM has no block. The certificate of a
-- challenge, which no chain's name leads to, stands for one that does not parse.
unfoldable pub blocks_of : Content → List Block
blocks_of (pem_chain bs) = bs
blocks_of (key_pem s) = other_block ∷ []
blocks_of (challenge_pem c) = bad_certificate ∷ other_block ∷ []
blocks_of _ = []

unfoldable pub parse_leaf : List Block → Result Leaf
parse_leaf [] = err no_certificate
parse_leaf (certificate l ∷ bs) = ok l
parse_leaf (bad_certificate ∷ bs) = err unparseable
parse_leaf (other_block ∷ bs) = err unparseable

unfoldable pub leaf_not_after_pem : Content → Result ℕ
unfolding certificates blocks_of parse_leaf
leaf_not_after_pem data' =
    on_ok (parse_leaf (certificates (blocks_of data'))) (λ e. err e) λ l. ok l.not_after

unfoldable pub verify_key_matches_leaf : Signer → Leaf → Bool
verify_key_matches_leaf key' leaf' = text_eq key'.spki leaf'.spki

unfoldable pub build_certificate : Content → Signer → Result Certificate
unfolding certificates blocks_of parse_leaf verify_key_matches_leaf
build_certificate data' key' =
    let ders = certificates (blocks_of data') in
    on_ok (parse_leaf ders) (λ e. err e)
      λ l.
        if verify_key_matches_leaf key' l
        then ok (record { chain = ders; private_key = key'; leaf = l })
        else err key_mismatch

-- heldChainFor: a held chain that is bound to the key.
unfoldable pub held_chain_for : Text → Signer → CertCache → Option (Content × Certificate)
unfolding build_certificate
held_chain_for domain key' c = elim (lookup (to_lower domain) c.pending) [
  | none ↦ none
  | some p ↦ on_ok (build_certificate p.chain_pem key') (λ e. none) λ cert. some (p.chain_pem, cert)
]

unfoldable pub leaf_not_after : Text → CertCache → Option ℕ
unfolding get
leaf_not_after domain c = elim (get domain c) [ none ↦ none | some cert ↦ some cert.leaf.not_after ]

unfoldable pub recent_miss : ℕ → Text → CertCache → Bool
recent_miss now domain c = elim (lookup (to_lower domain) c.neg) [
  | none ↦ false
  | some t ↦ ltb now (t + cert_miss_negative_ttl)
]

unfoldable pub note_miss : ℕ → Text → CertCache → CertCache
note_miss now domain c = record c { neg = insert (to_lower domain) now c.neg }

unfoldable pub absent_from_storage : Error → Bool
absent_from_storage not_exist = true
absent_from_storage _ = false

unfoldable pub loaded_chain : Result Content → Result Content
unfolding read_failure
loaded_chain (ok data') = ok data'
loaded_chain (err e) = err (read_failure e)

unfoldable pub load_chain : CertCache → Text → Prog (Result Content)
unfolding chain_key loaded_chain
load_chain c domain = do got ← do_call (get_object (chain_key c domain)); ret (loaded_chain got)

-- A chain that was read and does not parse is told apart from one that was not read.
unfoldable pub stored_not_after : CertCache → Text → Prog (Result ℕ)
unfolding load_chain leaf_not_after_pem
stored_not_after c domain = do
  got ← load_chain c domain
  ret (
      on_ok got (λ e. err e)
        λ data'. on_ok (leaf_not_after_pem data') (λ e. err unparseable) λ t. ok t)

unfoldable pub stored_leaf_spki : CertCache → Text → Prog (Result Text)
unfolding load_chain certificates blocks_of parse_leaf
stored_leaf_spki c domain = do
  got ← load_chain c domain
  ret (
      on_ok got (λ e. err e)
        λ data'. on_ok (parse_leaf (certificates (blocks_of data'))) (λ e. err e) λ l. ok l.spki)

-- Refresh: the chain in storage, paired with the live key, replaces what is in memory.
unfoldable pub refresh : KeyStore → Text → CertCache → Prog (Result Certificate × CertCache)
unfolding load_chain load_cert_key build_certificate set confirmed
refresh k domain c = do
  got ← load_chain c domain
  on_ok got (λ e. ret (err e, c))
      λ data'. do
        key' ← load_cert_key k domain
        on_ok key' (λ e. ret (err e, c))
            λ signer.
              on_ok (build_certificate data' signer) (λ e. ret (err e, c))
                λ cert. ret (ok cert, confirmed domain (set domain cert c))

-- persist: `retries` writes after the first. A context that ends during the backoff is not
-- modelled; it gives the same error.
unfoldable pub persist : ℕ → CertCache → Text → Content → Prog (Result (Unit {0}))
unfolding chain_key
persist zero c domain data' = do
  done ← do_call (put_object (chain_key c domain) data' overwrite)
  ret (on_ok done (λ e. err persist_failed) λ u. ok tt)
persist (suc retries) c domain data' = do
  done ← do_call (put_object (chain_key c domain) data' overwrite)
  on_ok done (λ e. persist retries c domain data') λ u. ret (ok tt)

-- What `Store` returns: the certificate, if one was built, and the error, if there is one.
pub data Stored : Type 0 where
  stored : Certificate → Stored
  built_not_stored : Certificate → Stored
  not_built : Error → Stored

-- Store
unfoldable pub store : Text → Content → Signer → CertCache → Prog (Stored × CertCache)
unfolding build_certificate persist set drop_pending confirmed
store domain data' key' c =
    on_ok (build_certificate data' key') (λ e. ret (not_built e, c))
      λ cert. do
        done ← persist 2 c domain data'
        on_ok done (λ e. ret (built_not_stored cert, c))
            λ u. ret (stored cert, confirmed domain (drop_pending domain (set domain cert c)))
