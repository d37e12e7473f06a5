-- ===== src/Node/Restore.antt =====
-- restoreMissingChains of scheduler.go: what a leader serves and storage has lost is written back.
-- encodeChainPEM: the certificates of a chain that is served.
use go_certs_manager.Base.{
  Bool, List, Map, Option, Text, [], false, has_key, if◌then◌else◌, ltb, map, none, some, to_lower,
  trim_prefix, ◌++◌, ◌||◌, ◌∷◌,
}
use go_certs_manager.CertCache.{PendingPersist, build_certificate, get, is_pending}
use go_certs_manager.Effects.{
  Block, Certificate, Content, ObjectInfo, Prog, Result, Signer, do_call, err, is_ok, list_objects,
  ok, on_ok, pem_chain, ret, time_now, ◌>>=◌,
}
use go_certs_manager.KeyStore.{load_cert_key}
use go_certs_manager.Layout.{chain_dir}
use go_certs_manager.Manager.Schedule.{flush_one}
use go_certs_manager.Names.{set_of}
use go_certs_manager.Node.{Node, companion_names, served_names, with_manager}

unfoldable pub encode_chain_pem : List Block → Content
encode_chain_pem blocks = pem_chain blocks

-- The names that storage has a chain for.
unfoldable pub in_storage : Text → List ObjectInfo → Map (Unit {0})
in_storage dir listed = set_of (map (λ i. to_lower (trim_prefix i.key dir)) listed)

-- The copy in memory is for the stored key, or it is not written.
unfoldable pub paired_copy : Certificate → Result Signer → Option PendingPersist
unfolding encode_chain_pem
paired_copy cert (err e) = none
paired_copy cert (ok key') =
    if is_ok (build_certificate (encode_chain_pem cert.chain) key')
    then some (record { chain_pem = encode_chain_pem cert.chain; not_after = cert.leaf.not_after })
    else none

unfoldable pub served_copy : Text → Option Certificate → Node → Prog (Option PendingPersist)
unfolding paired_copy
served_copy domain none n = ret none
served_copy domain (some cert) n = do
  now ← do_call time_now
  if ltb now cert.leaf.not_after
      then (do key' ← load_cert_key n.manager.key_store domain; ret (paired_copy cert key'))
      else ret none

-- The guards of the loop: what to write back for a name, if anything.
unfoldable pub copy_to_restore : Map (Unit {0}) → Text → Node → Prog (Option PendingPersist)
unfolding served_copy
copy_to_restore stored' domain n =
    if has_key domain stored' || is_pending domain n.manager.cert_cache
    then ret none
    else served_copy domain (get domain n.manager.cert_cache) n

unfoldable pub flush_copy : Text → Option PendingPersist → Node → Prog (Bool × Node)
flush_copy domain none n = ret (false, n)
flush_copy domain (some p) n = do
  (wrote, m) ← flush_one domain p n.manager
  ret (wrote, with_manager m n)

unfoldable pub restore_chain : Map (Unit {0}) → Text → Node → Prog (Bool × Node)
unfolding copy_to_restore flush_copy
restore_chain stored' domain n = do p ← copy_to_restore stored' domain n; flush_copy domain p n

unfoldable pub restore_chains : Map (Unit {0}) → List Text → Node → Prog (List Text × Node)
unfolding restore_chain
restore_chains stored' [] n = ret ([], n)
restore_chains stored' (domain ∷ rest) n = do
  (wrote, n1) ← restore_chain stored' domain n
  (restored, n2) ← restore_chains stored' rest n1
  ret (if wrote then domain ∷ restored else restored, n2)

-- restoreMissingChains
unfoldable pub restore_missing_chains : Node → Prog (List Text × Node)
unfolding in_storage restore_chains
restore_missing_chains n =
    let dir = n.manager.cert_cache.prefix ++ chain_dir in
    do
      listed ← do_call (list_objects dir)
      on_ok listed (λ e. ret ([], n))
          λ objects. restore_chains (in_storage dir objects) (served_names n ++ companion_names n) n
