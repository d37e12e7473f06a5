-- ===== src/Dane/Controller.antt =====
-- dane_controller.go: the records that should be published, the soak of a retiring digest, the
-- drift check and the issuance gate. A nil controller, a nil lookup and a nil backend are flags of
-- the record, as are the lines that only log.
use go_certs_manager.Base.{
  Bool, List, Map, Option, Text, [], any, false, if◌then◌else◌, insert, keep_if, map, none, not,
  some, text_eq, ℕ, ◌&&◌, ◌++◌, ◌+◌, ◌||◌, ◌∷◌,
}
use go_certs_manager.Dane.{
  Note, TlsaRecord, contains_spki_digest, expired, has_dane_ee, is_empty, is_spki_record,
  marshal_retiring, new_spki_record, parse_retiring, retiring_object_name, retiring_until,
  staged_next,
}
use go_certs_manager.Effects.{
  Content, LookupResult, Prog, Result, RetiringRecord, Signer, dane_gate, do_call, err, get_object,
  lookup_tlsa, not_exist, ok, on_ok, overwrite, put_object, remove_object, ret, time_now, ◌>>=◌,
}
use go_certs_manager.KeyStore.{KeyStore, load_cert_key, load_next_cert_key}
use go_certs_manager.Lease.{unix}

pub record DaneController : Type 0 where
  pub key_store : KeyStore
  pub has_backend : Bool
  pub has_lookup : Bool
  pub prefix : Text
  pub mx_hosts : List Text
  pub ttl : ℕ
  pub soak : ℕ

-- isMX; `normalise` is normalizeDomain of names.go, whose punycode is a third party's.
unfoldable pub is_mx : (Text → Text) → DaneController → Text → Bool
is_mx normalise d host = any (λ h. text_eq (normalise h) (normalise host)) d.mx_hosts

-- retiring: a missing object has no markers, one that does not parse has none that can be used,
-- and a read that failed is an error.
unfoldable pub markers : Result Content → Result (List RetiringRecord)
unfolding parse_retiring
markers (ok data') = on_ok (parse_retiring data') (λ e. ok []) λ rs. ok rs
markers (err not_exist) = ok []
markers (err e) = err e

unfoldable pub retiring : DaneController → Text → Prog (Result (List RetiringRecord))
unfolding markers
retiring d host =
    if d.has_backend
    then (do got ← do_call (get_object (retiring_object_name d.prefix host)); ret (markers got))
    else ret (ok [])

-- The note of a record.
unfoldable pub noted : Note → TlsaRecord → TlsaRecord
noted n r = record r { note = n }

unfoldable pub staged_records : DaneController → Text → Text → Text → List TlsaRecord
unfolding noted
staged_records d host live next =
    if text_eq next live then [] else noted staged_next (new_spki_record host next d.ttl) ∷ []

-- Every digest whose soak has not elapsed, but for the live and the staged one.
unfoldable pub still_needed : ℕ → Text → Text → RetiringRecord → Bool
still_needed now live next rec =
    not (expired now rec || text_eq rec.digest live || text_eq rec.digest next)

unfoldable pub retiring_record : DaneController → Text → RetiringRecord → TlsaRecord
unfolding noted
retiring_record d host rec =
    noted (retiring_until rec.retire_after) (new_spki_record host rec.digest d.ttl)

-- recordsForHost. The empty text is the digest of a key that is not staged.
unfoldable pub with_retiring :
    DaneController → Text → Text → Text → List TlsaRecord → Prog (Result (List TlsaRecord))
unfolding retiring still_needed retiring_record
with_retiring d host live next records = do
  now ← do_call time_now
  marks ← retiring d host
  ret (
      on_ok marks (λ e. err e)
        λ rs.
          ok (records ++ map (retiring_record d host) (keep_if (still_needed now live next) rs)))

unfoldable pub with_staged :
    DaneController → Text → Text → Result Signer → Prog (Result (List TlsaRecord))
unfolding with_retiring staged_records
with_staged d host live (ok next) =
    with_retiring d host live next.spki
      (new_spki_record host live d.ttl ∷ staged_records d host live next.spki)
with_staged d host live (err not_exist) =
    with_retiring d host live [] (new_spki_record host live d.ttl ∷ [])
with_staged d host live (err e) = ret (err e)

unfoldable pub records_for : DaneController → Text → Result Signer → Prog (Result (List TlsaRecord))
unfolding with_staged load_next_cert_key
records_for d host (ok live) = do
  next ← load_next_cert_key d.key_store host
  with_staged d host live.spki next
records_for d host (err not_exist) = ret (ok [])
records_for d host (err e) = ret (err e)

unfoldable pub records_for_host : DaneController → Text → Prog (Result (List TlsaRecord))
unfolding records_for load_cert_key
records_for_host d host = do live ← load_cert_key d.key_store host; records_for d host live

-- DesiredRecords
unfoldable pub desired_from : DaneController → List Text → Prog (Result (List TlsaRecord))
unfolding records_for_host
desired_from d [] = ret (ok [])
desired_from d (host ∷ hosts') = do
  recs ← records_for_host d host
  on_ok recs (λ e. ret (err e))
      λ rs. do rest ← desired_from d hosts'; ret (on_ok rest (λ e. err e) λ more. ok (rs ++ more))

unfoldable pub desired_records : DaneController → Prog (Result (List TlsaRecord))
unfolding desired_from
desired_records d = desired_from d d.mx_hosts

-- writeRetiring: an empty list removes the object.
unfoldable pub write_retiring :
    DaneController → Text → List RetiringRecord → Prog (Result (Unit {0}))
write_retiring d host [] = do_call (remove_object (retiring_object_name d.prefix host))
write_retiring d host (r ∷ rs) =
    do_call (put_object (retiring_object_name d.prefix host) (marshal_retiring (r ∷ rs)) overwrite)

-- The markers that are not expired; `markRetiring` adds the digest to them if it is not there.
unfoldable pub unexpired : ℕ → List RetiringRecord → List RetiringRecord
unexpired now = keep_if (λ r. not (expired now r))

unfoldable pub mark_in :
    DaneController → Text → Text → ℕ → List RetiringRecord → Prog (Result (Unit {0}))
unfolding unexpired write_retiring
mark_in d host digest now existing =
    let kept = unexpired now existing in
    if any (λ r. text_eq r.digest digest) kept
    then ret (ok tt)
    else write_retiring d host
        (kept ++ record { digest = digest; retire_after = unix (now + d.soak) } ∷ [])

unfoldable pub mark_retiring : DaneController → Text → Prog (Result (Unit {0}))
unfolding load_cert_key retiring mark_in
mark_retiring d host =
    if d.has_backend
    then (do
      live ← load_cert_key d.key_store host
      on_ok live (λ e. ret (err e))
          λ signer. do
            existing ← retiring d host
            on_ok existing (λ e. ret (err e))
                λ rs. do now ← do_call time_now; mark_in d host signer.spki now rs)
    else ret (ok tt)

-- One host of cleanupExpiredRetiring; markers that cannot be read are left for the next tick.
unfoldable pub clean_host : DaneController → ℕ → Text → Prog (Unit {0})
unfolding retiring unexpired write_retiring
clean_host d now host = do
  got ← retiring d host
  on_ok got (λ e. ret tt)
      λ rs.
        if any (expired now) rs
        then (do _ ← write_retiring d host (unexpired now rs); ret tt)
        else ret tt

unfoldable pub clean_hosts : DaneController → ℕ → List Text → Prog (Unit {0})
unfolding clean_host
clean_hosts d now [] = ret tt
clean_hosts d now (host ∷ hosts') = do _ ← clean_host d now host; clean_hosts d now hosts'

unfoldable pub cleanup_expired_retiring : DaneController → Prog (Unit {0})
unfolding clean_hosts
cleanup_expired_retiring d =
    if d.has_backend then (do now ← do_call time_now; clean_hosts d now d.mx_hosts) else ret tt

-- The comparison of verifyPublished: every desired digest is published, and every published
-- `3 1 1` digest is desired.
unfoldable pub matches : List TlsaRecord → LookupResult → Bool
matches desired published =
    not (any (λ rec. not (contains_spki_digest rec.cert published)) desired)
    && not (
        any (λ rr. is_spki_record rr && not (any (λ rec. text_eq rec.cert rr.cert) desired))
          published.rrs)

-- One host of verifyPublished, once DNS has answered: its status, if there is one.
unfoldable pub host_status : List TlsaRecord → Result LookupResult → Option Bool
unfolding matches is_empty
host_status desired (err e) = none
host_status desired (ok published) =
    if is_empty published then some false else some (matches desired published)

unfoldable pub verify_host : DaneController → Text → Prog (Option Bool)
unfolding records_for_host host_status
verify_host d host = do
  desired ← records_for_host d host
  on_ok desired (λ e. ret none)
      λ recs. elim recs [
        | [] ↦ ret none
        | rec ∷ more ↦ do
          published ← do_call (lookup_tlsa host)
          ret (host_status (rec ∷ more) published)
      ]

unfoldable pub add_status : Text → Option Bool → Map Bool → Map Bool
add_status host none status = status
add_status host (some matching) status = insert host matching status

unfoldable pub verify_hosts : DaneController → Map Bool → List Text → Prog (Map Bool)
unfolding verify_host add_status
verify_hosts d status [] = ret status
verify_hosts d status (host ∷ hosts') = do
  found ← verify_host d host
  verify_hosts d (add_status host found status) hosts'

unfoldable pub verify_published : DaneController → Prog (Map Bool)
unfolding verify_hosts
verify_published d = if d.has_lookup then verify_hosts d [] d.mx_hosts else ret []

-- gateIssuance, once the live key has been looked for.
unfoldable pub gate : Text → Result Signer → Prog (Result (Unit {0}))
gate host (ok signer) = do published ← do_call (lookup_tlsa host); ret (ok tt)
gate host (err not_exist) = do
  published ← do_call (lookup_tlsa host)
  ret (on_ok published (λ e. ok tt) λ r. if has_dane_ee r then err dane_gate else ok tt)
gate host (err e) = ret (ok tt)

-- A nil controller is `none`.
unfoldable pub gate_issuance :
    (Text → Text) → Option DaneController → Text → Prog (Result (Unit {0}))
unfolding is_mx load_cert_key gate
gate_issuance normalise none host = ret (ok tt)
gate_issuance normalise (some d) host =
    if d.has_lookup && is_mx normalise d host
    then (do live ← load_cert_key d.key_store host; gate host live)
    else ret (ok tt)
