-- ===== src/Dane.antt =====
-- Package dane (record.go, digest.go, lookup.go, retiring.go): TLSA records, what DNS publishes,
-- and the markers of digests that are being retired.
pub mod Controller
pub mod Gate
pub mod Soak
pub mod Desired
pub mod Drift
pub mod Markers
use go_certs_manager.Base.{
  Bool, List, Text, [], any, codes, false, keep_if, leb, not, text_eq, to_lower, trim_suffix, true,
  ℕ, ◌&&◌, ◌++◌, ◌==◌, ◌∷◌,
}
use go_certs_manager.Effects.{
  Content, LookupResult, PublishedTlsa, Result, RetiringRecord, err, ok, retiring_array,
  retiring_object, unparseable,
}
use go_certs_manager.Lease.{unix}

abbrev pub usage_dane_ee : ℕ
usage_dane_ee = 3

abbrev pub selector_spki : ℕ
selector_spki = 1

abbrev pub matching_sha256 : ℕ
matching_sha256 = 1

pub data Note : Type 0 where
  no_note staged_next : Note
  retiring_until : ℕ → Note

-- TLSARecord
pub record TlsaRecord : Type 0 where
  pub name : Text
  pub mx_host : Text
  pub usage : ℕ
  pub selector : ℕ
  pub matching_type : ℕ
  pub cert : Text
  pub ttl : ℕ
  pub note : Note

-- The text before the host is `_25._tcp.`, from SMTPPort.
unfoldable pub owner_name : Text → Text
owner_name mx_host = codes "_25._tcp." ++ (trim_suffix (to_lower mx_host) (codes ".") ++ codes ".")

unfoldable pub new_spki_record : Text → Text → ℕ → TlsaRecord
unfolding owner_name
new_spki_record mx_host digest ttl = record {
  name = owner_name mx_host;
  mx_host = to_lower (trim_suffix mx_host (codes "."));
  usage = usage_dane_ee;
  selector = selector_spki;
  matching_type = matching_sha256;
  cert = to_lower digest;
  ttl = ttl;
  note = no_note;
}

-- LookupResult.Empty
unfoldable pub is_empty : LookupResult → Bool
is_empty r = elim r.rrs [ [] ↦ true | rr ∷ rrs ↦ false ]

unfoldable pub has_dane_ee : LookupResult → Bool
has_dane_ee r = any (λ rr. rr.usage == usage_dane_ee) r.rrs

-- A `3 1 1` record.
unfoldable pub is_spki_record : PublishedTlsa → Bool
is_spki_record rr =
    rr.usage == usage_dane_ee && rr.selector == selector_spki && rr.matching_type == matching_sha256

unfoldable pub contains_spki_digest : Text → LookupResult → Bool
unfolding is_spki_record
contains_spki_digest digest r =
    any (λ rr. is_spki_record rr && text_eq rr.cert (to_lower digest)) r.rrs

unfoldable pub expired : ℕ → RetiringRecord → Bool
unfolding unix
expired now r = leb r.retire_after (unix now)

-- Entries with no digest are dropped.
unfoldable pub has_digest : RetiringRecord → Bool
has_digest r = not (text_eq r.digest [])

unfoldable pub parse_retiring : Content → Result (List RetiringRecord)
unfolding has_digest
parse_retiring (retiring_array rs) = ok (keep_if has_digest rs)
parse_retiring (retiring_object r) = ok (keep_if has_digest (r ∷ []))
parse_retiring _ = err unparseable

-- One digest stays a bare object, which older readers understand.
unfoldable pub marshal_retiring : List RetiringRecord → Content
marshal_retiring (r ∷ []) = retiring_object r
marshal_retiring rs = retiring_array rs

unfoldable pub retiring_object_name : Text → Text → Text
retiring_object_name prefix host =
    prefix ++ (codes "dane/retiring/" ++ to_lower (trim_suffix host (codes ".")))
