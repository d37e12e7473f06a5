-- ===== src/Inventory.antt =====
-- certstore/inventory.go: the operator's view of one stored certificate, and its deletion. Of what
-- is only printed (size, names, issuer, algorithm, start) nothing is kept; `configured` and the
-- allow set are maps with no values. Error texts are represented by their reasons.
pub mod Deleting
use go_certs_manager.Layout
use go_certs_manager.Base.{
  Bool, List, Map, Option, Text, [], codes, false, has_key, if◌then◌else◌, inl, inr, insert, keys,
  leb, ltb, none, not, some, to_lower, trim_prefix, trim_space, trim_suffix, true, ℕ, ◌&&◌, ◌++◌,
  ◌∷◌, ◌⊎◌,
}
use go_certs_manager.CertCache.{blocks_of}
use go_certs_manager.Effects.{
  Block, Content, Error, ObjectInfo, Prog, Result, bad_certificate, certificate, do_call, err,
  get_object, hosts_json, list_objects, not_exist, ok, on_ok, other_block, remove_object, ret,
  stat_object, time_now, unparseable, ◌>>=◌,
}
use go_certs_manager.Layout.{cert_domain, key_dir, next_key_suffix, on_demand_hosts}
use go_certs_manager.Names.{is_named}
use go_certs_manager.Storage.Filesystem.{removed}

pub data Role : Type 0 where
  configured_role on_demand_role orphan_role : Role

-- Certificate.Invalid
pub data Invalid : Type 0 where
  unreadable : Error → Invalid
  nothing_in_pem does_not_parse : Invalid

pub record StoredCertificate : Type 0 where
  pub domain : Text
  pub key : Text
  pub role : Role
  pub not_after : ℕ
  pub expired : Bool
  pub invalid : Option Invalid
  pub has_live_key : Bool
  pub has_staged_key : Bool
  pub last_modified : ℕ

pub record Inventory : Type 0 where
  pub prefix : Text
  pub configured : Map (Unit {0})
  pub renew_before : ℕ

-- ErrNotStored, ErrInUse, or the error of a storage call.
pub data InventoryError : Type 0 where
  not_stored in_use_error : InventoryError
  storage_error : Error → InventoryError

-- Unservable
unfoldable pub unservable : StoredCertificate → Bool
unservable c = elim c.invalid [ some why ↦ true | none ↦ c.expired ]

unfoldable pub is_orphan : Role → Bool
is_orphan orphan_role = true
is_orphan r = false

-- InUse
unfoldable pub in_use : StoredCertificate → Bool
unfolding unservable is_orphan
in_use c = not (unservable c) && not (is_orphan c.role)

-- normalize
unfoldable pub normalize : Text → Text
normalize domain = trim_suffix (to_lower (trim_space domain)) (codes ".")

-- The loop of New over the configured domains.
unfoldable pub configure : List Text → Map (Unit {0})
unfolding normalize
configure [] = []
configure (d ∷ domains) =
    let rest = configure domains in
    if is_named (normalize d) then insert (normalize d) tt rest else rest

-- certmanager.DefaultRenewBefore is the parameter `default_window`.
unfoldable pub new_inventory : ℕ → Text → List Text → ℕ → Inventory
unfolding configure
new_inventory default_window prefix domains window = record {
  prefix = prefix;
  configured = configure domains;
  renew_before = if leb window 0 then default_window else window;
}

-- keyNames, once the listing has been made.
unfoldable pub names_under : Text → List ObjectInfo → Map (Unit {0})
names_under dir [] = []
names_under dir (o ∷ objects) = insert (trim_prefix o.key dir) tt (names_under dir objects)

unfoldable pub key_names : Inventory → Prog (Result (Map (Unit {0})))
unfolding names_under
key_names inv = do
  objects ← do_call (list_objects (inv.prefix ++ key_dir))
  ret (elim objects [ err e ↦ err e | ok os ↦ ok (names_under (inv.prefix ++ key_dir) os) ])

-- The loop of onDemand over state.Hosts.
unfoldable pub allow_set : List Text → Map (Unit {0})
unfolding normalize
allow_set [] = []
allow_set (h ∷ hosts) = insert (normalize h) tt (allow_set hosts)

unfoldable pub decode_allow_set : Result Content → Result (Map (Unit {0}))
unfolding allow_set
decode_allow_set (err not_exist) = ok []
decode_allow_set (err e) = err e
decode_allow_set (ok (hosts_json at hosts)) = ok (allow_set hosts)
decode_allow_set (ok c) = err unparseable

unfoldable pub on_demand_names : Inventory → Prog (Result (Map (Unit {0})))
unfolding decode_allow_set
on_demand_names inv = do
  body ← do_call (get_object (inv.prefix ++ on_demand_hosts))
  ret (decode_allow_set body)

-- parse
unfoldable pub parse : List Block → StoredCertificate → Prog StoredCertificate
parse [] c = ret (record c { invalid = some nothing_in_pem })
parse (other_block ∷ bs) c = parse bs c
parse (bad_certificate ∷ bs) c = ret (record c { invalid = some does_not_parse })
parse (certificate leaf ∷ bs) c = do
  now ← do_call time_now
  ret (record c { not_after = leaf.not_after; expired = ltb leaf.not_after now })

unfoldable pub role_of : Inventory → Map (Unit {0}) → Text → Role
role_of inv on_demand domain =
    if has_key (cert_domain domain) inv.configured
    then configured_role
    else if has_key domain on_demand
    then on_demand_role
    else orphan_role

-- describe, for a certificate of which the name, the key and the time of its write are known.
unfoldable pub describe :
    Inventory → StoredCertificate → Map (Unit {0}) → Map (Unit {0}) → Prog StoredCertificate
unfolding role_of parse
describe inv c keys on_demand =
    let named = record c {
      role = role_of inv on_demand c.domain;
      has_live_key = has_key c.domain keys;
      has_staged_key = has_key (c.domain ++ next_key_suffix) keys;
    } in
    do
      body ← do_call (get_object c.key)
      elim body [
        | err e ↦ ret (record named { invalid = some (unreadable e) })
        | ok data' ↦ parse (blocks_of data') named
      ]

abbrev pub bare : Text → Text → ℕ → StoredCertificate
bare domain key modified = record {
  domain = domain;
  key = key;
  role = orphan_role;
  not_after = 0;
  expired = false;
  invalid = none;
  has_live_key = false;
  has_staged_key = false;
  last_modified = modified;
}

-- What Get makes of the error of StatObject.
unfoldable pub stat_error : Error → InventoryError
stat_error not_exist = not_stored
stat_error e = storage_error e

-- Get
unfoldable pub get_certificate : Inventory → Text → Prog (StoredCertificate ⊎ InventoryError)
unfolding normalize stat_error key_names on_demand_names describe
get_certificate inv name = do
  info ← do_call (stat_object (Layout.chain inv.prefix (normalize name)))
  on_ok info (λ e. ret (inr (stat_error e)))
      λ i. do
        keys ← key_names inv
        on_ok keys (λ e. ret (inr (storage_error e)))
            λ ks. do
              on_demand ← on_demand_names inv
              on_ok on_demand (λ e. ret (inr (storage_error e)))
                  λ od. do
                    c ←
                        describe inv
                          (bare (normalize name) (Layout.chain inv.prefix (normalize name))
                            i.last_modified)
                          ks od
                    ret (inl c)

unfoldable pub remove_found : Bool → StoredCertificate → Prog (StoredCertificate ⊎ InventoryError)
unfolding in_use
remove_found force c = if in_use c && not force then ret (inr in_use_error) else (do
  removed ← do_call (remove_object c.key)
  on_ok removed (λ e. ret (inr (storage_error e))) λ u. ret (inl c))

-- Delete; the certificate that the source returns beside an error is left out.
unfoldable pub delete : Inventory → Text → Bool → Prog (StoredCertificate ⊎ InventoryError)
unfolding get_certificate remove_found
delete inv name force = do
  found ← get_certificate inv name
  elim found [ inr e ↦ ret (inr e) | inl c ↦ remove_found force c ]
