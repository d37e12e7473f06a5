-- ===== src/Inventory/Deleting.antt =====
-- certstore/inventory.go: what Delete reads before it removes a chain.
use go_certs_manager.Layout
use go_certs_manager.Base.{
  Bool, Bool-cases, List, Map, Option, Text, [], arith, false, has_key, inl, inr, ltb, none, not,
  refl, some, true, ℕ, ◌&&◌, ◌++◌, ◌||◌, ◌∷◌, ◌≡◌, ◌⊎◌,
}
use go_certs_manager.CertCache.{blocks_of, set}
use go_certs_manager.Effects.{
  Block, Call, Content, Error, Leaf, ObjectInfo, Reply, Result, bad_certificate, certificate,
  do_call, err, get_object, list_objects, not_exist, ok, on_ok, other_block, remove_object, ret,
  stat_object, time_now, ◌>>=◌,
}
use go_certs_manager.Effects.Logic.{Safe, Safe-bind, Safe-if}
use go_certs_manager.Inventory.{
  Inventory, InventoryError, StoredCertificate, bare, decode_allow_set, delete, describe,
  get_certificate, in_use, in_use_error, is_orphan, key_names, names_under, normalize, not_stored,
  on_demand_names, parse, remove_found, role_of, stat_error, storage_error, unreadable, unservable,
}
use go_certs_manager.Layout.{cert_domain, key_dir, next_key_suffix, on_demand_hosts}

-- What has been read, with the time it was looked at: first the allow set, then the chain.
pub record Reads : Type 0 where
  pub allow : Option (Result Content)
  pub chain : Option (Result Content)
  pub now : Option ℕ
  pub removed : Option (Result (Unit {0}))

abbrev pub unread : Reads
unread = record { allow = none; chain = none; now = none; removed = none }

abbrev note_body : Option (Result Content) → Reads → Result Content → Reads
note_body none g r = record g { allow = some r }
note_body (some a) g r = record g { chain = some r }

abbrev pub note_read : Reads → (c : Call) → Reply c → Reads
note_read g (get_object k) r = note_body g.allow g r
note_read g time_now t = record g { now = some t }
note_read g (remove_object k) r = record g { removed = some r }
note_read g c r = g

-- The leaf of a chain, if a certificate that parses comes first.
unfoldable first_leaf : List Block → Option Leaf
first_leaf [] = none
first_leaf (other_block ∷ bs) = first_leaf bs
first_leaf (bad_certificate ∷ bs) = none
first_leaf (certificate leaf ∷ bs) = some leaf

unfoldable is_current : Option Leaf → Option ℕ → Bool
is_current (some leaf) (some t) = not (ltb leaf.not_after t)
is_current (some leaf) none = true
is_current none t = false

-- The chain has a leaf that has not ended. What has not been looked at counts as if it had; a read
-- that failed counts as no chain, as it does for the source.
unfoldable is_servable : Option (Result Content) → Option ℕ → Bool
unfolding first_leaf is_current
is_servable (some (ok body)) now = is_current (first_leaf (blocks_of body)) now
is_servable (some (err e)) now = false
is_servable none now = true

-- The name is on demand, or the allow set is not known.
unfoldable is_allowed : Text → Option (Result Content) → Bool
is_allowed d none = true
is_allowed d (some r) = elim (decode_allow_set r) [ err e ↦ true | ok set ↦ has_key d set ]

is_allowed-decoded :
    (d : Text) (r : Result Content) (known : Map (Unit {0}))
    → decode_allow_set r ≡ ok known
    → is_allowed d (some r) ≡ has_key d known
unfolding is_allowed
is_allowed-decoded d r known e = rw (e, is_allowed)

module _ (inv : Inventory) (name : Text) where
  -- Nodes serve the certificate: its chain can be served, and it is for a configured name, the
  -- companion of one, or an on-demand name.
  unfoldable pub serves : Reads → Bool
  unfolding is_servable is_allowed
  serves g =
      is_servable g.chain g.now
      && (has_key (cert_domain (normalize name)) inv.configured
          || is_allowed (normalize name) g.allow)

  abbrev pub chain_of : Text
  chain_of = Layout.chain inv.prefix (normalize name)

  module _ (force : Bool) where
    abbrev pub MayDelete : Reads → Call → Type 0
    MayDelete g (stat_object k) = k ≡ chain_of
    MayDelete g (list_objects k) = k ≡ inv.prefix ++ key_dir
    MayDelete g (get_object k) =
        ((g.allow ≡ none) × (k ≡ inv.prefix ++ on_demand_hosts))
        ⊎ ((¬ (g.allow ≡ none)) × (k ≡ chain_of))
    MayDelete g time_now = Unit {0}
    MayDelete g (remove_object k) = (k ≡ chain_of) × ((force ≡ true) ⊎ (serves g ≡ false))
    MayDelete g c = ⊥

    abbrev pub IsDeleted : Reads → StoredCertificate ⊎ InventoryError → Type 0
    IsDeleted g (inl c) = g.removed ≡ some (ok tt)
    IsDeleted g (inr in_use_error) = (serves g ≡ true) × (force ≡ false)
    IsDeleted g (inr e) = Unit {0}

    -- What Get has found agrees with what has been read.
    abbrev IsFound : Reads → StoredCertificate → Type 0
    IsFound g c = (c.key ≡ chain_of) × (in_use c ≡ serves g)

    is_orphan-role_of :
        (names : Map (Unit {0}))
        → not (is_orphan (role_of inv names (normalize name)))
          ≡ has_key (cert_domain (normalize name)) inv.configured || has_key (normalize name) names
    unfolding role_of is_orphan
    is_orphan-role_of names = ground arith

    parse-IsFound :
        (g : Reads) (body : Content) (bs : List Block) (c : StoredCertificate)
        → g.chain ≡ some (ok body)
        → first_leaf (blocks_of body) ≡ first_leaf bs
        → c.key ≡ chain_of
        → c.invalid ≡ none
        → not (is_orphan c.role)
          ≡ has_key (cert_domain (normalize name)) inv.configured
            || is_allowed (normalize name) g.allow
        → Safe MayDelete note_read IsFound g (parse bs c)
    unfolding parse first_leaf in_use unservable serves is_current is_servable
    parse-IsFound g body [] c read same at valid role = (at, rw (read, same))
    parse-IsFound g body (other_block ∷ bs) c read same at valid role =
        parse-IsFound g body bs c read same at valid role
    parse-IsFound g body (bad_certificate ∷ bs) c read same at valid role = (at, rw (read, same))
    parse-IsFound g body (certificate leaf ∷ bs) c read same at valid role =
        (tt, λ t. (at, rw (read, same, valid, role)))

    describe-IsFound :
        (r : Result Content) (names held : Map (Unit {0})) (modified : ℕ)
        → decode_allow_set r ≡ ok names
        → Safe MayDelete note_read IsFound
            (record unread { allow = some r })
            (describe inv (bare (normalize name) chain_of modified) held names)
    unfolding describe serves in_use unservable is_servable is_allowed
    describe-IsFound r names held modified decoded =
        (inr (λ e. absurd (ground (arith, e)), refl), λ body. got body)
      where
        c : StoredCertificate
        c = record (bare (normalize name) chain_of modified) {
          role = role_of inv names (normalize name);
          has_live_key = has_key (normalize name) held;
          has_staged_key = has_key (normalize name ++ next_key_suffix) held;
        }

        got :
            (body : Result Content)
            → Safe MayDelete note_read IsFound
                (record unread { allow = some r; chain = some body })
                (elim body [
                  | err e ↦ ret (record c { invalid = some (unreadable e) })
                  | ok data' ↦ parse (blocks_of data') c
                ])
        got (err e) = (refl, refl)
        got (ok data') =
            parse-IsFound (record unread { allow = some r; chain = some (ok data') }) data'
              (blocks_of data') c refl refl refl refl
              (rw (is_orphan-role_of names, is_allowed-decoded (normalize name) r names decoded))

    abbrev Found : Reads → StoredCertificate ⊎ InventoryError → Type 0
    Found g (inl c) = IsFound g c
    Found g (inr in_use_error) = ⊥
    Found g (inr e) = Unit {0}

    stat_error-Found : (g : Reads) (e : Error) → Found g (inr (stat_error e))
    unfolding stat_error
    stat_error-Found g not_exist = tt
    stat_error-Found g e = tt

    get_certificate-Found : Safe MayDelete note_read Found unread (get_certificate inv name)
    unfolding get_certificate key_names on_demand_names
    get_certificate-Found = (refl, λ info. statted info)
      where
        decoded :
            (r : Result Content) (names : Result (Map (Unit {0}))) (held : Map (Unit {0})) (i : ℕ)
            → decode_allow_set r ≡ names
            → Safe MayDelete note_read Found
                (record unread { allow = some r })
                (on_ok names
                  (λ e. ret (inr (storage_error e)))
                  λ od. do c ← describe inv (bare (normalize name) chain_of i) held od; ret (inl c))
        decoded r (err e) held i d = tt
        decoded r (ok names) held i d =
            Safe-bind MayDelete note_read IsFound Found (λ c. ret (inl c))
              (record unread { allow = some r })
              (describe inv (bare (normalize name) chain_of i) held names)
              (describe-IsFound r names held i d) (λ h c found. found)

        listed :
            (i : ObjectInfo) (held : Result (List ObjectInfo))
            → Safe MayDelete note_read Found unread (do
              held ← ret (elim held [
                | err e ↦ err e
                | ok os ↦ ok (names_under (inv.prefix ++ key_dir) os)
              ])
              on_ok held
                  (λ e. ret (inr (storage_error e)))
                  λ ks. do
                    on_demand ← on_demand_names inv
                    on_ok on_demand
                        (λ e. ret (inr (storage_error e)))
                        λ od. do
                          c ← describe inv (bare (normalize name) chain_of i.last_modified) ks od
                          ret (inl c))
        listed i (err e) = tt
        listed i (ok os) =
            (inl (refl, refl), λ r. decoded r (decode_allow_set r) _ i.last_modified refl)

        statted :
            (info : Result ObjectInfo)
            → Safe MayDelete note_read Found unread (
                on_ok info
                  (λ e. ret (inr (stat_error e)))
                  λ i. do
                    held ← key_names inv
                    on_ok held
                        (λ e. ret (inr (storage_error e)))
                        λ ks. do
                          on_demand ← on_demand_names inv
                          on_ok on_demand
                              (λ e. ret (inr (storage_error e)))
                              λ od. do
                                c ←
                                    describe inv
                                      (bare (normalize name) chain_of i.last_modified)
                                      ks
                                      od
                                ret (inl c))
        statted (err e) = stat_error-Found unread e
        statted (ok i) = (refl, λ held. listed i held)

    remove_found-IsDeleted :
        (g : Reads) (c : StoredCertificate)
        → IsFound g c
        → Safe MayDelete note_read IsDeleted g (remove_found force c)
    unfolding remove_found
    remove_found-IsDeleted g c found =
        Safe-if MayDelete note_read IsDeleted g (ret (inr in_use_error))
          (do
            removed ← do_call (remove_object c.key)
            on_ok removed (λ e. ret (inr (storage_error e))) λ u. ret (inl c))
          (in_use c && not force) (λ kept. (ground (arith, kept, found.1), ground (arith, kept)))
          (λ free. ((found.0, allowed free), λ r. removed r))
      where
        allowed : in_use c && not force ≡ false → (force ≡ true) ⊎ (serves g ≡ false)
        allowed free = elim (Bool-cases force) [
          | inl forced ↦ inl forced
          | inr plain ↦ inr (ground (arith, free, plain, found.1))
        ]

        removed :
            (r : Result (Unit {0}))
            → Safe MayDelete note_read IsDeleted
                (record g { removed = some r })
                (on_ok r (λ e. ret (inr (storage_error e))) λ u. ret (inl c))
        removed (err e) = tt
        removed (ok u) = refl

    -- Delete reads, and removes at most the chain of the name. Unforced it does so only after it
    -- has read, since it started, one of these: the read of the chain failed, with whatever error;
    -- the chain has no leaf that parses; its leaf has ended; or the name is neither configured, the
    -- companion of a configured name, nor in the allow set, which must have been read. It refuses
    -- as in use only a certificate of which none of these was read, and only unforced; where it
    -- succeeds, the chain has been removed.
    pub delete-IsDeleted : Safe MayDelete note_read IsDeleted unread (delete inv name force)
    unfolding delete
    delete-IsDeleted =
        Safe-bind MayDelete note_read Found IsDeleted
          (λ found. elim found [ inr e ↦ ret (inr e) | inl c ↦ remove_found force c ]) unread
          (get_certificate inv name) get_certificate-Found after
      where
        after :
            (h : Reads) (x : StoredCertificate ⊎ InventoryError)
            → Found h x
            → Safe MayDelete note_read IsDeleted h
                (elim x [ inr e ↦ ret (inr e) | inl c ↦ remove_found force c ])
        after h (inl c) found = remove_found-IsDeleted h c found
        after h (inr not_stored) found = tt
        after h (inr in_use_error) found = absurd found
        after h (inr (storage_error e)) found = tt
