-- ===== src/Manager/Seen.antt =====
-- What one attempt of manager.go for a name has been told by the world, and what of it lets it
-- place an order with the CA.
use go_certs_manager.Layout
use go_certs_manager.Base.{
  Bool, Option, Text, codes, false, if◌then◌else◌, none, not, some, text_eq, to_lower, true, ℕ,
  ◌&&◌, ◌++◌, ◌+◌, ◌||◌, ◌≡◌, ◌≤◌, ◌⊎◌,
}
use go_certs_manager.Budget.{allow, allowed}
use go_certs_manager.CertCache.{build_certificate}
use go_certs_manager.Effects.{
  Call, Certificate, Content, Reply, Result, Signer, authorize_order, err, finalize_order,
  get_object, is_ok, not_exist, ok, put_object, remove_object, time_now,
}
use go_certs_manager.KeyStore.{parse_key_pem}
use go_certs_manager.Layout.{cert_domain}
use go_certs_manager.Lease.{IssueLeaser}
use go_certs_manager.Manager.{Manager}

-- What one attempt for a name has learnt so far: the first clock reading, whether the lease object
-- has been written, the last answers about the stored chain and, since then, about the live key,
-- and the first clock reading since then.
pub record Seen : Type 0 where
  pub started : Option ℕ
  pub leased : Bool
  pub chain : Option (Result Content)
  pub key : Option (Result Content)
  pub looked : Option ℕ

abbrev pub nothing_seen : Seen
nothing_seen = record { started = none; leased = false; chain = none; key = none; looked = none }

abbrev pub first : Option ℕ → ℕ → Option ℕ
first none n = some n
first (some k) n = some k

-- Whether the manager has a leaser with a storage.
abbrev pub needs_lease : Option IssueLeaser → Bool
needs_lease none = false
needs_lease (some l) = l.has_backend

module _ (prefix domain : Text) where
  abbrev pub learn_get : Seen → Text → Result Content → Seen
  learn_get g k r =
      if text_eq k (Layout.chain prefix domain)
      then record g { chain = some r; key = none; looked = none }
      else (if text_eq k (Layout.key prefix domain) then record g { key = some r } else g)

  abbrev pub lease_object : Text
  lease_object = prefix ++ (codes "locks/issue/" ++ to_lower (cert_domain domain))

  abbrev pub learn : Seen → (c : Call) → Reply c → Seen
  learn g (get_object k) r = learn_get g k r
  learn g time_now n = record g { started = first g.started n; looked = first g.looked n }
  learn g (put_object k c o) r = record g {
    leased = g.leased || (text_eq k lease_object && is_ok r);
  }
  learn g (remove_object k) r = record g { leased = g.leased && not (text_eq k lease_object) }
  learn g c r = g

-- The two answers say that there is no certificate to keep: no chain, no key for it, or a
-- certificate that ends inside the renewal window. An answer that failed, a chain that does not
-- parse and a chain for another key say no such thing.
abbrev pub IsDue : ℕ → Option (Result Content) → Option (Result Content) → Option ℕ → Type 0
IsDue window (some (err not_exist)) key' looked = Unit {0}
IsDue window (some (ok data')) (some (err not_exist)) looked = Unit {0}
IsDue window (some (ok data')) (some (ok stored_key)) (some now) =
    (cert : Certificate) × (s : Signer) × (parse_key_pem stored_key ≡ ok s)
    × (build_certificate data' s ≡ ok cert)
    × (cert.leaf.not_after ≤ now + window)
IsDue window _ _ _ = ⊥

module _ (prefix domain : Text) (force : Bool) (m : Manager) where
  abbrev pub IsAdmitted : Seen → Type 0
  IsAdmitted g = (t : ℕ) × (g.started ≡ some t) × ((allow t domain m.retries).0 ≡ allowed)

  -- A manager whose leaser has no storage needs no lease.
  abbrev pub IsExclusive : Seen → Type 0
  IsExclusive g = (needs_lease m.leaser ≡ false) ⊎ (g.leased ≡ true)

  abbrev pub IsWarranted : Seen → Type 0
  IsWarranted g = (force ≡ true) ⊎ IsDue m.renew_before g.chain g.key g.looked

  abbrev pub IsReady : Seen → Type 0
  IsReady g = IsAdmitted g × IsExclusive g × IsWarranted g

  abbrev pub MayOrder : Seen → Call → Type 0
  MayOrder g (authorize_order d) = (d ≡ cert_domain (to_lower domain)) × IsReady g
  MayOrder g (finalize_order u d s) = (d ≡ cert_domain (to_lower domain)) × IsReady g
  MayOrder g c = Unit {0}
