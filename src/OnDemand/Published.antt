-- ===== src/OnDemand/Published.antt =====
-- What the published index of ondemand.go says of the leader's own, over any history of the
-- operations that touch it.
use go_certs_manager.Base.{
  Bool, List, Map, Option, Text, [], ap, arith, false, has_key, keep_keys, lookup, none, refl, some,
  true, ℕ, ◌++◌, ◌∷◌, ◌≡◌,
}
use go_certs_manager.Effects.{
  Call, Content, Prog, Reply, Result, err, get_object, index_json, ok, on_ok, overwrite, put_object,
  ret, ◌>>=◌,
}
use go_certs_manager.Effects.Logic.{Safe, Safe-bind, Safe-if}
use go_certs_manager.Layout.{on_demand_cert_index}
use go_certs_manager.Lease.{unix}
use go_certs_manager.Names.{domain_set_of}
use go_certs_manager.OnDemand.{OnDemand, cert_index_key, entries, option_map, store}
use go_certs_manager.OnDemand.Index.{
  hydrate_index, hydrated, note_issued, publish_index, read_index, republish_index_if_dirty,
  with_entry,
}
use go_certs_manager.OnDemand.Members.{lookup-kept}

-- What a leader does to its index: it records an issuance, retries a failed publication, takes the
-- published one over at its start, or is given a new set of names.
pub data IndexEvent : Type 0 where
  issuance : Text → ℕ → IndexEvent
  retry start : IndexEvent
  new_names : List Text → IndexEvent

-- What is known of the published index: what was written or read last.
abbrev pub note_index : Option (Map ℕ) → (c : Call) → Reply c → Option (Map ℕ)
note_index g (put_object k c p) (ok x) = read_index (ok c)
note_index g (put_object k c p) (err e) = g
note_index g (get_object k) r = elim (read_index r) [ none ↦ g | some m ↦ some m ]
note_index g c r = g

abbrev pub MayIndex : Text → Option (Map ℕ) → Call → Type 0
MayIndex prefix g (put_object k c p) =
    (k ≡ prefix ++ on_demand_cert_index) × ((m : Map ℕ) × (c ≡ index_json m))
MayIndex prefix g (get_object k) = k ≡ prefix ++ on_demand_cert_index
MayIndex prefix g c = ⊥

-- Every entry of the one is in the other.
abbrev pub Covers : Option (Map ℕ) → Map ℕ → Type 0
Covers g m = (h : Text) (v : ℕ) → lookup h m ≡ some v → lookup h (entries g) ≡ some v

abbrev pub IsKept : Text → Option (Map ℕ) → OnDemand → Type 0
IsKept prefix g o = (o.prefix ≡ prefix) × (o.index_dirty ≡ false → Covers g (entries o.index))

abbrev pub Keeps : Text → Option (Map ℕ) → Prog OnDemand → Type 0
Keeps prefix g m = Safe (MayIndex prefix) note_index (IsKept prefix) g m

module _ (to_ascii : Text → Option Text) where
  unfoldable pub index_event : IndexEvent → OnDemand → Prog OnDemand
  index_event (issuance host end) o = do (result, o') ← note_issued host end o; ret o'
  index_event retry o = do (result, o') ← republish_index_if_dirty o; ret o'
  index_event start o = hydrate_index o
  index_event (new_names names) o = ret (store to_ascii names o)

  unfoldable pub index_history : List IndexEvent → OnDemand → Prog OnDemand
  unfolding index_event
  index_history [] o = ret o
  index_history (e ∷ es) o = index_event e o >>= index_history es

abbrev Answers : Text → Option (Map ℕ) → Prog (Result (Unit {0}) × OnDemand) → Type 0
Answers prefix g m = Safe (MayIndex prefix) note_index (λ g' x. IsKept prefix g' x.1) g m

Keeps-Answers :
    (prefix : Text) (g : Option (Map ℕ)) (m : Prog (Result (Unit {0}) × OnDemand))
    → Answers prefix g m
    → Keeps prefix g (m >>= λ x. ret x.1)
Keeps-Answers prefix g m s =
    Safe-bind (MayIndex prefix) note_index (λ g' x. IsKept prefix g' x.1) (IsKept prefix)
      (λ x. ret x.1) g m s (λ h x i. i)

publish_index-Answers :
    (prefix : Text) (g : Option (Map ℕ)) (o : OnDemand)
    → o.prefix ≡ prefix
    → Answers prefix g (publish_index o)
unfolding publish_index entries read_index
publish_index-Answers prefix g o p =
    ((ap (λ q. q ++ on_demand_cert_index) p, (entries o.index, refl)), λ r. written r)
  where
    written :
        (r : Result (Unit {0}))
        → Answers prefix
            (note_index g
              (put_object (cert_index_key o) (index_json (entries o.index)) overwrite)
              r)
            (on_ok r
              (λ e. ret (err e, record o { index_dirty = true }))
              λ x. ret (ok tt, record o { index_dirty = false }))
    written (ok x) = (p, λ clean h v e. e)
    written (err e) = (p, λ clean. absurd (ground arith))

hydrate_index-Keeps :
    (prefix : Text) (g : Option (Map ℕ)) (o : OnDemand)
    → IsKept prefix g o
    → Keeps prefix g (hydrate_index o)
unfolding hydrate_index hydrated entries
hydrate_index-Keeps prefix g o i =
    (ap (λ q. q ++ on_demand_cert_index) i.0, λ r. taken r (read_index r) refl)
  where
    taken :
        (r : Result Content) (m : Option (Map ℕ))
        → read_index r ≡ m
        → IsKept prefix (elim m [ none ↦ g | some n ↦ some n ]) (hydrated m o)
    taken r none e = i
    taken r (some n) e = (i.0, λ clean h v f. f)

store-Keeps :
    (to_ascii : Text → Option Text) (prefix : Text) (g : Option (Map ℕ)) (names : List Text)
    (o : OnDemand)
    → IsKept prefix g o
    → IsKept prefix g (store to_ascii names o)
unfolding store
store-Keeps to_ascii prefix g names o i =
    (i.0, λ clean h v e. i.1 clean h v (kept h v (λ j. has_key j (domain_set_of to_ascii names)) e))
  where
    kept :
        (h : Text) (v : ℕ) (keep : Text → Bool)
        → lookup h (entries (option_map (keep_keys keep) o.index)) ≡ some v
        → lookup h (entries o.index) ≡ some v
    kept h v keep e = ground (arith, lookup-kept keep o.index h)

module _ (to_ascii : Text → Option Text) (prefix : Text) where
  index_event-Keeps :
      (e : IndexEvent) (g : Option (Map ℕ)) (o : OnDemand)
      → IsKept prefix g o
      → Keeps prefix g (index_event to_ascii e o)
  unfolding index_event note_issued with_entry republish_index_if_dirty
  index_event-Keeps (issuance host end) g o i =
      Keeps-Answers prefix g (note_issued host end o)
        (publish_index-Answers prefix g (with_entry host (unix end) o) i.0)
  index_event-Keeps retry g o i = Keeps-Answers prefix g (republish_index_if_dirty o) (
      Safe-if (MayIndex prefix) note_index (λ g' x. IsKept prefix g' x.1) g (publish_index o)
        (ret (ok tt, o)) o.index_dirty (λ d. publish_index-Answers prefix g o i.0) (λ c. i))
  index_event-Keeps start g o i = hydrate_index-Keeps prefix g o i
  index_event-Keeps (new_names names) g o i = store-Keeps to_ascii prefix g names o i

  -- In every history of issuances, retries, starts and new allow sets, the node writes under the
  -- index key only, and only a whole index; and whenever the index is not marked dirty, every
  -- entry of the node's index is in the index that was last written or read: followers that read
  -- it see every issuance.
  pub index_history-Keeps :
      (es : List IndexEvent) (g : Option (Map ℕ)) (o : OnDemand)
      → IsKept prefix g o
      → Keeps prefix g (index_history to_ascii es o)
  unfolding index_history
  index_history-Keeps [] g o i = i
  index_history-Keeps (e ∷ es) g o i =
      Safe-bind (MayIndex prefix) note_index (IsKept prefix) (IsKept prefix)
        (index_history to_ascii es) g (index_event to_ascii e o) (index_event-Keeps e g o i)
        (index_history-Keeps es)
