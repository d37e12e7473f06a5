-- ===== src/OnDemand.antt =====
-- ondemand.go: the allow set of on-demand hostnames, the index of their certificates' ends, and the
-- DNS pre-flight. Each method runs under its mutexes from one call to the next; `indexMu` is held
-- over the whole of a publication, so nothing of this node comes between. The token bucket is in
-- Bucket. A limit that the configuration leaves at zero takes its default.
pub mod Index
pub mod Preflight
pub mod Members
pub mod Published
pub mod Catching
pub mod Pointed
use go_certs_manager.Layout
use go_certs_manager.Base.{
  Bool, List, Map, Option, Text, [], false, has_key, if◌then◌else◌, keep_keys, keys, lookup, none,
  some, sort_texts, suc, text_eq, true, zero, ℕ, ◌&&◌, ◌*◌, ◌++◌, ◌/◌, ◌∷◌,
}
use go_certs_manager.Bucket.{TokenBucket, new_token_bucket}
use go_certs_manager.Budget.{second}
use go_certs_manager.CertCache.{set}
use go_certs_manager.Effects.{
  Content, Prog, Result, do_call, enumerate, err, get_object, hosts_json, ok, overwrite, put_object,
  ret, time_now, unparseable, ◌>>=◌,
}
use go_certs_manager.Layout.{on_demand_cert_index, on_demand_hosts}
use go_certs_manager.Names.{domain_set_of, normalize_domains}

-- OnDemandConfig, with whether Enumerate is set.
pub record OnDemandConfig : Type 0 where
  pub enumerates : Bool
  pub interval : ℕ
  pub expected_target : Text
  pub handshake_wait : ℕ
  pub max_new_orders_per_hour : ℕ
  pub max_concurrent_orders : ℕ

-- onDemand
pub record OnDemand : Type 0 where
  pub cfg : OnDemandConfig
  pub prefix : Text
  pub allow : Map (Unit {0})
  pub orders : TokenBucket
  pub index_dirty : Bool
  pub published : Text
  pub has_published : Bool
  pub preflight : Map ℕ
  pub index : Option (Map ℕ)

abbrev pub hour : ℕ
hour = 3600 * second

abbrev pub preflight_backoff : ℕ
preflight_backoff = 24 * hour

unfoldable pub or_default : ℕ → ℕ → ℕ
or_default zero d = d
or_default (suc n) d = suc n

-- newOnDemand
unfoldable pub new_on_demand : OnDemandConfig → Text → OnDemand
unfolding or_default new_token_bucket
new_on_demand cfg prefix =
    let per_hour = or_default cfg.max_new_orders_per_hour 40 in
    record {
      cfg = record cfg {
        interval = or_default cfg.interval (60 * second);
        max_new_orders_per_hour = per_hour;
        max_concurrent_orders = or_default cfg.max_concurrent_orders 4;
      };
      prefix = prefix;
      allow = [];
      orders = new_token_bucket per_hour hour;
      index_dirty = false;
      published = [];
      has_published = false;
      preflight = [];
      index = none;
    }

abbrev pub state_key : OnDemand → Text
state_key o = o.prefix ++ on_demand_hosts

abbrev pub cert_index_key : OnDemand → Text
cert_index_key o = o.prefix ++ on_demand_cert_index

-- allows
unfoldable pub allows : OnDemand → Text → Bool
allows o server_name = has_key server_name o.allow

-- hosts
unfoldable pub hosts : OnDemand → List Text
hosts o = sort_texts (keys o.allow)

unfoldable pub option_map {ℓ κ} : {A : Type ℓ} {B : Type κ} → (A → B) → Option A → Option B
option_map f none = none
option_map f (some a) = some (f a)

-- The nil index reads as the empty one.
unfoldable pub entries : Option (Map ℕ) → Map ℕ
entries none = []
entries (some m) = m

-- `m[h]`, 0 where there is no entry.
abbrev pub or_zero : Option ℕ → ℕ
or_zero none = 0
or_zero (some t) = t

unfoldable pub entry : Text → Map ℕ → ℕ
entry h m = or_zero (lookup h m)

-- strings.Join(names, "\n")
unfoldable pub join_lines : List Text → Text
join_lines [] = []
join_lines (n ∷ []) = n
join_lines (n ∷ m ∷ names) = n ++ (10 ∷ join_lines (m ∷ names))

module _ (to_ascii : Text → Option Text) where
  -- store
  unfoldable pub store : List Text → OnDemand → OnDemand
  unfolding option_map
  store names o =
      let set = domain_set_of to_ascii names in
      record o {
        allow = set;
        preflight = keep_keys (λ h. has_key h set) o.preflight;
        index = option_map (keep_keys λ h. has_key h set) o.index;
      }

  -- refreshFollower: the object read, and then what it decodes to.
  unfoldable pub adopt_state : Result Content → OnDemand → Result (Unit {0}) × OnDemand
  unfolding store
  adopt_state (err e) o = (err e, o)
  adopt_state (ok (hosts_json at names)) o = (ok tt, store names o)
  adopt_state (ok c) o = (err unparseable, o)

  unfoldable pub refresh_follower : OnDemand → Prog (Result (Unit {0}) × OnDemand)
  unfolding adopt_state
  refresh_follower o = do body ← do_call (get_object (state_key o)); ret (adopt_state body o)

  -- refreshLeader once the authority has answered, for the names in order.
  unfoldable pub publish_hosts : List Text → OnDemand → Prog OnDemand
  unfolding join_lines
  publish_hosts normalized o =
      let joined = join_lines normalized in
      let o' = record o { published = joined; has_published = true } in
      if o.has_published && text_eq joined o.published then ret o' else (do
        now ← do_call time_now
        _ ← do_call (put_object (state_key o) (hosts_json (now / second) normalized) overwrite)
        ret o')

  unfoldable pub enumerated : Result (List Text) → OnDemand → Prog OnDemand
  unfolding publish_hosts refresh_follower
  enumerated (ok names) o =
      let normalized = sort_texts (normalize_domains to_ascii names) in
      publish_hosts normalized (store normalized o)
  enumerated (err e) o =
      if o.has_published then ret o else (do (result, o') ← refresh_follower o; ret o')

  -- refreshLeader
  unfoldable pub refresh_leader : OnDemand → Prog OnDemand
  unfolding enumerated
  refresh_leader o =
      if o.cfg.enumerates then (do names ← do_call enumerate; enumerated names o) else ret o
