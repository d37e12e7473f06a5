-- ===== src/OnDemand/Members.antt =====
-- Which hostnames the allow set of ondemand.go has, and that no bookkeeping outlives it.
use go_certs_manager.Base.{
  Bool, Bool-cases, List, Map, Option, Text, any, any-keys, any-sort_texts, arith, false, has_key,
  if◌then◌else◌, inl, inr, keep_keys, keys, lookup, lookup-keep_keys, none, not, refl, some,
  sort_texts, text_eq, text_eq_refl, true, ℕ, ◌&&◌, ◌∙◌, ◌≡◌,
}
use go_certs_manager.Effects.{
  Call, Content, Error, Reply, Result, do_call, enumerate, err, get_object, ok, put_object, ret,
  time_now, ◌>>=◌,
}
use go_certs_manager.Effects.Logic.{Safe, Safe-if}
use go_certs_manager.Names.{domain_set_of, domain_set_of_lem, normalize_domains}
use go_certs_manager.OnDemand.{
  OnDemand, adopt_state, allows, entries, enumerated, hosts, join_lines, option_map, publish_hosts,
  refresh_follower, refresh_leader, state_key, store,
}

pub allows-keys : (o : OnDemand) (h : Text) → any (λ n. text_eq n h) (hosts o) ≡ allows o h
unfolding hosts allows
allows-keys o h = any-sort_texts (λ n. text_eq n h) (keys o.allow) ∙ any-keys h o.allow

pub lookup-kept :
    (keep : Text → Bool) (index : Option (Map ℕ)) (h : Text)
    → lookup h (entries (option_map (keep_keys keep) index))
      ≡ (if keep h then lookup h (entries index) else none)
unfolding entries option_map lookup
lookup-kept keep none h = ground arith
lookup-kept keep (some m) h = lookup-keep_keys keep h m

-- After a set of names has been stored, exactly their normal forms are allowed, and they are the
-- hosts that maintenance goes through. What the node remembered of a hostname, its failed
-- pre-flight and its index entry, is unchanged for an allowed hostname and gone for any other.
pub store-Members :
    (to_ascii : Text → Option Text) (names : List Text) (o : OnDemand) (h : Text)
    → let o' = store to_ascii names o in
      (allows o' h ≡ any (λ n. text_eq n h) (normalize_domains to_ascii names))
      × (any (λ n. text_eq n h) (hosts o') ≡ allows o' h)
      × (lookup h o'.preflight ≡ (if allows o' h then lookup h o.preflight else none))
      × (lookup h (entries o'.index) ≡ (if allows o' h then lookup h (entries o.index) else none))
unfolding store allows
store-Members to_ascii names o h =
    let set = domain_set_of to_ascii names in
    (
      domain_set_of_lem to_ascii names h,
      allows-keys (store to_ascii names o) h,
      lookup-keep_keys (λ j. has_key j set) h o.preflight,
      lookup-kept (λ j. has_key j set) o.index h,
    )

-- What the leader learns while it refreshes: the authority's answer, what the published object
-- says, and whether it has tried to write one, with or without success.
pub record Heard : Type 0 where
  pub answer : Option (Result (List Text))
  pub stored : Option (Result Content)
  pub tried : Bool

abbrev pub nothing_heard : Heard
nothing_heard = record { answer = none; stored = none; tried = false }

abbrev pub hear : Heard → (c : Call) → Reply c → Heard
hear g enumerate r = record g { answer = some r }
hear g (get_object k) r = record g { stored = some r }
hear g (put_object k c o) r = record g { tried = true }
hear g c r = g

module _ (to_ascii : Text → Option Text) where
  -- The allow set that the answers call for.
  unfoldable pub called_for : OnDemand → Heard → Map (Unit {0})
  called_for o g = elim g.answer [
    | none ↦ o.allow
    | some (ok names) ↦ (store to_ascii (sort_texts (normalize_domains to_ascii names)) o).allow
    | some (err e) ↦ elim g.stored [
      | none ↦ o.allow
      | some body ↦ (adopt_state to_ascii body o).1.allow
    ]
  ]

  -- Whether the answers call for a publication.
  unfoldable pub is_news : OnDemand → Heard → Bool
  is_news o g = elim g.answer [
    | some (ok names) ↦ not (
        o.has_published
        && text_eq (join_lines (sort_texts (normalize_domains to_ascii names))) o.published)
    | _ ↦ false
  ]

  abbrev pub MayPublish : OnDemand → Heard → Call → Type 0
  MayPublish o g (put_object k c p) =
      (k ≡ state_key o)
      × ((f : OnDemand) → (adopt_state to_ascii (ok c) f).1.allow ≡ called_for o g)
  MayPublish o g (get_object k) =
      (k ≡ state_key o) × (o.has_published ≡ false) × ((e : Error) × (g.answer ≡ some (err e)))
  MayPublish o g enumerate = o.cfg.enumerates ≡ true
  MayPublish o g time_now = Unit {0}
  MayPublish o g c = ⊥

  abbrev pub IsRefreshed : OnDemand → Heard → OnDemand → Type 0
  IsRefreshed o g o' =
      (o'.allow ≡ called_for o g)
      × (g.tried ≡ is_news o g)
      × (g.tried ≡ true → is_news o' g ≡ false)

  -- The leader's refresh writes only the allow-set object and reads it only when the authority
  -- has failed and this node has tried to publish nothing yet. What it writes makes any follower
  -- that reads it allow exactly what the leader then allows: the authority's names, under their
  -- normal forms. It tries to write exactly if the authority answered with a set other than the
  -- last one that it tried to write; the empty set is one; and after a try, failed or not, the same
  -- answer leads to none. When the authority fails, the previous set is kept, or the published one
  -- is adopted by a leader that has tried to publish none.
  pub refresh_leader-IsRefreshed :
      (o : OnDemand)
      → Safe (MayPublish o) hear (IsRefreshed o) nothing_heard (refresh_leader to_ascii o)
  unfolding refresh_leader enumerated publish_hosts refresh_follower called_for is_news
  refresh_leader-IsRefreshed o =
      Safe-if (MayPublish o) hear (IsRefreshed o) nothing_heard
        (do names ← do_call enumerate; enumerated to_ascii names o) (ret o) o.cfg.enumerates
        (λ on. (on, λ names. heard names)) (λ off. (refl, refl, λ e. absurd (ground (arith, e))))
    where
      heard :
          (names : Result (List Text))
          → Safe
              (MayPublish o)
              hear
              (IsRefreshed o)
              (record nothing_heard { answer = some names })
              (enumerated to_ascii names o)
      heard (ok names) =
          let normalized = sort_texts (normalize_domains to_ascii names) in
          let joined = join_lines normalized in
          elim (Bool-cases (o.has_published && text_eq joined o.published)) [
            | inl same ↦ rw same (refl, rw same, λ e. absurd (ground (arith, e)))
            | inr news ↦ rw news (
              tt,
              λ now.
                  ((refl, λ f. refl), λ put. (refl, rw news, λ e. rw (text_eq_refl joined) refl)),
            )
          ]
      heard (err e) =
          Safe-if (MayPublish o) hear (IsRefreshed o)
            (record nothing_heard { answer = some (err e) }) (ret o)
            (do (result, o') ← refresh_follower to_ascii o; ret o') o.has_published
            (λ old. (refl, refl, λ t. refl))
            (λ fresh. ((refl, fresh, (e, refl)), λ body. (refl, refl, λ t. refl)))
