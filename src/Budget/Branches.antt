-- ===== src/Budget/Branches.antt =====
-- The answers of retry_budget.go on every branch, and what each method leaves alone.
use go_certs_manager.Base.{
  Bool-cases, List, Option, Option-cases, Text, [], ap, arith, false, if◌then◌else◌, inl, inr,
  insert, keep_if, lookup, lookup-insert, lookup-insert_ne, lookup-insert_self, lookup-remove,
  lookup-remove_ne, ltb, lt→ltb, none, refl, remove, some, text_eq, text_eq_refl, to_lower_idem, ℕ,
  ◌++◌, ◌-◌, ◌<◌, ◌∙◌, ◌∷◌, ◌≡◌, ◌≤◌, ◌⊎◌,
}
use go_certs_manager.Budget.{
  RetryBudget, Verdict, allow, allow_key, allow_unblocked, allowed, block, budget_key, failures_of,
  lift_block, prune, recent, record_failure, record_failure_key, refused, reset,
  retry_budget_window, store_recent, verdict,
}
use go_certs_manager.Layout.{companion}
use go_certs_manager.Layout.Names.{companion-cert_domain, has_plus}
use go_certs_manager.Window.{within}

module _ (now : ℕ) (d : Text) (b : RetryBudget) where
  -- Pruning shows in later readings of the domain as the recent failures, and of no other.
  pub failures_of-prune : failures_of d (prune now d b).1 ≡ recent now d b
  unfolding prune failures_of
  failures_of-prune = go (recent now d b)
    where
      go : (kept : List ℕ) → failures_of d (store_recent d kept b) ≡ kept
      go [] = ground (arith, lookup-remove d d b.failures, text_eq_refl d)
      go (t ∷ ts) = ground (arith, lookup-insert d d (t ∷ ts) b.failures, text_eq_refl d)

  pub failures_of-prune_ne :
      (e : Text) → text_eq d e ≡ false → failures_of e (prune now d b).1 ≡ failures_of e b
  unfolding prune failures_of
  failures_of-prune_ne e h = go (recent now d b)
    where
      go : (kept : List ℕ) → failures_of e (store_recent d kept b) ≡ failures_of e b
      go [] = ground (arith, lookup-remove d e b.failures)
      go (t ∷ ts) = ground (arith, lookup-insert d e (t ∷ ts) b.failures)

  pub prune_frame : ((prune now d b).1.max ≡ b.max) × ((prune now d b).1.blocked ≡ b.blocked)
  unfolding prune
  prune_frame = go (recent now d b)
    where
      go :
          (kept : List ℕ)
          → ((store_recent d kept b).max ≡ b.max) × ((store_recent d kept b).blocked ≡ b.blocked)
      go [] = (refl, refl)
      go (t ∷ ts) = (refl, refl)

  -- A blocked domain is refused and nothing changes; otherwise the block, if it has lifted, is
  -- dropped, and the recent failures decide.
  pub allow_key_cases :
      ((until : ℕ) × (lookup d b.blocked ≡ some until)
        × (now < until)
        × (allow_key now d b ≡ (refused (until - now), b)))
      ⊎ ((b' : RetryBudget) × (b'.failures ≡ b.failures)
          × (b'.max ≡ b.max)
          × ((until : ℕ) → lookup d b.blocked ≡ some until → until ≤ now)
          × (allow_key now d b ≡ (verdict now b.max (recent now d b'), (prune now d b').1)))
  unfolding allow_key
  allow_key_cases = elim (Option-cases (lookup d b.blocked)) [
    | inl free ↦
        inr (b, refl, refl, λ until e. absurd (ground (arith, free, e)), rw (free, allow_key))
    | inr (until, held) ↦ elim (Bool-cases (ltb now until)) [
      | inl early ↦ inl (until, held, ground arith, rw (held, allow_key) (rw (early, lift_block)))
      | inr over ↦ inr (
        record b { blocked = remove d b.blocked },
        refl,
        refl,
        λ u e. ground (arith, held, e),
        rw (held, allow_key) (rw (over, lift_block)),
      )
    ]
  ]

  pub recent_lem : recent now d b ≡ keep_if (within retry_budget_window now) (failures_of d b)
  unfolding recent
  recent_lem = refl

  recent_absent : lookup d b.failures ≡ none → recent now d b ≡ []
  unfolding recent
  recent_absent gone = rw (gone, failures_of)

  pub allow_key_free :
      lookup d b.blocked ≡ none
      → allow_key now d b ≡ (verdict now b.max (recent now d b), (prune now d b).1)
  unfolding allow_key
  allow_key_free free = rw (free, allow_key)

  pub allow_key_blocked :
      (until : ℕ)
      → lookup d b.blocked ≡ some until
      → now < until
      → allow_key now d b ≡ (refused (until - now), b)
  unfolding allow_key
  allow_key_blocked until held early =
      rw (held, allow_key) (rw (lt→ltb now until early, lift_block))

-- A hostname's companion counts against the hostname.
pub budget_key-companion :
    (host : Text) → has_plus host ≡ false → budget_key (companion host) ≡ budget_key host
unfolding budget_key
budget_key-companion host plain =
    let (_, own, _, lead) = companion-cert_domain host plain in rw (own, lead) (to_lower_idem host)

module _ (now until : ℕ) (host : Text) (b : RetryBudget) (plain : has_plus host ≡ false) where
  -- Once the CA has rate-limited a hostname, no attempt is allowed before the limit lifts, neither
  -- for the hostname nor for its companion, and each is told how long is left.
  pub block-allow :
      now < until
      → ((allow now host (block host until (some b))).0 ≡ refused (until - now))
        × ((allow now (companion host) (block host until (some b))).0 ≡ refused (until - now))
  unfolding allow block
  block-allow early = (held, rw (budget_key-companion host plain) held)
    where
      after : RetryBudget
      after = record b { blocked = insert (budget_key host) until b.blocked }

      stored : lookup (budget_key host) after.blocked ≡ some until
      stored = rw (
        lookup-insert (budget_key host) (budget_key host) until b.blocked,
        text_eq_refl (budget_key host),
      )

      held : (allow_key now (budget_key host) after).0 ≡ refused (until - now)
      held = ap (λ r. r.0) (allow_key_blocked now (budget_key host) after until stored early)

-- A success wipes the slate: whatever was recorded before, and whenever it is asked, the next
-- attempt for the hostname or its companion is allowed, if any is ever allowed.
reset-allow :
    (now : ℕ) (host : Text) (b : RetryBudget)
    → has_plus host ≡ false
    → 0 < b.max
    → ((allow now host (reset host (some b))).0 ≡ allowed)
      × ((allow now (companion host) (reset host (some b))).0 ≡ allowed)
unfolding allow reset verdict
reset-allow now host b plain positive = (clear, rw (budget_key-companion host plain) clear)
  where
    d : Text
    d = budget_key host

    after : RetryBudget
    after = record b { failures = remove d b.failures; blocked = remove d b.blocked }

    free : lookup d after.blocked ≡ none
    free = rw (lookup-remove d d b.blocked, text_eq_refl d)

    gone : lookup d after.failures ≡ none
    gone = rw (lookup-remove d d b.failures, text_eq_refl d)

    clear : (allow_key now d after).0 ≡ allowed
    clear = rw (allow_key_free now d after free, recent_absent now d after gone) (ground arith)

-- The answer in terms of what the budget holds for the key.
abbrev pub answer : ℕ → Option ℕ → ℕ → List ℕ → Verdict
answer now none max kept = verdict now max kept
answer now (some until) max kept =
    if ltb now until then refused (until - now) else verdict now max kept

pub allow_key-answer :
    (now : ℕ) (d : Text) (b : RetryBudget)
    → (allow_key now d b).0 ≡ answer now (lookup d b.blocked) b.max (recent now d b)
unfolding allow_key recent failures_of
allow_key-answer now d b = go (lookup d b.blocked)
  where
    go :
        (o : Option ℕ)
        → (allow_unblocked now d (lift_block now d o b)).0 ≡ answer now o b.max (recent now d b)
    go none = refl
    go (some until) = elim (Bool-cases (ltb now until)) [
      | inl early ↦ rw (early, lift_block)
      | inr over ↦ rw (over, lift_block)
    ]

recent-same :
    (now : ℕ) (d : Text) (b b' : RetryBudget)
    → failures_of d b' ≡ failures_of d b
    → recent now d b' ≡ recent now d b
unfolding recent
recent-same now d b b' e = ap (keep_if (within retry_budget_window now)) e

module _ (now : ℕ) (name : Text) (b : RetryBudget) where
  same_answer :
      (b' : RetryBudget)
      → b'.max ≡ b.max
      → lookup (budget_key name) b'.blocked ≡ lookup (budget_key name) b.blocked
      → failures_of (budget_key name) b' ≡ failures_of (budget_key name) b
      → (allow now name (some b')).0 ≡ (allow now name (some b)).0
  unfolding allow
  same_answer b' m held failures =
      let d = budget_key name in
      cc (allow_key-answer now d b', allow_key-answer now d b, recent-same now d b b' failures)

pub failures_of-some :
    (d : Text) (b : RetryBudget) (ts : List ℕ)
    → lookup d b.failures ≡ some ts
    → failures_of d b ≡ ts
unfolding failures_of
failures_of-some d b ts e = rw (e, failures_of)

pub failures_of-none :
    (d : Text) (b : RetryBudget) → lookup d b.failures ≡ none → failures_of d b ≡ []
unfolding failures_of
failures_of-none d b e = rw (e, failures_of)

pub failures_of-lookup :
    (d : Text) (b b' : RetryBudget)
    → lookup d b'.failures ≡ lookup d b.failures
    → failures_of d b' ≡ failures_of d b
unfolding failures_of
failures_of-lookup d b b' e = ap (λ o. elim o [ none ↦ [] | some ts ↦ ts ]) e

module _ (now : ℕ) (d : Text) (b : RetryBudget) where
  pub failures_of-record : failures_of d (record_failure_key now d b) ≡ recent now d b ++ now ∷ []
  unfolding record_failure_key
  failures_of-record =
      failures_of-some d (record_failure_key now d b) (recent now d b ++ now ∷ [])
        (lookup-insert_self d (recent now d b ++ now ∷ []) (prune now d b).1.failures)

  pub failures_of-record_ne :
      (e : Text)
      → text_eq d e ≡ false
      → failures_of e (record_failure_key now d b) ≡ failures_of e b
  unfolding record_failure_key
  failures_of-record_ne e h =
      failures_of-lookup e (prune now d b).1 (record_failure_key now d b)
        (lookup-insert_ne d e (recent now d b ++ now ∷ []) (prune now d b).1.failures h)
      ∙ failures_of-prune_ne now d b e h

  pub record_frame :
      ((record_failure_key now d b).max ≡ b.max)
      × ((record_failure_key now d b).blocked ≡ b.blocked)
  unfolding record_failure_key
  record_frame = prune_frame now d b

module _ (now : ℕ) (name other : Text) (b : RetryBudget) where
  -- What happens to one hostname changes no answer for another: a failure, a rate limit and a
  -- success are counted against the hostname's own key only.
  allow-other :
      (until : ℕ)
      → text_eq (budget_key name) (budget_key other) ≡ false
      → ((allow now other (record_failure now name (some b))).0 ≡ (allow now other (some b)).0)
        × ((allow now other (block name until (some b))).0 ≡ (allow now other (some b)).0)
        × ((allow now other (reset name (some b))).0 ≡ (allow now other (some b)).0)
  unfolding record_failure block reset
  allow-other until h =
      let d = budget_key name in
      let e = budget_key other in
      let (same_max, same_blocked) = record_frame now d b in
      let barred : RetryBudget = record b { blocked = insert d until b.blocked } in
      let cleared : RetryBudget = record b {
        failures = remove d b.failures;
        blocked = remove d b.blocked;
      } in
      (
        same_answer now other b (record_failure_key now d b) same_max (ap (lookup e) same_blocked)
            (failures_of-record_ne now d b e h),
        same_answer now other b barred refl (lookup-insert_ne d e until b.blocked h)
            (failures_of-lookup e b barred refl),
        same_answer now other b cleared refl (lookup-remove_ne d e b.blocked h)
            (failures_of-lookup e b cleared (lookup-remove_ne d e b.failures h)),
      )
