-- ===== src/Budget/Wait.antt =====
-- The wait that `allow` of retry_budget.go reports with a refusal.
use go_certs_manager.Base.{
  All, Bool, Bool-cases, List, Text, [], ap, arith, inl, inr, keep_if, length, length-keep_if-le,
  lookup, none, refl, some, suc, sym, ℕ, ◌+◌, ◌-◌, ◌<◌, ◌∙◌, ◌∷◌, ◌≡◌, ◌≤◌,
}
use go_certs_manager.Budget.{
  RetryBudget, allow, allow_key, allowed, budget_key, failures_of, prune, recent, refused,
  retry_budget_window, verdict,
}
use go_certs_manager.Budget.Branches.{allow_key_free, failures_of-prune, prune_frame, recent_lem}
use go_certs_manager.Window.{within}

-- Failures are recorded in the order of the clock: each is at least as late as those before it.
abbrev pub IsOldestFirst : List ℕ → Type 0
IsOldestFirst [] = Unit {0}
IsOldestFirst (t ∷ ts) = All (λ u. t ≤ u) ts × IsOldestFirst ts

keep_if-All : (P : ℕ → Type 0) (p : ℕ → Bool) (ts : List ℕ) → All P ts → All P (keep_if p ts)
keep_if-All P p [] a = tt
keep_if-All P p (t ∷ ts) a = elim (Bool-cases (p t)) [
  | inl yes' ↦ rw yes' (a.0, keep_if-All P p ts a.1)
  | inr no' ↦ rw no' (keep_if-All P p ts a.1)
]

keep_if-IsOldestFirst :
    (p : ℕ → Bool) (ts : List ℕ) → IsOldestFirst ts → IsOldestFirst (keep_if p ts)
keep_if-IsOldestFirst p [] a = tt
keep_if-IsOldestFirst p (t ∷ ts) a = elim (Bool-cases (p t)) [
  | inl yes' ↦ rw yes' (keep_if-All (λ u. t ≤ u) p ts a.0, keep_if-IsOldestFirst p ts a.1)
  | inr no' ↦ rw no' (keep_if-IsOldestFirst p ts a.1)
]

-- Before the oldest leaves the window, nothing does.
keep_if-within-All :
    (oldest u : ℕ) (ts : List ℕ)
    → u < oldest + retry_budget_window
    → All (λ t. oldest ≤ t) ts
    → keep_if (within retry_budget_window u) ts ≡ ts
keep_if-within-All oldest u [] h a = refl
keep_if-within-All oldest u (t ∷ ts) h a = ground (arith, a.0, keep_if-within-All oldest u ts h a.1)

module _ (now max w v : ℕ) where
  verdict-wait :
      (kept : List ℕ)
      → IsOldestFirst kept
      → length kept ≤ max
      → verdict now max kept ≡ refused w
      → v < w
      → (verdict (now + v) max (keep_if (within retry_budget_window (now + v)) kept)
          ≡ refused (w - v))
        × (verdict (now + w) max (keep_if (within retry_budget_window (now + w)) kept) ≡ allowed)
  unfolding verdict
  verdict-wait [] sorted few e early = ground arith
  verdict-wait (t ∷ ts) sorted few e early =
      let deadline : t + retry_budget_window - now ≡ w = ground arith in
      let full : max ≤ suc (length ts) = ground arith in
      let rest = keep_if-within-All t (now + v) ts (omega arith) sorted.0 in
      (
        ground (arith, rest),
        ground (arith, length-keep_if-le (within retry_budget_window (now + w)) ts),
      )

module _ (now : ℕ) (name : Text) (b : RetryBudget) (w v : ℕ) where
  later_answer :
      (u : ℕ) (d : Text)
      → lookup d b.blocked ≡ none
      → (allow_key u d (prune now d b).1).0
        ≡ verdict u b.max (keep_if (within retry_budget_window u) (recent now d b))
  later_answer u d free =
      let (same_max, same_blocked) = prune_frame now d b in
      ap (λ r. r.0) (allow_key_free u d (prune now d b).1 (rw same_blocked free))
      ∙ rw (same_max, recent_lem u d (prune now d b).1, failures_of-prune now d b) refl

  -- For a hostname that is not rate-limited, with its failures on record in the order of the clock
  -- and no more than `max` of them, and with nothing recorded meanwhile, the wait that a refusal
  -- names is exact: at any earlier time the hostname is still refused, with the rest of the wait,
  -- and at that time it is allowed.
  pub allow-wait :
      lookup (budget_key name) b.blocked ≡ none
      → IsOldestFirst (failures_of (budget_key name) b)
      → length (failures_of (budget_key name) b) ≤ b.max
      → (allow now name (some b)).0 ≡ refused w
      → v < w
      → ((allow (now + v) name (allow now name (some b)).1).0 ≡ refused (w - v))
        × ((allow (now + w) name (allow now name (some b)).1).0 ≡ allowed)
  unfolding allow recent
  allow-wait free sorted few e early =
      let d = budget_key name in
      let asked = allow_key_free now d b free in
      let (before, after) =
        verdict-wait now b.max w v (recent now d b)
          (keep_if-IsOldestFirst (within retry_budget_window now) (failures_of d b) sorted)
          (omega (arith, length-keep_if-le (within retry_budget_window now) (failures_of d b)))
          (ap (λ r. r.0) (sym asked) ∙ e) early in
      rw asked (later_answer (now + v) d free ∙ before, later_answer (now + w) d free ∙ after)
