-- ===== src/Budget.antt =====
-- retry_budget.go: failed attempts per hostname over a sliding hour, and the CA's rate limits.
-- Times are nanoseconds. A method takes one clock reading, for all that it reads under its lock.
-- A nil budget is `none`.
pub mod Branches
pub mod Hourly
pub mod Wait
use go_certs_manager.Base.{
  ℕ, ◌+◌, ◌-◌, ◌*◌, Text, to_lower, Map, lookup, insert, remove, List, [], ◌∷◌, ◌++◌, Option, none,
  some, if◌then◌else◌, ltb, length, keep_if,
}
use go_certs_manager.Layout.{cert_domain}
use go_certs_manager.Window.{within}

abbrev pub second : ℕ
second = 1_000_000_000

abbrev pub retry_budget_window : ℕ
retry_budget_window = 3600 * second

pub record RetryBudget : Type 0 where
  pub max : ℕ
  pub failures : Map (List ℕ)
  pub blocked : Map ℕ

-- What `allow` answers. It indexes `recent[0]`, which panics when nothing is there.
pub data Verdict : Type 0 where
  allowed : Verdict
  refused : ℕ → Verdict
  panics : Verdict

unfoldable pub budget_key : Text → Text
budget_key name = to_lower (cert_domain name)

unfoldable pub new_retry_budget : ℕ → RetryBudget
new_retry_budget max = record { max = max; failures = []; blocked = [] }

-- `b.failures[domain]`: the nil slice for a missing key.
unfoldable pub failures_of : Text → RetryBudget → List ℕ
failures_of domain b = elim (lookup domain b.failures) [ none ↦ [] | some ts ↦ ts ]

unfoldable pub recent : ℕ → Text → RetryBudget → List ℕ
unfolding failures_of
recent now domain b = keep_if (within retry_budget_window now) (failures_of domain b)

-- `prune`: the recent failures, and the budget that holds no others for the domain.
unfoldable pub store_recent : Text → List ℕ → RetryBudget → RetryBudget
store_recent domain [] b = record b { failures = remove domain b.failures }
store_recent domain (t ∷ ts) b = record b { failures = insert domain (t ∷ ts) b.failures }

unfoldable pub prune : ℕ → Text → RetryBudget → List ℕ × RetryBudget
unfolding recent store_recent
prune now domain b = let kept = recent now domain b in (kept, store_recent domain kept b)

-- `until` is `none` when the domain is not blocked.
unfoldable pub lift_block : ℕ → Text → Option ℕ → RetryBudget → Option ℕ × RetryBudget
lift_block now domain none b = (none, b)
lift_block now domain (some until) b =
    if ltb now until
    then (some (until - now), b)
    else (none, record b { blocked = remove domain b.blocked })

unfoldable pub verdict : ℕ → ℕ → List ℕ → Verdict
verdict now max kept =
    if ltb (length kept) max
    then allowed
    else elim kept [ [] ↦ panics | oldest ∷ _ ↦ refused (oldest + retry_budget_window - now) ]

-- What `allow` does once the block, if there is one, has been looked at.
unfoldable pub allow_unblocked : ℕ → Text → Option ℕ × RetryBudget → Verdict × RetryBudget
unfolding prune verdict
allow_unblocked now domain (some wait, b) = (refused wait, b)
allow_unblocked now domain (none, b) =
    let (kept, b') = prune now domain b in (verdict now b.max kept, b')

unfoldable pub allow_key : ℕ → Text → RetryBudget → Verdict × RetryBudget
unfolding lift_block allow_unblocked
allow_key now domain b =
    allow_unblocked now domain (lift_block now domain (lookup domain b.blocked) b)

unfoldable pub allow : ℕ → Text → Option RetryBudget → Verdict × Option RetryBudget
unfolding allow_key budget_key
allow now name none = (allowed, none)
allow now name (some b) = let (v, b') = allow_key now (budget_key name) b in (v, some b')

unfoldable pub record_failure_key : ℕ → Text → RetryBudget → RetryBudget
unfolding prune
record_failure_key now domain b =
    let (kept, b') = prune now domain b in
    record b' { failures = insert domain (kept ++ now ∷ []) b'.failures }

unfoldable pub record_failure : ℕ → Text → Option RetryBudget → Option RetryBudget
unfolding record_failure_key budget_key
record_failure now name none = none
record_failure now name (some b) = some (record_failure_key now (budget_key name) b)

unfoldable pub block : Text → ℕ → Option RetryBudget → Option RetryBudget
unfolding budget_key
block name until none = none
block name until (some b) = some (record b { blocked = insert (budget_key name) until b.blocked })

unfoldable pub reset : Text → Option RetryBudget → Option RetryBudget
unfolding budget_key
reset name none = none
reset name (some b) = some (record b {
  failures = remove (budget_key name) b.failures;
  blocked = remove (budget_key name) b.blocked;
})
