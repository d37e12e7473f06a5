-- ===== src/Tests/Budgets.antt =====
-- The results about budgets (retry_budget.go), buckets (ondemand.go) and names (layout.go) at one
-- concrete input each.
use go_certs_manager.Layout
use go_certs_manager.Base.{
  List, [], arith, codes, has_suffix, insert, lookup, refl, some, text_dec, to_lower, trim_suffix,
  ℕ, ◌++◌, ◌+◌, ◌-◌, ◌↔◌, ◌∷◌, ◌≡◌, ◌≢◌, ◌≤◌,
}
use go_certs_manager.Bucket.{new_token_bucket}
use go_certs_manager.Bucket.Ceiling.{grants, take-ceiling}
use go_certs_manager.Budget.{
  RetryBudget, allow, allow_key, allow_unblocked, allowed, block, budget_key, failures_of,
  lift_block, new_retry_budget, prune, recent, refused, retry_budget_window, store_recent, verdict,
}
use go_certs_manager.Budget.Branches.{block-allow}
use go_certs_manager.Budget.Hourly.{Event, attempt_fails, charged, charged-ceiling}
use go_certs_manager.Budget.Wait.{allow-wait}
use go_certs_manager.Layout.{cert_domain, companion, is_companion, next_key, next_key_suffix}
use go_certs_manager.Layout.Names.{slots_apart}
use go_certs_manager.Tests.{budget, certs, host}
use go_certs_manager.Window.{count_between}

abbrev history : List (ℕ × Event)
history =
    (1, attempt_fails host)
    ∷ (2, attempt_fails (codes "other.example"))
    ∷ (3, attempt_fails host)
    ∷ []

charged-ceiling_example :
    count_between 0 (0 + retry_budget_window) (charged host (some (new_retry_budget 1)) [] history)
    ≤ 1
charged-ceiling_example =
    charged-ceiling 1 host history 0 (omega arith, (omega arith, (omega arith, tt)))

take-ceiling_example :
    count_between 2 (2 + 10) (grants (new_token_bucket 2 10) [] (1 ∷ 2 ∷ 3 ∷ 12 ∷ [])) ≤ 2
take-ceiling_example =
    take-ceiling 2 10 (1 ∷ 2 ∷ 3 ∷ 12 ∷ []) 2
      (omega arith, (omega arith, (omega arith, (omega arith, tt))))

block-allow_example :
    ((allow 5 host (block host 9 (some budget))).0 ≡ refused (9 - 5))
    × ((allow 5 (companion host) (block host 9 (some budget))).0 ≡ refused (9 - 5))
block-allow_example = block-allow 5 9 host budget refl (omega arith)

abbrev spent : RetryBudget
spent = record { max = 1; failures = (codes "b", 4 ∷ []) ∷ []; blocked = [] }

abbrev wait : ℕ
wait = retry_budget_window - 1

spent-refused : (allow 5 (codes "b") (some spent)).0 ≡ refused wait
unfolding allow allow_key allow_unblocked lift_block prune store_recent recent failures_of verdict
    budget_key cert_domain text_dec to_lower trim_suffix has_suffix lookup insert
spent-refused = refl

allow-wait_example :
    ((allow (5 + 1) (codes "b") (allow 5 (codes "b") (some spent)).1).0 ≡ refused (wait - 1))
    × ((allow (5 + wait) (codes "b") (allow 5 (codes "b") (some spent)).1).0 ≡ allowed)
unfolding failures_of budget_key cert_domain text_dec to_lower trim_suffix has_suffix lookup
allow-wait_example =
    allow-wait 5 (codes "b") spent wait 1 refl (tt, tt) (omega arith) spent-refused (omega arith)

slots_apart_example :
    (Layout.chain certs host ≢ Layout.key certs (codes "b"))
    × (Layout.chain certs host ≢ Layout.next_key certs (codes "b"))
    × ((Layout.chain certs host ≡ Layout.chain certs (codes "b"))
        ↔ (to_lower host ≡ to_lower (codes "b")))
    × ((Layout.key certs host ≡ Layout.key certs (codes "b"))
        ↔ (to_lower host ≡ to_lower (codes "b")))
    × ((Layout.key certs host ≡ Layout.next_key certs (codes "b"))
        ↔ (to_lower host ≡ to_lower (codes "b") ++ next_key_suffix))
slots_apart_example = slots_apart certs host (codes "b")
