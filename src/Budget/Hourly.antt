-- ===== src/Budget/Hourly.antt =====
-- The ceiling that retry_budget.go promises: whatever happens to the other hostnames, and however
-- often a hostname is tried, no hour holds more than `max` failed attempts for it.
-- `attempt_fails` is an attempt as issueWithKey of manager.go makes one: it asks `allow`, goes on
-- only if that allows, and records the failure.
use go_certs_manager.Base.{
  Bool, Bool-cases, List, Option, Text, [], ap, arith, false, if◌then◌else◌, inl, inr, insert,
  length, length-keep_if-le, lookup, lookup-remove_ne, lookup-remove_self, none, refl, remove, some,
  subst, sym, text_eq, text_eq_iff, true, ℕ, ◌&&◌, ◌++◌, ◌+◌, ◌<◌, ◌∙◌, ◌∷◌, ◌≡◌, ◌≤◌,
}
use go_certs_manager.Budget.{
  RetryBudget, Verdict, allow, allow_key, allowed, block, budget_key, failures_of, new_retry_budget,
  panics, prune, recent, record_failure, record_failure_key, refused, reset, retry_budget_window,
  verdict,
}
use go_certs_manager.Budget.Branches.{
  allow_key_cases, failures_of-lookup, failures_of-none, failures_of-prune, failures_of-prune_ne,
  failures_of-record, failures_of-record_ne, prune_frame, record_frame,
}
use go_certs_manager.Window.{
  Tracks, Tracks-append, Tracks-prune, admit-bounded, count_between, within,
}

pub data Event : Type 0 where
  attempt_fails : Text → Event
  rate_limited : Text → ℕ → Event
  succeeds : Text → Event

abbrev pub is_allowed : Verdict → Bool
is_allowed allowed = true
is_allowed (refused w) = false
is_allowed panics = false

-- An attempt that fails: the budget is asked, and the failure is recorded, here at the same
-- instant; the source records it once the order has failed.
unfoldable pub attempt : ℕ → Text → Option RetryBudget → Option RetryBudget
attempt now name b =
    let (v, b') = allow now name b in if is_allowed v then record_failure now name b' else b'

unfoldable pub step : ℕ → Event → Option RetryBudget → Option RetryBudget
unfolding attempt
step now (attempt_fails name) b = attempt now name b
step now (rate_limited name until) b = block name until b
step now (succeeds name) b = reset name b

-- The failed attempts that reached the CA for a key since its last success, newest first.
unfoldable pub charge : Text → ℕ → Event → Option RetryBudget → List ℕ → List ℕ
charge k now (attempt_fails name) b log =
    if is_allowed (allow now name b).0 && text_eq (budget_key name) k then now ∷ log else log
charge k now (rate_limited name until) b log = log
charge k now (succeeds name) b log = if text_eq (budget_key name) k then [] else log

unfoldable pub charged : Text → Option RetryBudget → List ℕ → List (ℕ × Event) → List ℕ
unfolding step charge
charged k b log [] = log
charged k b log ((now, e) ∷ events) = charged k (step now e b) (charge k now e b log) events

abbrev pub IsMonotone : ℕ → List (ℕ × Event) → Type 0
IsMonotone last [] = Unit {0}
IsMonotone last ((now, e) ∷ events) = (last ≤ now) × IsMonotone now events

allowed_of_is_allowed : (v : Verdict) → is_allowed v ≡ true → v ≡ allowed
allowed_of_is_allowed allowed h = refl
allowed_of_is_allowed (refused w) h = cc
allowed_of_is_allowed panics h = cc

record Inv (k : Text) (limit : ℕ) (b : RetryBudget) (last : ℕ) (log : List ℕ) : Type 0 where
  same_max : b.max ≡ limit
  tracks : Tracks retry_budget_window last log (failures_of k b)
  bounded : (lo : ℕ) → count_between lo (lo + retry_budget_window) log ≤ limit

-- A nil budget bounds nothing.
abbrev Held : Text → ℕ → ℕ → List ℕ → Option RetryBudget → Type 0
Held k limit t l none = ⊥
Held k limit t l (some b) = Inv k limit b t l

Tracks-later :
    (window last now : ℕ) (all kept : List ℕ)
    → last ≤ now
    → Tracks window last all kept
    → Tracks window now all kept
Tracks-later window last now all kept h t u hu = t u (omega arith)

module _ (k : Text) (limit last now : ℕ) (log : List ℕ) (later : last ≤ now) where
  later-Inv : (b : RetryBudget) → Inv k limit b last log → Inv k limit b now log
  later-Inv b v = record {
    same_max = v.same_max;
    tracks = Tracks-later retry_budget_window last now log (failures_of k b) later v.tracks;
    bounded = v.bounded;
  }

  prune-Inv :
      (d : Text) (b : RetryBudget) → Inv k limit b last log → Inv k limit (prune now d b).1 now log
  unfolding recent
  prune-Inv d b v = elim (Bool-cases (text_eq d k)) [
    | inl same ↦
        let e : failures_of k (prune now d b).1 ≡ recent now k b =
          subst (λ x. failures_of x (prune now d b).1 ≡ recent now x b) ((text_eq_iff d k).0 same)
            (failures_of-prune now d b) in
        record {
          same_max = (prune_frame now d b).0 ∙ v.same_max;
          tracks =
              subst (Tracks retry_budget_window now log) (sym e)
                (Tracks-prune retry_budget_window last now log (failures_of k b) later v.tracks);
          bounded = v.bounded;
        }
    | inr other ↦ record {
      same_max = (prune_frame now d b).0 ∙ v.same_max;
      tracks =
          subst (Tracks retry_budget_window now log) (sym (failures_of-prune_ne now d b k other))
            (later-Inv b v).tracks;
      bounded = v.bounded;
    }
  ]

  -- Asking changes nothing that the invariant says, and what it allows leaves room for one more.
  allow_key-Inv :
      (d : Text) (b : RetryBudget)
      → Inv k limit b last log
      → Inv k limit (allow_key now d b).1 now log
  allow_key-Inv d b v = elim (allow_key_cases now d b) [
    | inl (until, _, _, e) ↦ rw e (later-Inv b v)
    | inr (b', same_failures, same_max, _, e) ↦ rw e (
        prune-Inv d b' (record {
          same_max = same_max ∙ v.same_max;
          tracks =
              subst (Tracks retry_budget_window last log)
                (sym (failures_of-lookup k b b' (ap (lookup k) same_failures))) v.tracks;
          bounded = v.bounded;
        }))
  ]

  room :
      (b : RetryBudget)
      → (allow_key now k b).0 ≡ allowed
      → length (recent now k (allow_key now k b).1) < b.max
  unfolding recent verdict
  room b h = elim (allow_key_cases now k b) [
    | inl (until, _, _, e) ↦ absurd (ground (arith, e))
    | inr (b', _, _, _, e) ↦
        let kept = recent now k b' in
        let few : length kept < b.max = ground (arith, e) in
        rw (e, failures_of-prune now k b')
          (omega (arith, length-keep_if-le (within retry_budget_window now) kept))
  ]

  record-Inv :
      (d : Text) (b : RetryBudget)
      → (text_eq d k ≡ true → length (recent now k b) < b.max)
      → Inv k limit b now log
      → Inv k limit (record_failure_key now d b) now (if text_eq d k then now ∷ log else log)
  unfolding recent
  record-Inv d b space v = elim (Bool-cases (text_eq d k)) [
    | inl same ↦
        let e : failures_of k (record_failure_key now d b) ≡ recent now k b ++ now ∷ [] =
          subst (λ x. failures_of x (record_failure_key now d b) ≡ recent now x b ++ now ∷ [])
            ((text_eq_iff d k).0 same) (failures_of-record now d b) in
        rw same (record {
          same_max = (record_frame now d b).0 ∙ v.same_max;
          tracks = subst (Tracks retry_budget_window now (now ∷ log)) (sym e) (
              Tracks-append retry_budget_window now log (recent now k b) (
                Tracks-prune retry_budget_window now now log (failures_of k b) (omega arith)
                  v.tracks));
          bounded =
              admit-bounded retry_budget_window limit now now log (failures_of k b) (omega arith)
                v.tracks (omega (arith, space same, v.same_max)) v.bounded;
        })
    | inr other ↦ rw other (record {
      same_max = (record_frame now d b).0 ∙ v.same_max;
      tracks =
          subst (Tracks retry_budget_window now log) (sym (failures_of-record_ne now d b k other))
            v.tracks;
      bounded = v.bounded;
    })
  ]

  attempt-Held :
      (name : Text) (b : RetryBudget)
      → Inv k limit b last log
      → Held k limit now
          (charge k now (attempt_fails name) (some b) log)
          (attempt now name (some b))
  unfolding attempt allow charge record_failure
  attempt-Held name b v = elim (Bool-cases (is_allowed (allow_key now d b).0)) [
    | inl ok ↦ rw (ok, attempt) (record-Inv d asked (space ok) (allow_key-Inv d b v))
    | inr refusal ↦ rw (refusal, attempt) (allow_key-Inv d b v)
  ]
    where
      d : Text
      d = budget_key name

      asked : RetryBudget
      asked = (allow_key now d b).1

      space :
          is_allowed (allow_key now d b).0 ≡ true
          → text_eq d k ≡ true
          → length (recent now k asked) < asked.max
      space ok same =
          let fits : length (recent now k asked) < b.max =
            subst
              (λ x.
                (allow_key now x b).0 ≡ allowed
                → length (recent now k (allow_key now x b).1) < b.max)
              (sym ((text_eq_iff d k).0 same)) (room b)
              (allowed_of_is_allowed (allow_key now d b).0 ok) in
          omega (arith, fits, v.same_max, (allow_key-Inv d b v).same_max)

  block-Held :
      (name : Text) (until : ℕ) (b : RetryBudget)
      → Inv k limit b last log
      → Held k limit now log (block name until (some b))
  unfolding block
  block-Held name until b v =
      let barred : RetryBudget = record b { blocked = insert (budget_key name) until b.blocked } in
      record {
        same_max = v.same_max;
        tracks =
            subst (Tracks retry_budget_window now log) (sym (failures_of-lookup k b barred refl))
              (later-Inv b v).tracks;
        bounded = v.bounded;
      }

  reset-Held :
      (name : Text) (b : RetryBudget)
      → Inv k limit b last log
      → Held k limit now (if text_eq (budget_key name) k then [] else log) (reset name (some b))
  unfolding reset count_between
  reset-Held name b v = elim (Bool-cases (text_eq d k)) [
    | inl same ↦
        let gone : lookup k (remove d b.failures) ≡ none =
          subst (λ x. lookup x (remove d b.failures) ≡ none) ((text_eq_iff d k).0 same)
            (lookup-remove_self d b.failures) in
        rw same (record {
          same_max = v.same_max;
          tracks =
              subst (Tracks retry_budget_window now []) (sym (failures_of-none k cleared gone))
                (λ u h. refl);
          bounded = λ lo. omega arith;
        })
    | inr other ↦ rw other (record {
      same_max = v.same_max;
      tracks =
          subst (Tracks retry_budget_window now log)
            (sym (failures_of-lookup k b cleared (lookup-remove_ne d k b.failures other)))
            (later-Inv b v).tracks;
      bounded = v.bounded;
    })
  ]
    where
      d : Text
      d = budget_key name

      cleared : RetryBudget
      cleared = record b { failures = remove d b.failures; blocked = remove d b.blocked }

  step-Held :
      (e : Event) (b : RetryBudget)
      → Inv k limit b last log
      → Held k limit now (charge k now e (some b) log) (step now e (some b))
  unfolding step charge
  step-Held (attempt_fails name) b v = attempt-Held name b v
  step-Held (rate_limited name until) b v = block-Held name until b v
  step-Held (succeeds name) b v = reset-Held name b v

charged-Held :
    (k : Text) (limit last : ℕ) (b : Option RetryBudget) (log : List ℕ) (events : List (ℕ × Event))
    → IsMonotone last events
    → Held k limit last log b
    → (lo : ℕ) → count_between lo (lo + retry_budget_window) (charged k b log events) ≤ limit
unfolding charged
charged-Held k limit last none log events m v lo = absurd v
charged-Held k limit last (some b) log [] m v lo = v.bounded lo
charged-Held k limit last (some b) log ((now, e) ∷ events) m v lo =
    charged-Held k limit now (step now e (some b)) (charge k now e (some b) log) events m.1
      (step-Held k limit last now log m.0 e b v) lo

-- Whatever happens to the other hostnames, and however often a hostname is tried, no hour holds
-- more than `max` failed attempts for it since its last success, while the clock does not run
-- backwards.
pub charged-ceiling :
    (max : ℕ) (k : Text) (events : List (ℕ × Event)) (lo : ℕ)
    → IsMonotone 0 events
    → count_between lo
        (lo + retry_budget_window)
        (charged k (some (new_retry_budget max)) [] events)
      ≤ max
unfolding new_retry_budget count_between
charged-ceiling max k events lo m =
    charged-Held k max 0 (some (new_retry_budget max)) [] events m
      (record {
        same_max = refl;
        tracks =
            subst (Tracks retry_budget_window 0 [])
              (sym (failures_of-none k (new_retry_budget max) (unfold lookup in refl)))
              (λ u h. refl);
        bounded = λ lo'. omega arith;
      })
      lo
