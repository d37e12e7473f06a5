-- ===== src/Window.antt =====
-- Sliding windows: what a limiter that forgets old events still knows about all of them. Shared by
-- the retry budget (retry_budget.go) and the new-order bucket (ondemand.go).
use go_certs_manager.Base.{
  ℕ, suc, ◌+◌, ◌≤◌, ◌<◌, ◌≡◌, refl, Bool, ◌&&◌, List, [], ◌∷◌, ◌++◌, arith, ltb, leb, if◌then◌else◌,
  length, keep_if, Bool-cases, inl, inr,
}

-- `t.After(now.Add(-window))`: the event is not older than the window.
abbrev pub within : ℕ → ℕ → ℕ → Bool
within window now t = ltb now (t + window)

-- How many of the times lie after `lo` and not after `hi`.
unfoldable pub count_between : ℕ → ℕ → List ℕ → ℕ
count_between lo hi [] = 0
count_between lo hi (x ∷ xs) =
    if ltb lo x && leb x hi then suc (count_between lo hi xs) else count_between lo hi xs

-- The limiter's list `kept` tells as much as the full history `all` about every later window.
abbrev pub Tracks : ℕ → ℕ → List ℕ → List ℕ → Type 0
Tracks window last all kept =
    (u : ℕ)
    → last ≤ u
    → length (keep_if (within window u) kept) ≡ length (keep_if (within window u) all)

pub length-keep_if-append :
    (p : ℕ → Bool) (xs : List ℕ) (x : ℕ)
    → length (keep_if p (xs ++ x ∷ [])) ≡ length (keep_if p (x ∷ xs))
length-keep_if-append p [] x = refl
length-keep_if-append p (y ∷ xs) x = ground (arith, length-keep_if-append p xs x)

keep_if-keep_if :
    (window now u : ℕ) (xs : List ℕ)
    → now ≤ u
    → length (keep_if (within window u) (keep_if (within window now) xs))
      ≡ length (keep_if (within window u) xs)
keep_if-keep_if window now u [] h = refl
keep_if-keep_if window now u (x ∷ xs) h = ground (arith, keep_if-keep_if window now u xs h)

-- Dropping what is too old at `now` loses nothing that a later window counts.
pub Tracks-prune :
    (window last now : ℕ) (all kept : List ℕ)
    → last ≤ now
    → Tracks window last all kept
    → Tracks window now all (keep_if (within window now) kept)
Tracks-prune window last now all kept h t u hu =
    omega (arith, keep_if-keep_if window now u kept hu, t u (omega arith))

-- A new event goes into both.
pub Tracks-append :
    (window now : ℕ) (all kept : List ℕ)
    → Tracks window now all kept
    → Tracks window now (now ∷ all) (kept ++ now ∷ [])
Tracks-append window now all kept t u hu =
    rw (length-keep_if-append (within window u) kept now) (ground (arith, t u hu))

-- All events of a window that reaches back from `hi` at most `window` are recent at any `now ≤ hi`.
count_between-le :
    (window now lo : ℕ) (xs : List ℕ)
    → now ≤ lo + window
    → count_between lo (lo + window) xs ≤ length (keep_if (within window now) xs)
unfolding count_between
count_between-le window now lo [] h = omega arith
count_between-le window now lo (x ∷ xs) h = ground (arith, count_between-le window now lo xs h)

-- The limiter admits an event when fewer than `limit` recent ones are on its list: then no window
-- holds more than `limit`.
pub admit-bounded :
    (window limit last now : ℕ) (all kept : List ℕ)
    → last ≤ now
    → Tracks window last all kept
    → length (keep_if (within window now) kept) < limit
    → ((lo : ℕ) → count_between lo (lo + window) all ≤ limit)
    → (lo : ℕ) → count_between lo (lo + window) (now ∷ all) ≤ limit
unfolding count_between
admit-bounded window limit last now all kept h t room old lo =
    elim (Bool-cases (leb now (lo + window))) [
      | inl inside ↦
          ground (arith, t now h, old lo, count_between-le window now lo all (ground arith))
      | inr outside ↦ ground (arith, old lo)
    ]
