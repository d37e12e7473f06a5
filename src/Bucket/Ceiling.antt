-- ===== src/Bucket/Ceiling.antt =====
-- The ceiling that tokenBucket of ondemand.go promises.
use go_certs_manager.Base.{
  ℕ, ◌+◌, ◌≤◌, ◌≡◌, refl, List, [], ◌∷◌, arith, leb, if◌then◌else◌, length, keep_if, Bool-cases,
  inl, inr,
}
use go_certs_manager.Bucket.{TokenBucket, new_token_bucket, take}
use go_certs_manager.Window.{
  within, count_between, Tracks, Tracks-prune, Tracks-append, admit-bounded,
}

-- The times at which `take` granted a token, newest first, in a history of calls.
unfoldable pub grants : TokenBucket → List ℕ → List ℕ → List ℕ
grants b given [] = given
grants b given (now ∷ calls) =
    let (b', granted) = take now b in grants b' (if granted then now ∷ given else given) calls

-- The clock does not run backwards.
abbrev pub IsMonotone : ℕ → List ℕ → Type 0
IsMonotone last [] = Unit {0}
IsMonotone last (now ∷ calls) = (last ≤ now) × IsMonotone now calls

record Inv (b : TokenBucket) (last : ℕ) (given : List ℕ) : Type 0 where
  tracks : Tracks b.window last given b.events
  bounded : (lo : ℕ) → count_between lo (lo + b.window) given ≤ b.max

take-Inv :
    (b : TokenBucket) (last now : ℕ) (given : List ℕ)
    → last ≤ now
    → Inv b last given
    → Inv (take now b).0 now (if (take now b).1 then now ∷ given else given)
unfolding take
take-Inv b last now given h v =
    let kept = keep_if (within b.window now) b.events in
    let pruned = Tracks-prune b.window last now given b.events h v.tracks in
    elim (Bool-cases (leb b.max (length kept))) [
      | inl full ↦ rw (full) (record { tracks = pruned; bounded = v.bounded })
      | inr room ↦ rw (room) (record {
        tracks = Tracks-append b.window now given kept pruned;
        bounded =
            admit-bounded b.window b.max last now given b.events h v.tracks (ground arith)
              v.bounded;
      })
    ]

take-config :
    (now : ℕ) (b : TokenBucket) → ((take now b).0.max ≡ b.max) × ((take now b).0.window ≡ b.window)
unfolding take
take-config now b = ground arith

grants-bounded :
    (b : TokenBucket) (last : ℕ) (given calls : List ℕ)
    → IsMonotone last calls
    → Inv b last given
    → (lo : ℕ) → count_between lo (lo + b.window) (grants b given calls) ≤ b.max
unfolding grants
grants-bounded b last given [] m v lo = v.bounded lo
grants-bounded b last given (now ∷ calls) m v lo =
    let next = (take now b).0 in
    let rest =
      grants-bounded next now (if (take now b).1 then now ∷ given else given) calls m.1
        (take-Inv b last now given m.0 v) lo in
    let (same_max, same_window) = take-config now b in ground arith

-- However the calls come, while the clock does not run backwards, no window of the bucket's length
-- holds more granted tokens than `max`.
pub take-ceiling :
    (max window : ℕ) (calls : List ℕ) (lo : ℕ)
    → IsMonotone 0 calls
    → count_between lo (lo + window) (grants (new_token_bucket max window) [] calls) ≤ max
unfolding new_token_bucket count_between
take-ceiling max window calls lo m =
    grants-bounded _ 0 [] calls m (record { tracks = λ u h. refl; bounded = λ lo'. omega arith }) lo
