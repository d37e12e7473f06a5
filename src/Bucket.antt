-- ===== src/Bucket.antt =====
-- tokenBucket of ondemand.go: at most `max` first issuances in any window. A clock reading is an
-- argument of the call, one for both readings of `take`, which happen under one lock.
pub mod Ceiling
use go_certs_manager.Base.{
  ℕ, Bool, true, false, List, [], ◌∷◌, ◌++◌, leb, if◌then◌else◌, length, keep_if,
}
use go_certs_manager.Window.{within}

pub record TokenBucket : Type 0 where
  pub max : ℕ
  pub window : ℕ
  pub events : List ℕ

unfoldable pub new_token_bucket : ℕ → ℕ → TokenBucket
new_token_bucket max window = record { max = max; window = window; events = [] }

unfoldable pub take : ℕ → TokenBucket → TokenBucket × Bool
take now b =
    let kept = keep_if (within b.window now) b.events in
    if leb b.max (length kept)
    then (record b { events = kept }, false)
    else (record b { events = kept ++ now ∷ [] }, true)
