-- ===== src/OnDemand/Index.antt =====
-- The certificate index of ondemand.go: for each on-demand hostname the end of its certificate, in
-- Unix seconds. The leader publishes the whole map; a follower compares it with what it has seen.
-- The decoded object
use go_certs_manager.Base.{
  Bool, List, Map, Option, Text, false, if◌then◌else◌, insert, keep_if, map, none, not, some, suc,
  to_lower, true, zero, ℕ, ◌*◌, ◌==◌,
}
use go_certs_manager.Budget.{second}
use go_certs_manager.Effects.{
  Content, Prog, Result, do_call, err, get_object, index_json, ok, on_ok, overwrite, put_object,
  ret, ◌>>=◌,
}
use go_certs_manager.Lease.{unix}
use go_certs_manager.OnDemand.{OnDemand, cert_index_key, entries, entry}

unfoldable pub read_index : Result Content → Option (Map ℕ)
read_index (err e) = none
read_index (ok (index_json m)) = some m
read_index (ok c) = none

-- publishIndex
unfoldable pub publish_index : OnDemand → Prog (Result (Unit {0}) × OnDemand)
unfolding entries
publish_index o = do
  put ← do_call (put_object (cert_index_key o) (index_json (entries o.index)) overwrite)
  on_ok put (λ e. ret (err e, record o { index_dirty = true }))
      λ _. ret (ok tt, record o { index_dirty = false })

unfoldable pub with_entry : Text → ℕ → OnDemand → OnDemand
unfolding entries
with_entry hostname t o = record o { index = some (insert (to_lower hostname) t (entries o.index)) }

-- noteIssued
unfoldable pub note_issued : Text → ℕ → OnDemand → Prog (Result (Unit {0}) × OnDemand)
unfolding with_entry publish_index
note_issued hostname not_after o = publish_index (with_entry hostname (unix not_after) o)

-- republishIndexIfDirty
unfoldable pub republish_index_if_dirty : OnDemand → Prog (Result (Unit {0}) × OnDemand)
unfolding publish_index
republish_index_if_dirty o = if o.index_dirty then publish_index o else ret (ok tt, o)

-- hydrateIndex
unfoldable pub hydrated : Option (Map ℕ) → OnDemand → OnDemand
hydrated none o = o
hydrated (some m) o = record o { index = some m }

unfoldable pub hydrate_index : OnDemand → Prog OnDemand
unfolding hydrated read_index
hydrate_index o = do
  body ← do_call (get_object (cert_index_key o))
  ret (hydrated (read_index body) o)

-- indexNotAfter
unfoldable pub index_not_after : OnDemand → Text → Option ℕ
unfolding entries entry
index_not_after o hostname = elim (entry (to_lower hostname) (entries o.index)) [
  | zero ↦ none
  | suc t ↦ some (suc t * second)
]

-- changedSince: the names whose entries differ, and every name where there is no index to compare.
unfoldable pub differs : Map ℕ → Map ℕ → Text → Bool
unfolding entry
differs published seen h = not (entry h published == entry h seen)

unfoldable pub compared : Option (Map ℕ) → List Text → OnDemand → List Text × OnDemand
unfolding differs entries
compared none names o = (names, o)
compared (some published) names o = (
  keep_if (differs published (entries o.index)) (map to_lower names),
  record o { index = some (entries o.index) },
)

unfoldable pub changed_since : List Text → OnDemand → Prog (List Text × OnDemand)
unfolding compared read_index
changed_since names o = do
  body ← do_call (get_object (cert_index_key o))
  ret (compared (read_index body) names o)

-- noteRefreshed
unfoldable pub refreshed : Option (Map ℕ) → Text → OnDemand → OnDemand
unfolding with_entry entry
refreshed none hostname o = o
refreshed (some published) hostname o = with_entry hostname (entry (to_lower hostname) published) o

unfoldable pub note_refreshed : Text → OnDemand → Prog OnDemand
unfolding refreshed read_index
note_refreshed hostname o = do
  body ← do_call (get_object (cert_index_key o))
  ret (refreshed (read_index body) hostname o)
