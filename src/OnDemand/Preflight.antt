-- ===== src/OnDemand/Preflight.antt =====
-- The DNS pre-flight of ondemand.go: whether a hostname points at the platform. Resolution is
-- resolvesTo, the default of `resolveFn`.
use go_certs_manager.Base.{
  Bool, List, Option, Text, [], any, codes, false, if◌then◌else◌, insert, lookup, ltb, none, remove,
  some, text_eq, to_lower, trim_suffix, true, ℕ, ◌+◌, ◌∷◌,
}
use go_certs_manager.Effects.{
  Error, Prog, Result, do_call, err, host_not_found, lookup_cname, lookup_host, ok, on_ok, ret,
  time_now, ◌>>=◌,
}
use go_certs_manager.OnDemand.{OnDemand, preflight_backoff}

-- Why a hostname is not ordered for; the source makes a text of it.
pub data Reason : Type 0 where
  recent_failure does_not_resolve : Reason
  resolves_elsewhere : List Text → Text → Reason

-- lookupSaysAbsent
unfoldable pub lookup_says_absent : Error → Bool
lookup_says_absent host_not_found = true
lookup_says_absent e = false

abbrev pub undotted : Text → Text
undotted name = trim_suffix (to_lower name) (codes ".")

unfoldable pub shares : List Text → List Text → Bool
shares ours theirs = any (λ a. any (text_eq a) ours) theirs

unfoldable pub is_cname : Text → Result Text → Bool
is_cname target (ok cname) = text_eq (undotted cname) target
is_cname target (err e) = false

unfoldable pub compare_hosts : Text → List Text → Result (List Text) → Option Reason
unfolding lookup_says_absent shares
compare_hosts target ours (err e) = if lookup_says_absent e then some does_not_resolve else none
compare_hosts target ours (ok theirs) =
    if shares ours theirs then none else some (resolves_elsewhere theirs target)

-- resolvesTo: `none` is the empty reason.
unfoldable pub resolves_to : Text → Text → Prog (Option Reason)
unfolding is_cname compare_hosts
resolves_to hostname target = do
  cname ← do_call (lookup_cname hostname)
  if is_cname target cname then ret none else (do
    ours ← do_call (lookup_host target)
    on_ok ours (λ e. ret none)
        λ addresses. (do
          theirs ← do_call (lookup_host hostname)
          ret (compare_hosts target addresses theirs)))

-- preflightOK once DNS has answered.
unfoldable pub resolved : Text → Option Reason → OnDemand → Prog (Option Reason × OnDemand)
resolved hostname none o = ret (none, record o { preflight = remove hostname o.preflight })
resolved hostname (some reason) o = do
  now ← do_call time_now
  ret (some reason, record o { preflight = insert hostname (now + preflight_backoff) o.preflight })

unfoldable pub resolve : Text → OnDemand → Prog (Option Reason × OnDemand)
unfolding resolves_to resolved
resolve hostname o = do
  reason ← resolves_to hostname (undotted o.cfg.expected_target)
  resolved hostname reason o

unfoldable pub resolve_unless : Option ℕ → Text → OnDemand → Prog (Option Reason × OnDemand)
unfolding resolve
resolve_unless none hostname o = resolve hostname o
resolve_unless (some until) hostname o = do
  now ← do_call time_now
  if ltb now until then ret (some recent_failure, o) else resolve hostname o

-- preflightOK: passed if there is no reason against it.
unfoldable pub preflight_ok : Text → OnDemand → Prog (Option Reason × OnDemand)
unfolding resolve_unless
preflight_ok hostname o = elim o.cfg.expected_target [
  | [] ↦ ret (none, o)
  | c ∷ s ↦ resolve_unless (lookup hostname o.preflight) hostname o
]
