-- ===== src/Lease.antt =====
-- lease.go: the issuance lease, one object per hostname in the shared storage. A function of the
-- source that talks to storage is a `Prog`; the returned release func is a `Release`.
pub mod Takeover
use go_certs_manager.Base.{
  Bool, Option, Text, codes, false, if◌then◌else◌, ltb, none, not, some, text_eq, to_lower, ℕ, ◌*◌,
  ◌++◌, ◌+◌, ◌/◌,
}
use go_certs_manager.Budget.{second}
use go_certs_manager.Effects.{
  Content, LeaseRecord, Prog, Result, create_only, do_call, err, get_object, is_ok, lease_json, ok,
  on_ok, put_object, remove_object, ret, stat_object, time_now, unparseable, ◌>>=◌,
}

abbrev pub issue_lease_ttl : ℕ
issue_lease_ttl = 300 * second

-- time.Time.Unix
unfoldable pub unix : ℕ → ℕ
unix t = t / second

-- `backend == nil` is a leaser with no backend.
pub record IssueLeaser : Type 0 where
  pub has_backend : Bool
  pub prefix : Text
  pub node_id : Text
  pub ttl : ℕ

-- What the caller gets to run at the end: nothing, or the removal of the lease object.
pub data Release : Type 0 where
  nothing : Release
  release_lease : Text → Release

unfoldable pub lease_key : IssueLeaser → Text → Text
lease_key l domain = l.prefix ++ (codes "locks/issue/" ++ to_lower domain)

unfoldable pub try_create : Text → LeaseRecord → Prog Bool
try_create key rec = do put ← do_call (put_object key (lease_json rec) create_only); ret (is_ok put)

unfoldable pub take_over : Text → LeaseRecord → Text → Prog Bool
take_over key rec etag = do
  put ←
      do_call (put_object key (lease_json rec) (record { if_none_match = false; if_match = etag }))
  ret (is_ok put)

-- json.Unmarshal into a leaseRecord
unfoldable pub parse_lease : Content → Result LeaseRecord
parse_lease (lease_json rec) = ok rec
parse_lease _ = err unparseable

unfoldable pub read_result : Result Content → Result LeaseRecord
unfolding parse_lease
read_result (ok data') = parse_lease data'
read_result (err e) = err e

unfoldable pub read : Text → Prog (Result LeaseRecord)
unfolding read_result
read key = do got ← do_call (get_object key); ret (read_result got)

unfoldable pub decide : Text → LeaseRecord → Text → ℕ → LeaseRecord → Prog (Option Release)
unfolding take_over unix
decide key rec etag now existing =
    if ltb (unix now) existing.expires_at
    then ret none
    else (do won ← take_over key rec etag; ret (if won then some (release_lease key) else none))

-- The conflict branch of `acquire`: the ETag is taken before the record is read.
unfoldable pub inspect : Text → LeaseRecord → Prog (Option Release)
unfolding read decide
inspect key rec = do
  info ← do_call (stat_object key)
  on_ok info (λ _. ret none)
      λ i. do
        existing ← read key
        on_ok existing (λ _. ret none)
            λ old. do now ← do_call time_now; decide key rec i.etag now old

unfoldable pub acquire : IssueLeaser → Text → Prog (Option Release)
unfolding lease_key try_create inspect unix
acquire l domain =
    if l.has_backend
    then (do
      now ← do_call time_now
      let key = lease_key l domain
      let rec : LeaseRecord = record { owner = l.node_id; expires_at = unix (now + l.ttl) }
      created ← try_create key rec
      if created then ret (some (release_lease key)) else inspect key rec)
    else ret (some nothing)

-- The release func: it leaves the object alone only if it could read another owner in it.
unfoldable pub keeps : Text → Result LeaseRecord → Bool
keeps node (ok rec) = not (text_eq rec.owner node)
keeps node (err e) = false

unfoldable pub run_release : Text → Release → Prog (Unit {0})
unfolding read keeps
run_release node nothing = ret tt
run_release node (release_lease key) = do
  rec ← read key
  if keeps node rec then ret tt else (do _ ← do_call (remove_object key); ret tt)
