-- ===== src/Lease/Takeover.antt =====
-- lease.go: what a node has been told by the time it writes, or removes, the lease object.
use go_certs_manager.Base.{
  Bool, Option, Text, arith, false, if◌then◌else◌, inl, inr, ltb, none, not, refl, some, text_eq,
  text_eq_iff, true, ℕ, ◌+◌, ◌≡◌, ◌≤◌, ◌⊎◌,
}
use go_certs_manager.Effects.{
  Call, Error, LeaseRecord, PutOptions, Reply, Result, create_only, do_call, err, get_object, is_ok,
  lease_json, ok, put_object, remove_object, ret, stat_object, time_now, ◌>>=◌,
}
use go_certs_manager.Effects.Logic.{Safe, Safe-if}
use go_certs_manager.Lease.{
  IssueLeaser, Release, acquire, decide, inspect, keeps, lease_key, nothing, parse_lease, read,
  read_result, release_lease, run_release, take_over, try_create, unix,
}

-- What an attempt has learnt: the first reading of the clock, the ETag, the record that was read
-- since, the clock since then, and whether its write went through.
pub record Attempt : Type 0 where
  pub started : Option ℕ
  pub etag : Option Text
  pub old : Option LeaseRecord
  pub looked : Option ℕ
  pub won : Bool

abbrev pub untried : Attempt
untried = record { started = none; etag = none; old = none; looked = none; won = false }

abbrev pub clocked : Attempt → ℕ → Attempt
clocked g n = elim g.started [
  | none ↦ record g { started = some n }
  | some t ↦ record g { looked = some n }
]

abbrev pub note_attempt : Attempt → (c : Call) → Reply c → Attempt
note_attempt g time_now n = clocked g n
note_attempt g (stat_object k) (ok info) = record g {
  etag = some info.etag;
  old = none;
  looked = none;
}
note_attempt g (get_object k) (ok (lease_json rec)) = record g { old = some rec; looked = none }
note_attempt g (put_object k c o) r = record g { won = is_ok r }
note_attempt g c r = g

-- The write is conditional: on the object's absence, or on the ETag that it had before a record
-- was read that has since expired.
abbrev pub IsGuarded : Attempt → PutOptions → Type 0
IsGuarded g o =
    (o ≡ create_only)
    ⊎ ((e : Text) × (old : LeaseRecord) × (now : ℕ) × (g.etag ≡ some e)
        × (g.old ≡ some old)
        × (g.looked ≡ some now)
        × (o ≡ record { if_none_match = false; if_match = e })
        × (old.expires_at ≤ unix now))

abbrev pub MayClaim : IssueLeaser → Text → Attempt → Call → Type 0
MayClaim l key g (put_object k c o) =
    (k ≡ key)
    × (g.won ≡ false)
    × ((t : ℕ) × (g.started ≡ some t)
        × (c ≡ lease_json (record { owner = l.node_id; expires_at = unix (t + l.ttl) })))
    × IsGuarded g o
MayClaim l key g (stat_object k) = k ≡ key
MayClaim l key g (get_object k) = k ≡ key
MayClaim l key g time_now = Unit {0}
MayClaim l key g c = ⊥

abbrev pub IsClaimed : Text → Attempt → Option Release → Type 0
IsClaimed key g none = g.won ≡ false
IsClaimed key g (some r) = (g.won ≡ true) × (r ≡ release_lease key)

module _ (l : IssueLeaser) (key : Text) (t : ℕ) where
  abbrev pub claim : LeaseRecord
  claim = record { owner = l.node_id; expires_at = unix (t + l.ttl) }

  claimed :
      (g : Attempt) (o : PutOptions) (r : Result (Unit {0}))
      → IsClaimed key
          (note_attempt g (put_object key (lease_json claim) o) r)
          (if is_ok r then some (release_lease key) else none)
  claimed g o (ok done) = (refl, refl)
  claimed g o (err e) = refl

  decide-Safe :
      (e : Text) (now : ℕ) (old : LeaseRecord)
      → Safe
          (MayClaim l key)
          note_attempt
          (IsClaimed key)
          (record {
            started = some t;
            etag = some e;
            old = some old;
            looked = some now;
            won = false;
          })
          (decide key claim e now old)
  unfolding decide take_over
  decide-Safe e now old =
      Safe-if (MayClaim l key) note_attempt (IsClaimed key) _ (ret none) _
        (ltb (unix now) old.expires_at) (λ live. refl)
        (λ over. (
          (refl, refl, (t, refl, refl), inr (e, old, now, refl, refl, refl, refl, ground arith)),
          λ r.
              claimed
                (record {
                  started = some t;
                  etag = some e;
                  old = some old;
                  looked = some now;
                  won = false;
                })
                (record { if_none_match = false; if_match = e }) r,
        ))

  inspect-Safe :
      Safe
        (MayClaim l key)
        note_attempt
        (IsClaimed key)
        (record untried { started = some t })
        (inspect key claim)
  unfolding inspect read read_result parse_lease
  inspect-Safe = (
    refl,
    elim [
      | err e ↦ refl
      | ok info ↦ (
        refl,
        elim [
          | ok (lease_json old) ↦ (tt, λ now. decide-Safe info.etag now old)
          | ok _ ↦ refl
          | err e ↦ refl
        ],
      )
    ],
  )

-- Whatever the world replies, a leaser with a storage touches only the hostname's lease object; it
-- writes it at most once with success, with its own node and an expiry a TTL after the first
-- reading of the clock, and only on the condition that there is none, or that it still has the
-- ETag that it had before a record was read that has expired since by the clock; and it holds the
-- lease exactly if that write went through. (An empty ETag makes no condition.)
pub acquire-IsClaimed :
    (l : IssueLeaser) (domain : Text)
    → l.has_backend ≡ true
    → Safe
        (MayClaim l (lease_key l domain))
        note_attempt
        (IsClaimed (lease_key l domain))
        untried
        (acquire l domain)
unfolding acquire try_create
acquire-IsClaimed l domain backed =
    Safe-if (MayClaim l (lease_key l domain)) note_attempt (IsClaimed (lease_key l domain)) untried
      _ (ret (some nothing)) l.has_backend
      (λ b. (
        tt,
        λ now. (
          (refl, refl, (now, refl, refl), inl refl),
          elim [ ok done ↦ (refl, refl) | err e ↦ inspect-Safe l (lease_key l domain) now ],
        ),
      ))
      (λ unbacked. absurd (ground (arith, backed, unbacked)))

-- What a release has learnt: the last record that was read.
abbrev pub MayRelease : Text → Text → Option (Result LeaseRecord) → Call → Type 0
MayRelease node key g (get_object k) = k ≡ key
MayRelease node key g (remove_object k) =
    (k ≡ key)
    × (((rec : LeaseRecord) × (g ≡ some (ok rec)) × (rec.owner ≡ node))
        ⊎ ((e : Error) × (g ≡ some (err e))))
MayRelease node key g c = ⊥

abbrev pub note_record :
    Option (Result LeaseRecord) → (c : Call) → Reply c → Option (Result LeaseRecord)
note_record g (get_object k) r = some (read_result r)
note_record g c r = g

abbrev pub NoRecord : Option (Result LeaseRecord) → Unit {0} → Type 0
NoRecord g u = Unit {0}

-- Whatever the world replies, the release of a lease reads the lease object and removes it only if
-- the record read has the releasing node as its owner, or if no record could be read.
pub run_release-MayRelease :
    (node key : Text)
    → Safe (MayRelease node key) note_record NoRecord none (run_release node (release_lease key))
unfolding run_release read keeps
run_release-MayRelease node key = (refl, λ r. released (read_result r))
  where
    released :
        (r : Result LeaseRecord)
        → Safe
            (MayRelease node key)
            note_record
            NoRecord
            (some r)
            (if keeps node r then ret tt else (do done ← do_call (remove_object key); ret tt))
    released (err e) = ((refl, inr (e, refl)), λ done. tt)
    released (ok rec) =
        Safe-if (MayRelease node key) note_record NoRecord (some (ok rec)) (ret tt) _
          (not (text_eq rec.owner node)) (λ other. tt)
          (λ ours. (
            (refl, inl (rec, refl, (text_eq_iff rec.owner node).0 (ground (arith, ours)))),
            λ done. tt,
          ))

-- A leaser without a storage lets its node go on.
pub acquire-unbacked :
    (l : IssueLeaser) (domain : Text)
    → l.has_backend ≡ false
    → acquire l domain ≡ ret (some nothing)
unfolding acquire
acquire-unbacked l domain unbacked = rw (unbacked, acquire) refl
