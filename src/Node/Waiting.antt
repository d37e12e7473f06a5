-- ===== src/Node/Waiting.antt =====
-- The wait of awaitCertificate in manager.go ends.
use go_certs_manager.Base.{
  Bool, Option, Text, arith, false, if◌then◌else◌, leb, ltb, none, refl, some, subst, suc, sym,
  true, zero, ℕ, ◌&&◌, ◌*◌, ◌+◌, ◌-◌, ◌≡◌, ◌≤◌,
}
use go_certs_manager.Budget.{second}
use go_certs_manager.CertCache.{get, refresh}
use go_certs_manager.CertCache.Reads.{IsRead, refresh-IsRead}
use go_certs_manager.Effects.{
  Call, Certificate, Prog, Reply, Result, ask_leader, do_call, err, get_object, ok, on_ok, ret,
  sleep, time_now, ◌>>=◌,
}
use go_certs_manager.Effects.Logic.{Anything, Safe, Safe-along, Safe-bind, Safe-if, forget}
use go_certs_manager.Manager.{is_leader}
use go_certs_manager.Node.{Node, refresh_node, with_cache}
use go_certs_manager.Node.Handshake.{await_certificate, await_polls, polls_for}

-- The clock as it has been read: whether every reading was at least the last one and what was slept
-- since, and the time that has surely come.
pub record Clock : Type 0 where
  pub regular : Bool
  pub low : ℕ

abbrev pub note_clock : Clock → (c : Call) → Reply c → Clock
note_clock g time_now t = record { regular = g.regular && leb g.low t; low = t }
note_clock g (sleep d) r = record { regular = g.regular; low = g.low + d }
note_clock g c r = g

-- The calls of a wait.
abbrev pub MayWait : Clock → Call → Type 0
MayWait g time_now = Unit {0}
MayWait g (sleep d) = d ≤ second
MayWait g ask_leader = Unit {0}
MayWait g (get_object k) = Unit {0}
MayWait g c = ⊥

-- On a clock that does not run backwards and does not stand still over a sleep, the wait has come
-- to an end.
abbrev pub IsOver : Clock → Option (Option Certificate × Node) → Type 0
IsOver g r = g.regular ≡ true → ¬ (r ≡ none)

read_waits : (c : Call) (u : Unit {0}) (g : Clock) → IsRead u c → MayWait g c
read_waits (get_object k) u g m = tt
read_waits c u g m = absurd m

read_still :
    (c : Call) (r : Reply c) (u : Unit {0}) (g0 g : Clock)
    → g ≡ g0
    → IsRead u c
    → note_clock g c r ≡ g0
read_still (get_object k) r u g0 g e m = e
read_still c r u g0 g e m = absurd m

refresh_node-still :
    (host : Text) (n : Node) (g0 : Clock)
    → Safe MayWait note_clock (λ g x. g ≡ g0) g0 (refresh_node host n)
unfolding refresh_node
refresh_node-still host n g0 =
    Safe-bind MayWait note_clock (λ g x. g ≡ g0) (λ g x. g ≡ g0) (λ x. ret (x.0, with_cache x.1 n))
      g0 (refresh n.manager.key_store host n.manager.cert_cache)
      (Safe-along IsRead forget MayWait note_clock Anything (λ g x. g ≡ g0) (λ u g. g ≡ g0)
        (λ u g c e m. read_waits c u g m) (λ u g c r e m. read_still c r u g0 g e m)
        (λ u g x e a. e) tt g0 (refresh n.manager.key_store host n.manager.cert_cache) refl
        (refresh-IsRead n.manager.key_store host n.manager.cert_cache))
      (λ g x a. a)

module _ (others : ℕ → Node → Node) (leader : Bool) (domain : Text) (deadline : ℕ) where
  -- Enough polls are left for the time to the deadline, which has not surely come.
  abbrev Reaches : ℕ → Clock → Type 0
  Reaches k g = (g.low ≤ deadline) × (g.regular ≡ true → deadline + second ≤ g.low + k * second)

  nap : ℕ → ℕ
  nap now = if ltb (deadline - now) second then deadline - now else second

  nap_short : (now : ℕ) → nap now ≤ second
  unfolding nap
  nap_short now = ground arith

  Reaches-nap :
      (k now : ℕ) (g : Clock)
      → leb deadline now ≡ false
      → Reaches (suc k) g
      → Reaches k (note_clock (note_clock g time_now now) (sleep (nap now)) true)
  unfolding nap
  Reaches-nap k now g early reach =
      (ground (arith, early), λ regular. ground (arith, early, reach.1, regular))

  ended : (g : Clock) (x : Option Certificate × Node) → IsOver g (some x)
  ended g x regular same = absurd (ground (arith, same))

  -- One poll, where what comes after it is over.
  one_poll-IsOver :
      (k : ℕ) (n : Node) (g : Clock)
      → ((n1 : Node) (h : Clock)
          → Reaches k h
          → Safe MayWait note_clock IsOver h (await_polls others k leader domain deadline n1))
      → Reaches (suc k) g
      → Safe MayWait note_clock IsOver g (await_polls others (suc k) leader domain deadline n)
  unfolding await_polls nap
  one_poll-IsOver k n g later reach = (
    tt,
    λ now.
        Safe-if MayWait note_clock IsOver (note_clock g time_now now) (ret (some (none, n)))
          (do running ← do_call (sleep (nap now)); woken running) (leb deadline now)
          (λ late. ended (note_clock g time_now now) (none, n))
          (λ early.
            (nap_short now, λ running. awake now running (Reaches-nap k now g early reach))),
  )
    where
      polled : Node → Prog (Option (Option Certificate × Node))
      polled n1 = await_polls others k leader domain deadline n1

      refreshed' : Node → Prog (Option (Option Certificate × Node))
      refreshed' n1 = do
        (found, n2) ← refresh_node domain n1
        on_ok found (λ e. polled n2) λ cert. ret (some (some cert, n2))

      looked : Option Certificate → Node → Prog (Option (Option Certificate × Node))
      looked found n1 = elim found [
        | some cert ↦ ret (some (some cert, n1))
        | none ↦ if leader then polled n1 else refreshed' n1
      ]

      woken : Bool → Prog (Option (Option Certificate × Node))
      woken running =
          if running
          then looked (get domain (others k n).manager.cert_cache) (others k n)
          else ret (some (none, n))

      after_read :
          (h : Clock) (x : Result Certificate × Node)
          → Reaches k h
          → Safe MayWait note_clock IsOver h
              (on_ok x.0 (λ e. polled x.1) λ cert. ret (some (some cert, x.1)))
      after_read h (ok cert, n2) r = ended h (some cert, n2)
      after_read h (err e, n2) r = later n2 h r

      seen :
          (h : Clock) (found : Option Certificate) (n1 : Node)
          → Reaches k h
          → Safe MayWait note_clock IsOver h (looked found n1)
      seen h (some cert) n1 r = ended h (some cert, n1)
      seen h none n1 r =
          Safe-if MayWait note_clock IsOver h (polled n1) (refreshed' n1) leader
            (λ lead. later n1 h r)
            (λ follow.
              Safe-bind MayWait note_clock (λ h' x. h' ≡ h) IsOver
                (λ x. on_ok x.0 (λ e. polled x.1) λ cert. ret (some (some cert, x.1))) h
                (refresh_node domain n1) (refresh_node-still domain n1 h)
                (λ h' x same. after_read h' x (subst (Reaches k) (sym same) r)))

      awake :
          (now : ℕ) (running : Bool)
          → Reaches k (note_clock (note_clock g time_now now) (sleep (nap now)) running)
          → Safe MayWait note_clock IsOver
              (note_clock (note_clock g time_now now) (sleep (nap now)) running)
              (woken running)
      awake now false r =
          ended (note_clock (note_clock g time_now now) (sleep (nap now)) false) (none, n)
      awake now true r =
          seen (note_clock (note_clock g time_now now) (sleep (nap now)) true)
            (get domain (others k n).manager.cert_cache) (others k n) r

  await_polls-IsOver :
      (k : ℕ) (n : Node) (g : Clock)
      → Reaches k g
      → Safe MayWait note_clock IsOver g (await_polls others k leader domain deadline n)
  unfolding await_polls
  await_polls-IsOver zero n g reach =
      λ regular same. absurd (ground (arith, reach.0, reach.1 regular))
  await_polls-IsOver (suc k) n g reach =
      one_poll-IsOver k n g (λ n1 h r. await_polls-IsOver k n1 h r) reach

-- awaitCertificate asks for nothing but the time, leadership and the reads of a refresh, and sleeps
-- at most a second at a time; and it ends: on any clock that never runs back and has moved on by
-- what was slept, the polls allowed for the wait are enough, whatever storage and the node's other
-- goroutines do.
pub await_certificate-IsOver :
    (others : ℕ → Node → Node) (domain : Text) (limit : ℕ) (n : Node) (g : Clock)
    → Safe MayWait note_clock IsOver g (await_certificate others domain limit n)
unfolding await_certificate is_leader
await_certificate-IsOver others domain limit n g = (
  tt,
  λ now.
      Safe-bind MayWait note_clock (λ h x. h ≡ note_clock g time_now now) IsOver
        (λ leader. await_polls others (polls_for limit) leader domain (now + limit) n)
        (note_clock g time_now now) (is_leader n.manager)
        (Safe-if MayWait note_clock (λ h x. h ≡ note_clock g time_now now)
          (note_clock g time_now now) (do_call ask_leader) (ret true) n.manager.clustered
          (λ c. (tt, λ r. refl)) (λ c. refl))
        (λ h leader same.
          await_polls-IsOver others leader domain (now + limit) (polls_for limit) n h (
            subst (Reaches others leader domain (now + limit) (polls_for limit)) (sym same)
              (omega arith, λ regular. omega arith))),
)
