-- ===== src/Node/Looks.antt =====
-- The handshake path of manager.go only looks: getCertificate and what it calls.
-- The calls of a handshake: it reads storage, asks for the time and for leadership, and waits.
use go_certs_manager.Base.{Bool, Option, Text, false, if◌then◌else◌, none, some, suc, true, zero, ℕ}
use go_certs_manager.CertCache.{absent_from_storage, get, recent_miss, refresh}
use go_certs_manager.CertCache.Reads.{IsRead, refresh-IsRead}
use go_certs_manager.Effects.{
  Call, Certificate, Prog, Result, ask_leader, do_call, err, get_object, ok, on_ok, ret, sleep,
  time_now, ◌>>=◌,
}
use go_certs_manager.Effects.Logic.{Anything, Safe, Safe-along, Safe-bind, forget}
use go_certs_manager.Manager.{Manager, is_leader}
use go_certs_manager.Node.{Node, refresh_node, with_cache}
use go_certs_manager.Node.Handshake.{
  Fetched, await_certificate, await_if, awaited, fetched, follow_certificate, follow_read,
  get_certificate, handshake_wait_of, lead_certificate, note_read, read_missing,
}
use go_certs_manager.Node.Waiting.{Clock, IsOver, MayWait, await_certificate-IsOver, note_clock}

abbrev pub MayLook : Unit {0} → Call → Type 0
MayLook u (get_object k) = Unit {0}
MayLook u time_now = Unit {0}
MayLook u ask_leader = Unit {0}
MayLook u (sleep d) = Unit {0}
MayLook u c = ⊥

abbrev pub Looks : {A : Type 0} → Prog A → Type 0
Looks m = Safe MayLook forget Anything tt m

Looks-bind :
    {A B : Type 0} (f : A → Prog B) (m : Prog A)
    → Looks m
    → ((a : A) → Looks (f a))
    → Looks (m >>= f)
Looks-bind f m s k = Safe-bind MayLook forget Anything Anything f tt m s (λ g a q. k a)

pub Looks-if :
    {A : Type 0} (b : Bool) (p q : Prog A) → Looks p → Looks q → Looks (if b then p else q)
Looks-if true p q s t = s
Looks-if false p q s t = t

read_looks : (c : Call) (u v : Unit {0}) → IsRead u c → MayLook v c
read_looks (get_object k) u v m = tt
read_looks c u v m = absurd m

wait_looks : (c : Call) (g : Clock) (v : Unit {0}) → MayWait g c → MayLook v c
wait_looks time_now g v m = tt
wait_looks ask_leader g v m = tt
wait_looks (sleep d) g v m = tt
wait_looks (get_object k) g v m = tt
wait_looks c g v m = absurd m

refresh_node-Looks : (host : Text) (n : Node) → Looks (refresh_node host n)
unfolding refresh_node
refresh_node-Looks host n =
    Looks-bind (λ x. ret (x.0, with_cache x.1 n))
      (refresh n.manager.key_store host n.manager.cert_cache)
      (Safe-along IsRead forget MayLook forget Anything Anything (λ u g. Unit {0})
        (λ u g c e m. read_looks c u g m) (λ u g c r e m. tt) (λ u g x e a. tt) tt tt
        (refresh n.manager.key_store host n.manager.cert_cache) tt
        (refresh-IsRead n.manager.key_store host n.manager.cert_cache))
      (λ x. tt)

is_leader-Looks : (m : Manager) → Looks (is_leader m)
unfolding is_leader
is_leader-Looks m = Looks-if m.clustered (do_call ask_leader) (ret true) (tt, λ r. tt) tt

read_missing-Looks : (domain : Text) (n : Node) → Looks (read_missing domain n)
unfolding read_missing
read_missing-Looks domain n = (
  tt,
  λ now.
      Looks-if (recent_miss now domain n.manager.cert_cache) (ret (none, n))
        (refresh_node domain n >>= note_read domain) tt
        (Looks-bind (note_read domain) (refresh_node domain n) (refresh_node-Looks domain n) seen),
)
  where
    seen : (x : Result Certificate × Node) → Looks (note_read domain x)
    seen (ok cert, n') = tt
    seen (err e, n') = (tt, λ now. tt)

follow_read-Looks : (domain : Text) (n : Node) → Looks (follow_read domain n)
unfolding follow_read
follow_read-Looks domain n = looked (get domain n.manager.cert_cache)
  where
    looked :
        (found : Option Certificate)
        → Looks (elim found [ some cert ↦ ret (some cert, n) | none ↦ read_missing domain n ])
    looked (some cert) = tt
    looked none = read_missing-Looks domain n

module _ (others : ℕ → Node → Node) where
  await_certificate-Looks :
      (domain : Text) (limit : ℕ) (n : Node) → Looks (await_certificate others domain limit n)
  await_certificate-Looks domain limit n =
      Safe-along MayWait note_clock MayLook forget IsOver Anything (λ g u. Unit {0})
        (λ g u c e m. wait_looks c g u m) (λ g u c r e m. tt) (λ g u x e a. tt) clock tt
        (await_certificate others domain limit n) tt
        (await_certificate-IsOver others domain limit n clock)
    where
      clock : Clock
      clock = record { regular = true; low = 0 }

  await_if-Looks :
      (domain : Text) (wait : ℕ) (r : Bool) (n : Node) → Looks (await_if others domain wait r n)
  unfolding await_if
  await_if-Looks domain zero r n = tt
  await_if-Looks domain (suc w) r n =
      Looks-bind (λ got. ret (awaited others r n got)) (await_certificate others domain (suc w) n)
        (await_certificate-Looks domain (suc w) n) (λ got. tt)

  lead_certificate-Looks :
      (domain : Text) (od : Bool) (wait : ℕ) (n : Node)
      → Looks (lead_certificate others domain od wait n)
  unfolding lead_certificate
  lead_certificate-Looks domain od wait n =
      Looks-if od (refresh_node domain n >>= after) (await_if others domain wait true n)
        (Looks-bind after (refresh_node domain n) (refresh_node-Looks domain n) seen)
        (await_if-Looks domain wait true n)
    where
      after : Result Certificate × Node → Prog Fetched
      after x =
          on_ok x.0
            (λ e.
              if absent_from_storage e
              then await_if others domain wait true x.1
              else ret (fetched none false x.1))
            λ cert. ret (fetched (some cert) false x.1)

      seen : (x : Result Certificate × Node) → Looks (after x)
      seen (ok cert, n') = tt
      seen (err e, n') =
          Looks-if (absent_from_storage e) (await_if others domain wait true n')
            (ret (fetched none false n')) (await_if-Looks domain wait true n') tt

  follow_certificate-Looks :
      (domain : Text) (wait : ℕ) (n : Node) → Looks (follow_certificate others domain wait n)
  unfolding follow_certificate
  follow_certificate-Looks domain wait n =
      Looks-bind after (follow_read domain (others 0 n)) (follow_read-Looks domain (others 0 n))
        seen
    where
      after : Option Certificate × Node → Prog Fetched
      after x = elim x.0 [
        | some cert ↦ ret (fetched (some cert) false x.1)
        | none ↦ await_if others domain wait false x.1
      ]

      seen : (x : Option Certificate × Node) → Looks (after x)
      seen (some cert, n') = tt
      seen (none, n') = await_if-Looks domain wait false n'

  pub get_certificate-Looks :
      (domain : Text) (od : Bool) (n : Node) → Looks (get_certificate others domain od n)
  unfolding get_certificate
  get_certificate-Looks domain od n = looked (get domain n.manager.cert_cache)
    where
      wait : ℕ
      wait = handshake_wait_of od n

      missing : Prog Fetched
      missing = do
        leader ← is_leader n.manager
        if leader
            then lead_certificate others domain od wait n
            else follow_certificate others domain wait n

      looked :
          (found : Option Certificate)
          → Looks (elim found [ some cert ↦ ret (fetched (some cert) false n) | none ↦ missing ])
      looked (some cert) = tt
      looked none =
          Looks-bind
            (λ leader.
              if leader
              then lead_certificate others domain od wait n
              else follow_certificate others domain wait n)
            (is_leader n.manager) (is_leader-Looks n.manager)
            (λ leader.
              Looks-if leader (lead_certificate others domain od wait n)
                (follow_certificate others domain wait n) (lead_certificate-Looks domain od wait n)
                (follow_certificate-Looks domain wait n))
