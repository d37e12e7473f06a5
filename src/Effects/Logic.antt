-- ===== src/Effects/Logic.antt =====
-- A logic for `Prog`. `Safe may learn P g m`: whatever the world replies, each call of `m` is one
-- that `may` allows after what has been learnt so far, and what has been learnt at the end and the
-- result satisfy `P`.
use go_certs_manager.Base.{Bool, false, if◌then◌else◌, refl, true, ◌≡◌}
use go_certs_manager.Effects.{Call, Prog, Reply, call, ret, ◌>>=◌}

module _ {G : Type 0} (may : G → Call → Type 0) (learn : G → (c : Call) → Reply c → G) where
  abbrev pub Safe : {A : Type 0} → (G → A → Type 0) → G → Prog A → Type 0
  Safe P g (ret a) = P g a
  Safe P g (call c k) = may g c × ((r : Reply c) → Safe P (learn g c r) (k r))

  pub Safe-bind :
      {A B : Type 0} (Q : G → A → Type 0) (P : G → B → Type 0) (f : A → Prog B) (g : G) (m : Prog A)
      → Safe Q g m
      → ((h : G) (a : A) → Q h a → Safe P h (f a))
      → Safe P g (m >>= f)
  Safe-bind Q P f g (ret a) s k = k g a s
  Safe-bind Q P f g (call c m) s k = (s.0, λ r. Safe-bind Q P f (learn g c r) (m r) (s.1 r) k)

  pub Safe-mono :
      {A : Type 0} (Q P : G → A → Type 0) (g : G) (m : Prog A)
      → Safe Q g m
      → ((h : G) (a : A) → Q h a → P h a)
      → Safe P g m
  Safe-mono Q P g (ret a) s k = k g a s
  Safe-mono Q P g (call c m) s k = (s.0, λ r. Safe-mono Q P (learn g c r) (m r) (s.1 r) k)

  -- A test is decided once, for the program that it chooses.
  pub Safe-if :
      {A : Type 0} (P : G → A → Type 0) (g : G) (p q : Prog A) (b : Bool)
      → (b ≡ true → Safe P g p)
      → (b ≡ false → Safe P g q)
      → Safe P g (if b then p else q)
  Safe-if P g p q true yes' no' = yes' refl
  Safe-if P g p q false yes' no' = no' refl

-- What holds of a program under one discipline carries over to another that what has been learnt
-- relates it to.
pub Safe-along :
    {G H A : Type 0} (may : G → Call → Type 0) (learn : G → (c : Call) → Reply c → G)
    (may' : H → Call → Type 0) (learn' : H → (c : Call) → Reply c → H) (Q : G → A → Type 0)
    (P : H → A → Type 0) (R : G → H → Type 0)
    → ((g : G) (h : H) (c : Call) → R g h → may g c → may' h c)
    → ((g : G) (h : H) (c : Call) (r : Reply c) → R g h → may g c → R (learn g c r) (learn' h c r))
    → ((g : G) (h : H) (a : A) → R g h → Q g a → P h a)
    → (g : G) (h : H) (m : Prog A) → R g h
    → Safe may learn Q g m
    → Safe may' learn' P h m
Safe-along may learn may' learn' Q P R allows keeps ends g h (ret a) e s = ends g h a e s
Safe-along may learn may' learn' Q P R allows keeps ends g h (call c m) e s = (
  allows g h c e s.0,
  λ r.
      Safe-along may learn may' learn' Q P R allows keeps ends (learn g c r) (learn' h c r) (m r)
        (keeps g h c r e s.0) (s.1 r),
)

-- For a discipline that needs to learn nothing, and for a result of which nothing is said.
abbrev pub forget : Unit {0} → (c : Call) → Reply c → Unit {0}
forget g c r = tt

abbrev pub Anything : {A : Type 0} → Unit {0} → A → Type 0
Anything g a = Unit {0}
