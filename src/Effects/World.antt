-- ===== src/Effects/World.antt =====
-- A world that answers calls, and what happens when a program runs in it.
use go_certs_manager.Effects.{Call, Prog, Reply, call, ret}

-- How a world of state `W` answers.
abbrev pub Handler : Type 0 → Type 0
Handler W = (c : Call) → W → Reply c × W

unfoldable pub run : {A W : Type 0} → Handler W → Prog A → W → A × W
run h (ret a) w = (a, w)
run h (call c k) w = let (r, w') = h c w in run h (k r) w'
