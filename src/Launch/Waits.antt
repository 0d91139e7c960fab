-- ===== src/Launch/Waits.antt =====
-- launch.py: the loops end. A round of a loop takes at least one tick of the clock, since it sleeps.
use qsa_hisparse.Prelude.{ℕ, ◌+◌, ◌≤◌, ◌≡◌, true, is_some}
use qsa_hisparse.Launch.Process.{Server}

abbrev pub IsTicking : Server → Type 0
IsTicking s = (i : ℕ) → s.clock i + 1 ≤ s.clock (i + 1)

-- From a round on, the server has exited.
abbrev pub ExitsBy : Server → ℕ → Type 0
ExitsBy s last = (i : ℕ) → last ≤ i → is_some (s.exit_state i) ≡ true
