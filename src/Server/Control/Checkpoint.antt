-- ===== src/Server/Control/Checkpoint.antt =====
-- What a checkpoint lets through, and which delays are accepted.
use snake_lab.Base.{ℕ, ◌≤◌, ◌*◌, ◌/◌, ◌≡◌, ◌≢◌, Bool, true, arith, List, [], ◌∷◌, All}
use snake_lab.Base.Int.{pos}
use snake_lab.Base.Results.{ok}
use snake_lab.Json.{Json, int}
use snake_lab.Server.Control.{
  SimulationControl, Wake, Ending, checkpoint_round, goes_round, ends_now, checkpoint,
  set_move_delay, is_move_delay,
}

abbrev pub IsPaused : Wake × SimulationControl → Type 0
IsPaused w = w.1.paused ≡ true

-- While the controls are paused at every wake-up, a checkpoint does not return: it waits, or it
-- raises the cancellation.
pub checkpoint-paused :
    (apply_delay : Bool) (c : SimulationControl) (wakes : List (Wake × SimulationControl))
    → c.paused ≡ true
    → All IsPaused wakes
    → checkpoint apply_delay c wakes ≢ Ending.returned
unfolding checkpoint checkpoint_round goes_round ends_now
checkpoint-paused apply_delay c [] p all = ground arith
checkpoint-paused apply_delay c ((wake, c') ∷ rest) p all =
    ground (arith, checkpoint-paused apply_delay c' rest all.0 all.1)

-- A checkpoint that is woken by a change, with the cancellation requested by then, raises it.
pub checkpoint-cancelled :
    (apply_delay : Bool) (c c' : SimulationControl) (rest : List (Wake × SimulationControl))
    → c'.cancel_requested ≡ true
    → checkpoint apply_delay c ((Wake.changed, c') ∷ rest) ≡ Ending.raised
unfolding checkpoint checkpoint_round goes_round ends_now
checkpoint-cancelled apply_delay c c' [] cancelled = ground arith
checkpoint-cancelled apply_delay c c' (w ∷ rest) cancelled = ground arith

-- The delays that are accepted are the multiples of 20 up to 100, and an accepted one is set.
pub set_move_delay-ok :
    (F : Type 0) (n k : ℕ) (c : SimulationControl)
    → n ≡ 20 * k
    → k ≤ 5
    → set_move_delay {F = F} (int (pos n)) c ≡ ok (record c { move_delay_ms = n; changed = true })
unfolding set_move_delay is_move_delay
set_move_delay-ok F n k c h b = ground arith

-- A delay that is set lies within the bounds, in steps of 20 ms.
pub set_move_delay-bounds :
    {F : Type 0} (j : Json F) (c c' : SimulationControl)
    → set_move_delay j c ≡ ok c'
    → (k : ℕ) × (k ≤ 5) × (c'.move_delay_ms ≡ 20 * k)
unfolding set_move_delay is_move_delay
set_move_delay-bounds j c c' h = (c'.move_delay_ms / 20, ground arith, ground arith)
