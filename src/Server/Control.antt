-- ===== src/Server/Control.antt =====
-- server/SimulationControl.py. `checkpoint` is one round of its loop for each wake-up: the flags
-- are what the round reads, and an await is where the coroutine stays until `changed` is set or
-- the delay is over.
pub mod Checkpoint
use snake_lab.Base.{
  ℕ, ◌%◌, Bool, true, false, ◌&&◌, ◌||◌, List, [], ◌∷◌, ltb, leb, ◌==◌, if◌then◌else◌,
}
use snake_lab.Base.Int.{pos}
use snake_lab.Base.Results.{Result, ok, err}
use snake_lab.Json.{Json, int}

-- MAX_MOVE_DELAY_MS and MOVE_DELAY_STEP_MS
abbrev pub max_move_delay_ms : ℕ
max_move_delay_ms = 100

abbrev pub move_delay_step_ms : ℕ
move_delay_step_ms = 20

pub record SimulationControl : Type 0 where
  pub paused : Bool
  pub cancel_requested : Bool
  pub move_delay_ms : ℕ
  pub changed : Bool

abbrev pub new_control : SimulationControl
new_control = record {
  paused = false;
  cancel_requested = false;
  move_delay_ms = 0;
  changed = false;
}

unfoldable pub diagnostic_mode : SimulationControl → Bool
diagnostic_mode c = ltb 0 c.move_delay_ms

unfoldable pub pause : SimulationControl → SimulationControl
pause c = record c { paused = true; changed = true }

unfoldable pub resume : SimulationControl → SimulationControl
resume c = record c { paused = false; changed = true }

unfoldable pub cancel : SimulationControl → SimulationControl
cancel c = record c { cancel_requested = true; changed = true }

-- The ValueError that `set_move_delay` raises.
pub data DelayError : Type 0 where
  bad_move_delay : DelayError

pub is_move_delay : ℕ → Bool
is_move_delay n = leb n max_move_delay_ms && (n % move_delay_step_ms == 0)

unfoldable pub set_move_delay :
    {F : Type 0} → Json F → SimulationControl → Result DelayError SimulationControl
set_move_delay (int (pos n)) c =
    if is_move_delay n
    then ok (record c { move_delay_ms = n; changed = true })
    else err bad_move_delay
set_move_delay _ c = err bad_move_delay

-- What a round of `checkpoint` comes to.
pub data Round : Type 0 where
  -- SimulationCancelled is raised.
  cancelled : Round
  -- `await self._changed.wait()`
  wait_for_change : Round
  -- `wait_for(self._changed.wait(), delay)`, in milliseconds; TimeoutError returns.
  wait_with_delay : ℕ → Round
  -- `await asyncio.sleep(0)`
  yield_once : Round

pub checkpoint_round : Bool → SimulationControl → Round × SimulationControl
checkpoint_round apply_delay c =
    let cleared : SimulationControl = record c { changed = false } in
    if c.cancel_requested
    then (Round.cancelled, cleared)
    else if c.paused
    then (Round.wait_for_change, cleared)
    else (let delay : ℕ = if apply_delay then c.move_delay_ms else 0 in
        if ltb 0 delay then (Round.wait_with_delay delay, cleared) else (Round.yield_once, cleared))

-- How an await ended: the event was set, or the time was over.
pub data Wake : Type 0 where
  changed timed_out : Wake

-- After an await: go round again, or return.
pub goes_round : Round → Wake → SimulationControl → Bool
goes_round Round.cancelled wake c = false
goes_round Round.wait_for_change wake c = true
goes_round (Round.wait_with_delay delay) Wake.changed c = true
goes_round (Round.wait_with_delay delay) Wake.timed_out c = false
goes_round Round.yield_once wake c = c.cancel_requested || c.paused

-- How a checkpoint ends, if it does within the listed wake-ups.
pub data Ending : Type 0 where
  returned raised still_waiting : Ending

pub ends_now : Round → Ending
ends_now Round.cancelled = Ending.raised
ends_now _ = Ending.still_waiting

-- Each wake-up is how the await of a round ended, and what the controls are by then.
pub checkpoint : Bool → SimulationControl → List (Wake × SimulationControl) → Ending
checkpoint apply_delay c [] = ends_now ((checkpoint_round apply_delay c).0)
checkpoint apply_delay c ((wake, c') ∷ rest) =
    let round = (checkpoint_round apply_delay c).0 in
    let again = checkpoint apply_delay c' rest in
    elim (ends_now round) [
      | Ending.raised ↦ Ending.raised
      | _ ↦ if goes_round round wake c' then again else Ending.returned
    ]
