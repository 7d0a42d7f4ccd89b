-- ===== src/Zmq/Frame.antt =====
-- zmq/FrameTelemetry.py. `of_int` is Python's float(n), which raises OverflowError on an integer
-- that is too large; that error is `float_overflow`, and is no ProtocolError.
pub mod Roundtrip
use Prim.Native.String.{String}
use text.Mathlib.Text.{◌==◌}
use snake_lab.Base.{ℕ, Bool, true, false, Option, none, some, List, [], ◌∷◌, if◌then◌else◌}
use snake_lab.Base.Int.{ℤ, pos, ltb_ℤ}
use snake_lab.Base.Results.{Result, ok, err, ◌>>=◌, ◌>>◌, require, or_raise, map_err}
use snake_lab.Json.{Json, bool, int, float, str, obj, Fields, get, of_fields, has_exactly}
use snake_lab.Game.Moves.{Outcome, StepResult}
use snake_lab.Game.Snapshot
use snake_lab.Game.Snapshot.{
  BoardSnapshot, BoardSnapshotError, board_snapshot_error, from_game_state,
}
use snake_lab.Zmq.Protocol.{ProtocolError, protocol_error}

pub record FrameTelemetry (F : Type 0) : Type 0 where
  pub episode : ℤ
  pub step : ℤ
  pub action : ℤ
  pub reward : F
  pub done : Bool
  pub outcome : Outcome
  pub board : BoardSnapshot

pub data FrameError : Type 0 where
  invalid : ProtocolError → FrameError
  float_overflow : FrameError

abbrev pub invalid_telemetry : String → FrameError
invalid_telemetry message = invalid (protocol_error "invalid_telemetry" message)

-- outcome.value
pub outcome_value : Outcome → String
outcome_value Outcome.empty = "empty"
outcome_value Outcome.food = "food"
outcome_value Outcome.wall = "wall"
outcome_value Outcome.snake = "snake"
outcome_value Outcome.max_moves = "max_moves"
outcome_value Outcome.board_filled = "board_filled"

-- Outcome(value)
pub outcome_of : String → Option Outcome
outcome_of s =
    if s == "empty"
    then some Outcome.empty
    else if s == "food"
    then some Outcome.food
    else if s == "wall"
    then some Outcome.wall
    else if s == "snake"
    then some Outcome.snake
    else if s == "max_moves"
    then some Outcome.max_moves
    else if s == "board_filled"
    then some Outcome.board_filled
    else none

abbrev pub frame_fields : List String
frame_fields = "episode" ∷ "step" ∷ "action" ∷ "reward" ∷ "done" ∷ "outcome" ∷ "board" ∷ []

abbrev pub frame_message : BoardSnapshotError → FrameError
frame_message (board_snapshot_error message) = invalid_telemetry message

module _ {F : Type 0} where
  abbrev item : String → Fields F → Result FrameError (Json F)
  item k fs = or_raise (get k fs) (invalid_telemetry k)

  pub frame_natural : String → Json F → Result FrameError ℤ
  frame_natural message (int n) = if ltb_ℤ n (pos 0) then err (invalid_telemetry message) else ok n
  frame_natural message _ = err (invalid_telemetry message)

  pub frame_done : Json F → Result FrameError Bool
  frame_done (bool b) = ok b
  frame_done _ = err (invalid_telemetry "done must be a boolean")

  pub frame_outcome : Json F → Result FrameError Outcome
  frame_outcome (str s) = or_raise (outcome_of s) (invalid_telemetry "outcome is not recognized")
  frame_outcome _ = err (invalid_telemetry "outcome is not recognized")

  -- The check on the reward comes before those of `done`, `outcome` and `board`, its conversion
  -- after them.
  pub frame_numeric : Json F → Result FrameError (Json F)
  frame_numeric (int n) = ok (int n)
  frame_numeric (float x) = ok (float x)
  frame_numeric _ = err (invalid_telemetry "reward must be numeric")

module _ {F : Type 0} (of_int : ℤ → Option F) where
  -- float(reward)
  pub frame_float : Json F → Result FrameError F
  frame_float (int n) = or_raise (of_int n) float_overflow
  frame_float (float x) = ok x
  frame_float _ = err (invalid_telemetry "reward must be numeric")

  pub frame_from_fields : Fields F → Result FrameError (FrameTelemetry F)
  frame_from_fields fs = do
    require (has_exactly fs frame_fields)
        (invalid_telemetry "frame fields do not match the protocol")
    episode_value ← item "episode" fs
    episode ← frame_natural "episode must be a non-negative integer" episode_value
    step_value ← item "step" fs
    step ← frame_natural "step must be a non-negative integer" step_value
    action_value ← item "action" fs
    action ← frame_natural "action must be a non-negative integer" action_value
    reward_item ← item "reward" fs
    reward_value ← frame_numeric reward_item
    done_value ← item "done" fs
    done ← frame_done done_value
    outcome_item ← item "outcome" fs
    outcome ← frame_outcome outcome_item
    board_value ← item "board" fs
    board ← map_err frame_message (Snapshot.from_dict board_value)
    reward ← frame_float reward_value
    ok (record {
      episode = episode;
      step = step;
      action = action;
      reward = reward;
      done = done;
      outcome = outcome;
      board = board;
    })

  pub frame_from_dict : Json F → Result FrameError (FrameTelemetry F)
  frame_from_dict (obj fs) = frame_from_fields fs
  frame_from_dict _ = err (invalid_telemetry "frame payload must be an object")

-- The message of a frame with a given text for its reward.
pub frame_with_reward : {F : Type 0} → FrameTelemetry F → Json F → Json F
frame_with_reward t reward = obj (
    of_fields (
      ("episode", int t.episode)
      ∷ ("step", int t.step)
      ∷ ("action", int t.action)
      ∷ ("reward", reward)
      ∷ ("done", bool t.done)
      ∷ ("outcome", str (outcome_value t.outcome))
      ∷ ("board", Snapshot.to_dict t.board)
      ∷ []))

pub frame_to_dict : {F : Type 0} → FrameTelemetry F → Json F
unfolding frame_with_reward
frame_to_dict t = frame_with_reward t (float t.reward)

-- The frame of one game step.
pub from_step : {F : Type 0} → ℕ → ℕ → StepResult F → FrameTelemetry F
from_step episode action r = record {
  episode = pos episode;
  step = pos r.new_state.move_count;
  action = pos action;
  reward = r.reward;
  done = r.done;
  outcome = r.outcome;
  board = from_game_state r.new_state;
}
