-- ===== src/Zmq/Frame/Roundtrip.antt =====
-- A frame of a game step survives the wire.
use snake_lab.Base.{ℕ, ◌≡◌, refl, Option, none, some, arith}
use snake_lab.Base.Int.{ℤ, pos, ◌≤ℤ◌}
use snake_lab.Base.Results.{ok, err}
use snake_lab.Json.{int}
use snake_lab.Game.Moves.{Outcome, StepResult}
use snake_lab.Game.Rules.Validity.{IsValid}
use snake_lab.Game.Snapshot.{from_game_state}
use snake_lab.Game.Snapshot.Roundtrip.{IsRenderable, from_dict-to_dict}
use snake_lab.Zmq.Frame.{
  FrameTelemetry, outcome_value, outcome_of, frame_natural, frame_done, frame_outcome,
  frame_numeric, frame_float, frame_from_fields, frame_from_dict, frame_to_dict, frame_with_reward,
  from_step, float_overflow,
}

outcome_of-outcome_value : (o : Outcome) → outcome_of (outcome_value o) ≡ some o
unfolding outcome_of outcome_value
outcome_of-outcome_value Outcome.empty = refl
outcome_of-outcome_value Outcome.food = refl
outcome_of-outcome_value Outcome.wall = refl
outcome_of-outcome_value Outcome.snake = refl
outcome_of-outcome_value Outcome.max_moves = refl
outcome_of-outcome_value Outcome.board_filled = refl

-- A frame with natural numbers for episode, step and action, and a board that can be drawn.
pub record IsFrame {F : Type 0} (t : FrameTelemetry F) : Type 0 where
  pub episode : pos 0 ≤ℤ t.episode
  pub step : pos 0 ≤ℤ t.step
  pub action : pos 0 ≤ℤ t.action
  pub board : IsRenderable t.board

module _ {F : Type 0} (of_int : ℤ → Option F) where
  frame_from_dict-frame_to_dict :
      (t : FrameTelemetry F) → IsFrame t → frame_from_dict of_int (frame_to_dict t) ≡ ok t
  unfolding frame_from_dict frame_from_fields frame_to_dict frame_natural frame_done frame_outcome
      frame_numeric frame_float
  frame_from_dict-frame_to_dict t h =
      ground (arith, from_dict-to_dict F t.board h.board, outcome_of-outcome_value t.outcome)

  -- The frame of a step to a valid state is read back as it was sent.
  pub frame_from_dict-from_step :
      (episode action : ℕ) (r : StepResult F)
      → IsValid r.new_state
      → frame_from_dict of_int (frame_to_dict (from_step episode action r))
        ≡ ok (from_step episode action r)
  unfolding from_step from_game_state
  frame_from_dict-from_step episode action r valid =
      frame_from_dict-frame_to_dict (from_step episode action r) (record {
        episode = omega arith;
        step = omega arith;
        action = omega arith;
        board = ground (arith, valid.inside.0);
      })

  -- A frame whose reward is written as an integer is read with the float of that integer; if the
  -- integer is too large for a float, the error is no protocol error.
  pub frame_from_dict-integer_reward :
      (t : FrameTelemetry F) (n : ℤ)
      → IsFrame t
      → frame_from_dict of_int (frame_with_reward t (int n))
        ≡ (elim (of_int n) [ none ↦ err float_overflow | some x ↦ ok (record t { reward = x }) ])
  unfolding frame_from_dict frame_from_fields frame_with_reward frame_natural frame_done
      frame_outcome frame_numeric frame_float
  frame_from_dict-integer_reward t n h =
      ground (arith, from_dict-to_dict F t.board h.board, outcome_of-outcome_value t.outcome)
