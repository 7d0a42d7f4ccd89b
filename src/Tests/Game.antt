-- ===== src/Tests/Game.antt =====
-- The game on small boards.
use snake_lab.Base.{ℕ, ◌+◌, ◌≡◌, ◌↔◌, refl, true, false, none, some, List, [], ◌∷◌, length, arith}
use snake_lab.Base.Int.{neg, pos, ◌+ℤ◌, ◌-ℤ◌, ◌*ℤ◌, ◌<ℤ◌, ◌≤ℤ◌}
use snake_lab.Base.Members.{mem}
use snake_lab.Base.Results.{Result, ok, err}
use snake_lab.External.{counting}
use snake_lab.Game.Position.{Position, Position-eq, free_positions, random_free_position}
use snake_lab.Game.Position.Free.{Draw, DrawCell, random_free_position-DrawCell}
use snake_lab.Game.Direction.{
  GameError, Direction, IsCardinal, is_cardinal, turn_left, turn_right, right,
}
use snake_lab.Game.Direction.Turns.{IsLeftOf, turn_left-turn_right}
use snake_lab.Game.State
use snake_lab.Game.State.{GameState, Feature, observation, observation_length}
use snake_lab.Game.State.Observation.{observation-length}
use snake_lab.Game.Moves.{RewardConfig, Action, ActionArgument, Outcome, StepResult, is_collision}
use snake_lab.Game.Rules
use snake_lab.Game.Rules.{step, next_direction, would_collide}
use snake_lab.Game.Rules.Outcomes.{Move, slide, meal, is_terminal}
use snake_lab.Game.Rules.Validity.{IsValid}
use snake_lab.Game.Rules.Progress.{step-IsValid}
use snake_lab.Game.Rules.Accounts.{Counts}
use snake_lab.Game.Rules.Steps.{step-Counts, step-would_collide, step-board_filled}
use snake_lab.Game.Environment.{SnakeGame, check_arguments, new_game, play, reset}
use snake_lab.Game.Environment.Episodes.{
  IsPlayable, move_limit, check_arguments_iff, new_game-IsPlayable, play-IsPlayable,
  reset-IsPlayable,
}
use snake_lab.Game.Snapshot.{from_game_state, from_dict, to_dict}
use snake_lab.Game.Snapshot.Roundtrip.{
  IsRenderable, from_dict-from_game_state, from_dict-IsRenderable,
}

abbrev pub at : ℕ → ℕ → Position
at x y = record { x = pos x; y = pos y }

abbrev pub rewards : RewardConfig ℕ
rewards = record {
  food = 10;
  wall = 1;
  snake = 2;
  max_moves = 3;
  empty = 4;
  closer_to_food = 1;
  further_from_food = 0;
}

abbrev plus : ℕ → ℕ → ℕ
plus a b = a + b

-- A snake of three cells on a board of 4 by 4, which runs to the right.
abbrev pub running : GameState
running = record {
  snake_head = at 2 1;
  snake_body = at 1 1 ∷ at 0 1 ∷ [];
  direction = right;
  food_position = some (at 3 3);
  score = 0;
  move_count = 0;
  grid_size = (4, 4);
  seed = pos 7;
  episode_id = 1;
}

pub running-IsValid : IsValid running
unfolding is_cardinal Rules.food_distance ◌-ℤ◌
running-IsValid = record {
  inside = (refl, (refl, (refl, tt)));
  distinct = (refl, (refl, (refl, tt)));
  linked = (refl, (refl, tt));
  free = (refl, refl);
  cardinal = refl;
}

turn_left-turn_right_example :
    (l r : Direction) × (turn_left right ≡ ok l)
    × (turn_right right ≡ ok r)
    × IsCardinal l
    × IsCardinal r
    × (turn_right l ≡ ok right)
    × (turn_left r ≡ ok right)
    × IsLeftOf l right
    × IsLeftOf right r
unfolding is_cardinal
turn_left-turn_right_example = turn_left-turn_right right refl

observation-length_example :
    (values : List Feature) × (observation running ≡ ok values)
    × (length values ≡ observation_length)
unfolding is_cardinal
observation-length_example = observation-length running refl

step-IsValid_example :
    (r : StepResult ℕ) × (d : Direction) × ((step counting plus rewards running
        (ActionArgument.action Action.straight)
        (pos 5)
        0).0
      ≡ ok r)
    × (next_direction running.direction Action.straight ≡ ok d)
    × Move running (at 3 3) d (pos 5) r.new_state r.outcome
    × IsValid r.new_state
    × (r.done ≡ is_terminal r.outcome)
unfolding Rules.normalize_action
step-IsValid_example =
    step-IsValid counting plus rewards running (at 3 3) (ActionArgument.action Action.straight)
      Action.straight (pos 5) 0 running-IsValid refl refl refl

abbrev slid : GameState
slid = record running { snake_head = at 3 1; snake_body = at 2 1 ∷ at 1 1 ∷ []; move_count = 1 }

running-slid : Move running (at 3 3) right (pos 5) slid Outcome.empty
unfolding Rules.ahead ◌+ℤ◌ ◌*ℤ◌
running-slid = slide refl refl refl refl refl refl

-- The board of two cells, which the snake of one cell fills by its next move.
abbrev nearly_full : GameState
nearly_full = record running {
  snake_head = at 0 0;
  snake_body = [];
  food_position = some (at 1 0);
  grid_size = (2, 1);
}

abbrev full : GameState
full = record nearly_full {
  snake_head = at 1 0;
  snake_body = at 0 0 ∷ [];
  food_position = none;
  score = 1;
  move_count = 1;
}

nearly_full-full : Move nearly_full (at 1 0) right (pos 5) full Outcome.board_filled
unfolding Rules.ahead Rules.grown free_positions ◌+ℤ◌ ◌*ℤ◌
nearly_full-full = meal none refl refl refl refl (Draw.nothing_free refl refl) refl refl

abbrev observed_of : Result GameError (List Feature) → List Feature
observed_of (ok values) = values
observed_of (err e) = []

-- The results of the two moves.
abbrev slid_result : StepResult ℕ
slid_result = record {
  new_state = slid;
  observed = observed_of (observation slid);
  reward = 5;
  outcome = Outcome.empty;
  done = false;
}

step-Counts_example : Counts running slid Outcome.empty
unfolding Rules.step Rules.checked Rules.advance Rules.glide Rules.eat Rules.grown
    Rules.normalize_action Rules.next_direction Rules.ahead Rules.food_distance Rules.occupied_body
    Rules.hits observation random_free_position free_positions State.observe_rows State.observe_food
    State.local_feature State.cell_feature State.local_position State.sign ◌+ℤ◌ ◌-ℤ◌ ◌*ℤ◌ neg
step-Counts_example =
    step-Counts counting plus rewards running (at 3 3) (ActionArgument.action Action.straight)
      Action.straight (pos 5) 0 slid_result running-IsValid refl refl refl refl

step-would_collide_example :
    would_collide running (ActionArgument.action Action.straight) ≡ ok (is_collision Outcome.empty)
unfolding Rules.step Rules.checked Rules.advance Rules.glide Rules.eat Rules.grown
    Rules.normalize_action Rules.next_direction Rules.ahead Rules.food_distance Rules.occupied_body
    Rules.hits observation random_free_position free_positions State.observe_rows State.observe_food
    State.local_feature State.cell_feature State.local_position State.sign ◌+ℤ◌ ◌-ℤ◌ ◌*ℤ◌ neg
step-would_collide_example =
    step-would_collide counting plus rewards running (at 3 3)
      (ActionArgument.action Action.straight) Action.straight (pos 5) 0 slid_result running-IsValid
      refl refl refl refl refl

abbrev full_result : StepResult ℕ
full_result = record {
  new_state = full;
  observed = observed_of (observation full);
  reward = 10;
  outcome = Outcome.board_filled;
  done = true;
}

nearly_full-IsValid : IsValid nearly_full
unfolding is_cardinal
nearly_full-IsValid = record {
  inside = (refl, tt);
  distinct = (refl, tt);
  linked = tt;
  free = (refl, refl);
  cardinal = refl;
}

step-board_filled_example : mem (at 0 0) (full.snake_head ∷ full.snake_body) ≡ true
unfolding Rules.step Rules.checked Rules.advance Rules.glide Rules.eat Rules.grown
    Rules.normalize_action Rules.next_direction Rules.ahead Rules.food_distance Rules.occupied_body
    Rules.hits observation random_free_position free_positions State.observe_rows State.observe_food
    State.local_feature State.cell_feature State.local_position State.sign ◌+ℤ◌ ◌-ℤ◌ ◌*ℤ◌ neg
step-board_filled_example =
    step-board_filled counting plus rewards nearly_full (at 1 0)
      (ActionArgument.action Action.straight) Action.straight (pos 5) 0 full_result (at 0 0)
      nearly_full-IsValid refl refl refl refl refl refl

random_free_position-DrawCell_example :
    DrawCell (2, 1) (at 0 0 ∷ []) (random_free_position counting 0 (2, 1) (at 0 0 ∷ [])).0
random_free_position-DrawCell_example =
    random_free_position-DrawCell counting 0 (2, 1) (at 0 0 ∷ [])

check_arguments_iff_example : (check_arguments (pos 4, pos 4) (pos 3) (pos 5) (pos 1) ≡ ok tt) ↔ (
    (pos 0 <ℤ pos 4)
    × (pos 0 <ℤ pos 4)
    × (pos 0 <ℤ pos 3)
    × (pos 3 ≤ℤ pos 4)
    × (pos 3 <ℤ pos 4 *ℤ pos 4)
    × (pos 0 <ℤ pos 5)
    × (pos 0 <ℤ pos 1))
check_arguments_iff_example = check_arguments_iff (pos 4) (pos 4) (pos 3) (pos 5) (pos 1)

new_game-IsPlayable_example :
    (g : SnakeGame counting ℕ) × (new_game counting plus
        (pos 7)
        (pos 4, pos 4)
        (pos 3)
        (pos 5)
        rewards
        (pos 1)
      ≡ ok g)
    × IsPlayable counting plus g
    × (g.done ≡ false)
unfolding check_arguments ◌*ℤ◌
new_game-IsPlayable_example =
    new_game-IsPlayable counting plus (pos 7) (pos 4) (pos 4) (pos 3) (pos 5) (pos 1) rewards refl

abbrev game : SnakeGame counting ℕ
game = record {
  seed = pos 7;
  grid_size = (4, 4);
  initial_snake_length = 3;
  max_moves_multiplier = pos 5;
  rewards = rewards;
  rng = 0;
  episode_id = 1;
  done = false;
  state = running;
}

game-IsPlayable : IsPlayable counting plus game
game-IsPlayable = record {
  valid = running-IsValid;
  food = λ _. (at 3 3, refl);
  fits = omega arith;
  positive = omega arith;
  same_grid = refl;
  same_episode = refl;
  limited = λ _. omega arith;
}

reset-IsPlayable_example :
    IsPlayable counting plus (reset counting plus game).1
    × ((reset counting plus game).1.done ≡ false)
    × ((reset counting plus game).1.episode_id ≡ game.episode_id + 1)
    × ((reset counting plus game).1.state.move_count ≡ 0)
    × ((reset counting plus game).0 ≡ observation (reset counting plus game).1.state)
reset-IsPlayable_example = reset-IsPlayable counting plus game game-IsPlayable

play-IsPlayable_example :
    (r : StepResult ℕ) × ((play counting plus game (ActionArgument.action Action.left)).0 ≡ ok r)
    × IsPlayable counting plus (play counting plus game (ActionArgument.action Action.left)).1
    × ((play counting plus game (ActionArgument.action Action.left)).1.state ≡ r.new_state)
    × ((play counting plus game (ActionArgument.action Action.left)).1.done ≡ is_terminal r.outcome)
    × ((play counting plus game (ActionArgument.action Action.left)).1.state.move_count
        ≡ game.state.move_count + 1)
    × (move_limit counting plus (play counting plus game (ActionArgument.action Action.left)).1
        ≡ move_limit counting plus game)
unfolding Rules.normalize_action
play-IsPlayable_example =
    play-IsPlayable counting plus game (ActionArgument.action Action.left) Action.left
      game-IsPlayable refl refl

from_dict-from_game_state_example :
    from_dict (to_dict {F = ℕ} (from_game_state running)) ≡ ok (from_game_state running)
from_dict-from_game_state_example = from_dict-from_game_state ℕ running running-IsValid

from_dict-IsRenderable_example : IsRenderable (from_game_state running)
from_dict-IsRenderable_example =
    from_dict-IsRenderable ℕ (to_dict (from_game_state running)) (from_game_state running)
      (from_dict-from_game_state ℕ running running-IsValid)

-- A snake of one cell grows by a move that eats nothing.
lone_slide :
    Move
      (record running { snake_body = [] })
      (at 3 3)
      right
      (pos 5)
      (record running { snake_head = at 3 1; snake_body = at 2 1 ∷ []; move_count = 1 })
      Outcome.empty
unfolding Rules.ahead ◌+ℤ◌ ◌*ℤ◌
lone_slide = slide refl refl refl refl refl refl
