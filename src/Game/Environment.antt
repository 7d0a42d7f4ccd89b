-- ===== src/Game/Environment.antt =====
-- game/SnakeGame.py: the environment of one simulation, an object as a record. A method returns the
-- object beside its result, also when it raises.
pub mod Start
pub mod Episodes
use snake_lab.Base.{
  ℕ, suc, ◌+◌, ◌-◌, ◌/◌, ◌*◌, Bool, true, false, ◌||◌, Option, none, some, List, [], ◌∷◌, map, max,
  range_from, if◌then◌else◌,
}
use snake_lab.Base.Int.{ℤ, pos, pos_part, ◌-ℤ◌, ◌*ℤ◌, ltb_ℤ, leb_ℤ}
use snake_lab.Base.Results.{Result, ok, err, ◌>>=◌, ◌>>◌, refuse}
use snake_lab.External.{Random}
use snake_lab.Game.Position.{Position, random_free_position}
use snake_lab.Game.Direction
use snake_lab.Game.Direction.{
  GameError, invalid_grid_size, invalid_initial_length, snake_too_long, no_room_for_food,
  invalid_multiplier, invalid_episode_id, no_free_position, completed_episode,
}
use snake_lab.Game.State.{GameState, Feature, observation}
use snake_lab.Game.Moves.{RewardConfig, ActionArgument, StepResult}
use snake_lab.Game.Rules

module _ (R : Random) (F : Type 0) where
  pub record SnakeGame : Type 0 where
    pub seed : ℤ
    pub grid_size : ℕ × ℕ
    pub initial_snake_length : ℕ
    pub max_moves_multiplier : ℤ
    pub rewards : RewardConfig F
    pub rng : R.State
    pub episode_id : ℕ
    pub done : Bool
    pub state : GameState

-- What `_new_state` reads of the object.
pub record Layout : Type 0 where
  pub seed : ℤ
  pub grid_size : ℕ × ℕ
  pub initial_snake_length : ℕ

abbrev pub initial_head : Layout → Position
initial_head l = record {
  x = pos (max (l.grid_size.0 / 2) (l.initial_snake_length - 1));
  y = pos (l.grid_size.1 / 2);
}

abbrev pub behind : Position → ℕ → Position
behind head offset = record { x = head.x -ℤ pos offset; y = head.y }

abbrev pub initial_body : Layout → List Position
initial_body l = map (behind (initial_head l)) (range_from 1 (l.initial_snake_length - 1))

module _ (R : Random) where
  -- `_new_state`, with the episode number already advanced.
  unfoldable pub new_state : Layout → ℕ → R.State → Result GameError GameState × R.State
  new_state l episode_id rng =
      let head = initial_head l in
      let body = initial_body l in
      let (drawn, rng') = random_free_position R rng l.grid_size (head ∷ body) in
      (
        elim drawn [
          | none ↦ err no_free_position
          | some food ↦ ok (record {
            snake_head = head;
            snake_body = body;
            direction = Direction.right;
            food_position = some food;
            score = 0;
            move_count = 0;
            grid_size = l.grid_size;
            seed = l.seed;
            episode_id = episode_id;
          })
        ],
        rng',
      )

-- The checks of `__init__` on integer arguments.
unfoldable pub check_arguments : ℤ × ℤ → ℤ → ℤ → ℤ → Result GameError (Unit {0})
check_arguments (width, height) initial_length multiplier episode_id = do
  refuse (leb_ℤ width (pos 0) || leb_ℤ height (pos 0)) invalid_grid_size
  refuse (leb_ℤ initial_length (pos 0)) invalid_initial_length
  refuse (ltb_ℤ width initial_length) snake_too_long
  refuse (leb_ℤ (width *ℤ height) initial_length) no_room_for_food
  refuse (leb_ℤ multiplier (pos 0)) invalid_multiplier
  refuse (leb_ℤ episode_id (pos 0)) invalid_episode_id

module _ (R : Random) {F : Type 0} (plus : F → F → F) where
  abbrev pub layout : SnakeGame R F → Layout
  layout g = record {
    seed = g.seed;
    grid_size = g.grid_size;
    initial_snake_length = g.initial_snake_length;
  }

  -- SnakeGame(...)
  pub new_game : ℤ → ℤ × ℤ → ℤ → ℤ → RewardConfig F → ℤ → Result GameError (SnakeGame R F)
  new_game seed (width, height) initial_length multiplier rewards episode_id = do
    check_arguments (width, height) initial_length multiplier episode_id
    let l : Layout = record {
      seed = seed;
      grid_size = (pos_part width, pos_part height);
      initial_snake_length = pos_part initial_length;
    }
    let (started, rng) = new_state R l (pos_part episode_id) (R.seeded seed)
    state ← started
    ok (record {
      seed = seed;
      grid_size = l.grid_size;
      initial_snake_length = l.initial_snake_length;
      max_moves_multiplier = multiplier;
      rewards = rewards;
      rng = rng;
      episode_id = pos_part episode_id;
      done = false;
      state = state;
    })

  unfoldable pub observe : SnakeGame R F → Result GameError (List Feature)
  observe g = observation g.state

  -- `reset`: the next episode, and its first observation.
  pub reset : SnakeGame R F → Result GameError (List Feature) × SnakeGame R F
  reset g =
      let episode_id = g.episode_id + 1 in
      let (started, rng) = new_state R (layout g) episode_id g.rng in
      elim started [
        | err e ↦ (err e, record g { rng = rng; episode_id = episode_id })
        | ok state ↦
            let g' = record g { rng = rng; episode_id = episode_id; done = false; state = state } in
            (observe g', g')
      ]

  -- `step`: one action in the current episode.
  pub play : SnakeGame R F → ActionArgument → Result GameError (StepResult F) × SnakeGame R F
  play g argument =
      if g.done
      then (err completed_episode, g)
      else let (stepped, rng) =
          Rules.step R plus g.rewards g.state argument g.max_moves_multiplier g.rng in
        elim stepped [
          | err e ↦ (err e, record g { rng = rng })
          | ok r ↦ (ok r, record g { rng = rng; state = r.new_state; done = r.done })
        ]

  unfoldable pub would_collide : SnakeGame R F → ActionArgument → Result GameError Bool
  would_collide g argument = Rules.would_collide g.state argument
