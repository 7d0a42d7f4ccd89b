-- ===== src/Server/Simulator.antt =====
-- server/Simulator.py: the loop of an episode and the loop of a simulation. An await is where the
-- controls may raise SimulationCancelled; `Moments` says at which of them they do, and at which moves
-- somebody watches. Logging is left out, and so is the guard against a second `run` of one object.
pub mod Moves
pub mod Episode
pub mod Runs
use Prim.Native.String.{String}
use Prim.Native.Nat.{◌^◌}
use snake_lab.Base.{
  ℕ, zero, suc, ◌+◌, ◌-◌, ◌%◌, Bool, true, false, ◌&&◌, Option, none, some, List, [], ◌∷◌, ◌++◌,
  length, drop, replicate, range_from, ltb, if◌then◌else◌,
}
use snake_lab.Base.Int.{ℤ, pos, pos_part, ltb_ℤ}
use snake_lab.Base.Results.{Result, ok, err, ◌>>=◌, map_err}
use snake_lab.External.{Random, Floats}
use snake_lab.Game.Direction.{GameError}
use snake_lab.Game.State.{GameState, Feature, observation_length}
use snake_lab.Game.Moves.{RewardConfig, ActionArgument, StepResult}
use snake_lab.Game.Environment
use snake_lab.Game.Environment.{SnakeGame, observe, play}
use snake_lab.Nn.Replay.{ReplayMemory, ReplayError, append, new_memory}
use snake_lab.Nn.Epsilon.{
  EpsilonAlgo, EpsilonError, maybe_random_action, episode_completed, new_epsilon,
}
use snake_lab.Nn.Learner.{Learner, action_count}
use snake_lab.Zmq.Frame.{FrameTelemetry, from_step}
use snake_lab.Server.Results.{
  EpisodeResult, HighScoreSnapshot, SimulationState, new_state, record_result, keep_high_score,
}

-- What leaves the simulator as an exception. `still_playing` is the model's own: the fuel was too
-- little.
pub data SimulationError : Type 0 where
  game_failure : GameError → SimulationError
  replay_failure : ReplayError → SimulationError
  epsilon_failure : EpsilonError → SimulationError
  cancelled still_playing : SimulationError

-- The values of the configuration that are read.
pub record Settings (F : Type 0) : Type 0 where
  pub epochs : ℤ
  pub seed : ℤ
  pub board_width : ℤ
  pub board_height : ℤ
  pub initial_snake_length : ℤ
  pub max_moves_multiplier : ℤ
  pub rewards : RewardConfig F
  pub sequence_length : ℕ
  pub batch_size : ℕ
  pub replay_max_frames : ℕ
  pub initial : F
  pub minimum : F
  pub decay : F

-- For each episode: the checkpoint before it, the demand for frames and the checkpoint after each of
-- its moves, and the checkpoint after it.
pub record Moments : Type 0 where
  pub before : ℕ → Bool
  pub watched : ℕ → ℕ → Bool
  pub raised : ℕ → ℕ → Bool
  pub after : ℕ → Bool

-- deque.append with `maxlen`.
abbrev pub push : {A : Type 0} → ℕ → List A → A → List A
push n xs x = let ys = xs ++ x ∷ [] in drop (length ys - n) ys

-- `_derived_seed`. `digest` is the number that blake2b gives for a text; a mask of 63 bits is taken.
unfoldable pub derived_seed : (ℤ → String → ℕ → ℕ) → ℤ → String → ℕ → ℤ
derived_seed digest master namespace index = pos (digest master namespace index % 2 ^ 63)

module _ (R : Random) (L : Floats) {G : Type 0} (state32 : Feature → G) (reward32 : L.F → G)
    (T : Learner R Feature L.F G state32 reward32) where
  open L use {F}

  -- The model and its trainer are `net`. `reported` are the calls of `on_episode`, which the server
  -- gives; that it returns is assumed.
  pub record Simulator : Type 0 where
    pub settings : Settings F
    pub state : SimulationState F
    pub replay : ReplayMemory R Feature F G
    pub net : T.Net
    pub epsilon : EpsilonAlgo R L
    pub reported : List (EpisodeResult F × SimulationState F)

  -- What `_run_episode` holds in its variables. `shown` are the frames given to `on_frame`.
  pub record Playing : Type 0 where
    pub game : SnakeGame R F
    pub observation : List Feature
    pub history : List (List Feature)
    pub board : GameState
    pub frames : List HighScoreSnapshot
    pub reward : F
    pub shown : List (FrameTelemetry F)

module _ (R : Random) (L : Floats) {G : Type 0} (state32 : Feature → G) (reward32 : L.F → G)
    (T : Learner R Feature L.F G state32 reward32) (draw : R.State → L.F × R.State)
    (digest : ℤ → String → ℕ → ℕ) where
  open L use {F, plus}

  -- The Simulator and its episodes are written S and P below.
  abbrev pub S : Type 0
  S = Simulator R L state32 reward32 T

  abbrev pub P : Type 0
  P = Playing R L state32 reward32 T

  unfoldable pub new_game : S → ℕ → Result SimulationError (SnakeGame R F)
  new_game sim episode =
      let c = sim.settings in
      map_err SimulationError.game_failure (
        Environment.new_game R plus (derived_seed digest c.seed "episode" episode)
          (c.board_width, c.board_height) c.initial_snake_length c.max_moves_multiplier c.rewards
          (pos episode))

  -- `_select_action`
  pub select_action : S → List (List Feature) → Result SimulationError (ℕ × S)
  select_action sim history =
      let (random_action, epsilon) = maybe_random_action L R draw sim.epsilon in
      do
        action ← elim random_action [
          | none ↦ map_err SimulationError.replay_failure (T.choose sim.net history)
          | some action ↦ ok action
        ]
        ok (action, record sim { epsilon = epsilon })

  -- `_run_episode` before its loop.
  pub start_episode : S → ℕ → Result SimulationError P
  start_episode sim episode = do
    game ← new_game sim episode
    observation ← map_err SimulationError.game_failure (observe R plus game)
    ok (record {
      game = game;
      observation = observation;
      history = replicate sim.settings.sequence_length observation;
      board = game.state;
      frames = record { episode = episode; board = game.state } ∷ [];
      reward = L.zero;
      shown = [];
    })

  -- A frame is built only if somebody watches.
  abbrev pub show_frame :
      Bool → ℕ → ℕ → StepResult F → List (FrameTelemetry F) → List (FrameTelemetry F)
  show_frame watched episode action r shown =
      if watched then shown ++ from_step episode action r ∷ [] else shown

  -- One turn of the loop, to `if step.done`.
  pub play_move : Moments → ℕ → S → P → Result SimulationError (StepResult F × S × P)
  play_move moments episode sim p = select_action sim p.history >>= λ (action, sim').
      let (stepped, game) = play R plus p.game (ActionArgument.index (pos action)) in
      do
        r ← map_err SimulationError.game_failure stepped
        replay ← map_err SimulationError.replay_failure (
            append R state32 reward32 sim'.replay (record {
              state = p.observation;
              action = pos action;
              reward = r.reward;
              next_state = r.observed;
              done = r.done;
            }))
        ok (
          r,
          record sim' { replay = replay },
          record p {
            game = game;
            board = if ltb p.board.score r.new_state.score then r.new_state else p.board;
            frames = p.frames ++ record { episode = episode; board = r.new_state } ∷ [];
            reward = plus p.reward r.reward;
            shown =
                show_frame (moments.watched episode p.game.state.move_count) episode action r
                  p.shown;
          },
        )

  -- After a move that does not end the episode.
  pub look : S → StepResult F → P → P
  look sim r p = record p {
    observation = r.observed;
    history = push sim.settings.sequence_length p.history r.observed;
  }

  -- The loop, for at most `fuel` moves.
  pub play_moves : ℕ → Moments → ℕ → S → P → Result SimulationError (StepResult F × S × P)
  play_moves zero moments episode sim p = err SimulationError.still_playing
  play_moves (suc fuel) moments episode sim p = play_move moments episode sim p >>= λ (r, sim', p').
      elim r.done [
        | true ↦ ok (r, sim', p')
        | false ↦ elim (moments.raised episode p.game.state.move_count) [
          | true ↦ err SimulationError.cancelled
          | false ↦ play_moves fuel moments episode sim' (look sim' r p')
        ]
      ]

  pub episode_result : ℕ → F → S → StepResult F → P → Option F → EpisodeResult F
  episode_result episode epsilon sim r p loss = record {
    episode = episode;
    seed = pos_part p.game.seed;
    score = p.game.state.score;
    reward = p.reward;
    steps = p.game.state.move_count;
    outcome = r.outcome;
    epsilon = epsilon;
    epsilon_injections = sim.epsilon.episode_injections;
    loss = loss;
  }

  -- `_run_episode` after its loop.
  pub finish_episode : ℕ → F → S → StepResult F → P → Result SimulationError (EpisodeResult F × S)
  finish_episode episode epsilon sim r p = do
    (loss, net, replay) ← map_err SimulationError.replay_failure (T.train sim.net sim.replay)
    let result = episode_result episode epsilon sim r p loss
    ok (
      result,
      record sim {
        net = net;
        replay = replay;
        epsilon = (episode_completed L R draw sim.epsilon).1;
        state = keep_high_score sim.state result p.board p.frames;
      },
    )

  pub run_episode : ℕ → Moments → ℕ → S → Result SimulationError (EpisodeResult F × S)
  run_episode fuel moments episode sim = do
    p ← start_episode sim episode
    (r, sim', p') ← play_moves fuel moments episode sim p
    finish_episode episode sim.epsilon.epsilon sim' r p'

  abbrev pub report : EpisodeResult F → S → S
  report result sim = record sim { reported = sim.reported ++ (result, sim.state) ∷ [] }

  -- The loop over the episodes that are left.
  pub run_episodes : ℕ → Moments → List ℕ → S → Result SimulationError S
  run_episodes fuel moments [] sim = ok sim
  run_episodes fuel moments (episode ∷ rest) sim = elim (moments.before episode) [
    | true ↦ err SimulationError.cancelled
    | false ↦ run_episode fuel moments episode sim >>= λ (result, sim').
        let recorded : S =
          report result (record sim' { state = record_result plus sim'.state result }) in
        elim (ltb_ℤ (pos episode) sim.settings.epochs && moments.after episode) [
          | true ↦ err SimulationError.cancelled
          | false ↦ run_episodes fuel moments rest recorded
        ]
  ]

  -- `_setup`: the memory and the schedule; the trainer with its model is `net`.
  pub setup : F → T.Net → Settings F → Result SimulationError S
  setup cutoff net c = do
    replay ← map_err SimulationError.replay_failure (
        new_memory R state32 reward32 (pos observation_length) (pos c.sequence_length)
          (pos c.batch_size) (pos c.replay_max_frames) (derived_seed digest c.seed "replay" 0))
    epsilon ← map_err SimulationError.epsilon_failure (
        new_epsilon L R draw (R.seeded (derived_seed digest c.seed "epsilon" 0)) c.initial c.minimum
          c.decay cutoff (pos action_count))
    ok (record {
      settings = c;
      state = new_state L.zero c.epochs;
      replay = replay;
      net = net;
      epsilon = epsilon;
      reported = [];
    })

  pub run : ℕ → Moments → F → T.Net → Settings F → Result SimulationError S
  run fuel moments cutoff net c =
      setup cutoff net c >>= λ sim. run_episodes fuel moments (range_from 1 (pos_part c.epochs)) sim
