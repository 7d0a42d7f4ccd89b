-- ===== src/Game/Environment/Episodes.antt =====
-- The invariant of the environment over its methods, and the length of its episodes.
use mathlib.Core.Path.{subst}
use snake_lab.Base.{
  ℕ, ◌+◌, ◌*◌, ◌≤◌, ◌≡◌, ◌↔◌, refl, sym, ap, ◌∙◌, Bool, true, false, if◌then◌else◌, length, none,
  some, arith,
}
use snake_lab.Base.Int.{ℤ, pos, pos_part, ◌≤ℤ◌, ◌<ℤ◌, ◌*ℤ◌, ltb_ℤ}
use snake_lab.Base.Results.{ok, err, ok_unique}
use snake_lab.External.{Random}
use snake_lab.Game.Position.{Position}
use snake_lab.Game.Direction.{Direction, completed_episode}
use snake_lab.Game.State.{GameState, observation, observation_length}
use snake_lab.Game.State.Observation.{observation-length}
use snake_lab.Game.Rules.Observed.{IsObserved, step-IsObserved}
use snake_lab.Game.Moves.{RewardConfig, Action, ActionArgument, Outcome, StepResult}
use snake_lab.Game.Rules.{step, normalize_action, grown}
use snake_lab.Game.Rules.Outcomes.{Move, timeout, wall, bite, meal, slide, is_terminal}
use snake_lab.Game.Rules.Validity.{IsValid}
use snake_lab.Game.Rules.Progress.{step-IsValid}
use snake_lab.Game.Rules.Accounts.{Move-Counts, Move-move_count}
use snake_lab.Game.Environment.{
  SnakeGame, Layout, layout, check_arguments, new_state, new_game, reset, observe, play,
}
use snake_lab.Game.Environment.Start.{Fits, Started, new_state-Started}

-- The constructor's checks on integers pass exactly for a board with positive sides that the snake
-- fits on in a row with a cell left, and positive limits.
pub check_arguments_iff :
    (w h l m e : ℤ)
    → (check_arguments (w, h) l m e ≡ ok tt) ↔ (
        (pos 0 <ℤ w)
        × (pos 0 <ℤ h)
        × (pos 0 <ℤ l)
        × (l ≤ℤ w)
        × (l <ℤ w *ℤ h)
        × (pos 0 <ℤ m)
        × (pos 0 <ℤ e))
unfolding check_arguments
check_arguments_iff w h l m e = ground arith

-- A move that does not end the episode leaves food on the board.
food_left :
    {s : GameState} {p : Position} {d : Direction} {multiplier : ℤ} {t : GameState} {o : Outcome}
    → s.food_position ≡ some p
    → Move s p d multiplier t o
    → is_terminal o ≡ false
    → (q : Position) × (t.food_position ≡ some q)
unfolding grown
food_left f (timeout _ _ o) n = cc (n, ap is_terminal o)
food_left f (wall _ _ _ o) n = cc (n, ap is_terminal o)
food_left f (bite _ _ _ _ o) n = cc (n, ap is_terminal o)
food_left f (meal none _ _ _ _ _ _ o) n = cc (n, o)
food_left f (meal (some q) _ _ _ _ _ e o) n = (q, rw e)
food_left {p = p} f (slide _ _ _ _ e o) n = (p, rw e f)

scores_more : (n m : ℕ) (b : Bool) → m ≡ (if b then n + 1 else n) → n ≤ m
scores_more n m true h = omega (arith, h)
scores_more n m false h = omega (arith, h)

module _ (R : Random) {F : Type 0} (plus : F → F → F) where
  -- The most moves that an episode of the game can have without ending.
  abbrev pub move_limit : SnakeGame R F → ℕ
  move_limit g = pos_part g.max_moves_multiplier * (g.grid_size.0 * g.grid_size.1)

  pub record IsPlayable (g : SnakeGame R F) : Type 0 where
    pub valid : IsValid g.state
    pub food : g.done ≡ false → (p : Position) × (g.state.food_position ≡ some p)
    pub fits : Fits (layout R plus g)
    pub positive : pos 0 <ℤ g.max_moves_multiplier
    pub same_grid : g.state.grid_size ≡ g.grid_size
    pub same_episode : g.state.episode_id ≡ g.episode_id
    pub limited : g.done ≡ false → g.state.move_count ≤ move_limit g

  Started-IsPlayable :
      (g : SnakeGame R F)
      → Fits (layout R plus g)
      → pos 0 <ℤ g.max_moves_multiplier
      → Started (layout R plus g) g.episode_id g.state
      → IsPlayable g
  Started-IsPlayable g fits positive started = record {
    valid = started.valid;
    food = λ _. started.food;
    fits = fits;
    positive = positive;
    same_grid = started.numbered.2;
    same_episode = started.numbered.0;
    limited = λ _. omega (arith, started.fresh.1);
  }

  -- What the constructor returns when its checks pass.
  pub new_game-starts :
      (seed w h l m e : ℤ) (rewards : RewardConfig F)
      → check_arguments (w, h) l m e ≡ ok tt
      → (g : SnakeGame R F) × (new_game R plus seed (w, h) l m rewards e ≡ ok g)
        × IsPlayable g
        × (g.done ≡ false)
        × (g.state.move_count ≡ 0)
        × (move_limit g ≡ pos_part m * (pos_part w * pos_part h))
  unfolding new_game ◌*ℤ◌
  new_game-starts seed w h l m e rewards checks =
      let c = (check_arguments_iff w h l m e).0 checks in
      let lay : Layout = record {
        seed = seed;
        grid_size = (pos_part w, pos_part h);
        initial_snake_length = pos_part l;
      } in
      let fits : Fits lay = ground arith in
      let (s, e1, started) = new_state-Started R lay (pos_part e) (R.seeded seed) fits in
      (
        record {
          seed = seed;
          grid_size = lay.grid_size;
          initial_snake_length = lay.initial_snake_length;
          max_moves_multiplier = m;
          rewards = rewards;
          rng = (new_state R lay (pos_part e) (R.seeded seed)).1;
          episode_id = pos_part e;
          done = false;
          state = s;
        },
        rw (checks, e1),
        Started-IsPlayable _ fits c.5 started,
        refl,
        started.fresh.1,
        refl,
      )

  -- The constructor returns a playable game whenever its checks pass.
  pub new_game-IsPlayable :
      (seed w h l m e : ℤ) (rewards : RewardConfig F)
      → check_arguments (w, h) l m e ≡ ok tt
      → (g : SnakeGame R F) × (new_game R plus seed (w, h) l m rewards e ≡ ok g)
        × IsPlayable g
        × (g.done ≡ false)
  new_game-IsPlayable seed w h l m e rewards checks =
      let (g, made, playable, running, fresh, limit) =
        new_game-starts seed w h l m e rewards checks in
      (g, made, playable, running)

  -- A reset starts the next episode, in a playable game that is not done, and returns the first
  -- observation of that episode.
  pub reset-IsPlayable :
      (g : SnakeGame R F)
      → IsPlayable g
      → IsPlayable (reset R plus g).1
        × ((reset R plus g).1.done ≡ false)
        × ((reset R plus g).1.episode_id ≡ g.episode_id + 1)
        × ((reset R plus g).1.state.move_count ≡ 0)
        × ((reset R plus g).0 ≡ observation (reset R plus g).1.state)
  unfolding reset observe
  reset-IsPlayable g playable =
      let (s, e, started) =
        new_state-Started R (layout R plus g) (g.episode_id + 1) g.rng playable.fits in
      let g' : SnakeGame R F = record g {
        rng = (new_state R (layout R plus g) (g.episode_id + 1) g.rng).1;
        episode_id = g.episode_id + 1;
        done = false;
        state = s;
      } in
      let ready : IsPlayable g' = Started-IsPlayable g' playable.fits playable.positive started in
      rw (e, reset) (ready, refl, refl, started.fresh.1, refl)

  -- A completed episode takes no further step, and the game stays as it is.
  pub play-done :
      (g : SnakeGame R F) (argument : ActionArgument)
      → g.done ≡ true
      → play R plus g argument ≡ (err completed_episode, g)
  unfolding play
  play-done g argument h = rw h

  is_positive : (g : SnakeGame R F) → IsPlayable g → ltb_ℤ (pos 0) g.max_moves_multiplier ≡ true
  is_positive g playable = ground (arith, playable.positive)

  Move-limited :
      (g : SnakeGame R F) {p : Position} {d : Direction} {t : GameState} {o : Outcome}
      → IsPlayable g
      → Move g.state p d g.max_moves_multiplier t o
      → is_terminal o ≡ false
      → t.move_count ≤ move_limit g
  Move-limited g {p} {d} {t} {o} playable move running =
      let m = pos_part g.max_moves_multiplier in
      let natural : g.max_moves_multiplier ≡ pos m = ground (arith, playable.positive) in
      subst (λ (size : ℕ × ℕ). t.move_count ≤ m * (size.0 * size.1)) playable.same_grid
        (Move-move_count m playable.valid (subst (λ k. Move g.state p d k t o) natural move)
          running)

  -- In a playable game that is not done, a known action returns a result; the game is playable
  -- again, it is done exactly if the outcome is terminal, and one more move is counted.
  pub play-IsPlayable :
      (g : SnakeGame R F) (argument : ActionArgument) (a : Action)
      → IsPlayable g
      → g.done ≡ false
      → normalize_action argument ≡ ok a
      → (r : StepResult F) × ((play R plus g argument).0 ≡ ok r)
        × IsPlayable (play R plus g argument).1
        × ((play R plus g argument).1.state ≡ r.new_state)
        × ((play R plus g argument).1.done ≡ is_terminal r.outcome)
        × ((play R plus g argument).1.state.move_count ≡ g.state.move_count + 1)
        × (move_limit (play R plus g argument).1 ≡ move_limit g)
  unfolding play
  play-IsPlayable g argument a playable running known =
      let (p, food) = playable.food running in
      let (r, d, e, _, move, valid, done) =
        step-IsValid R plus g.rewards g.state p argument a g.max_moves_multiplier g.rng
          playable.valid food known (is_positive g playable) in
      let g' : SnakeGame R F = record g {
        rng = (step R plus g.rewards g.state argument g.max_moves_multiplier g.rng).1;
        state = r.new_state;
        done = r.done;
      } in
      let counts = Move-Counts move in
      let ready : IsPlayable g' = record {
        valid = valid;
        food = λ n. food_left food move (sym done ∙ n);
        fits = playable.fits;
        positive = playable.positive;
        same_grid = counts.same_grid ∙ playable.same_grid;
        same_episode = counts.same_episode ∙ playable.same_episode;
        limited = λ n. Move-limited g playable move (sym done ∙ n);
      } in
      rw (running, e) (r, refl, ready, refl, done, counts.moves, refl)

  -- What a playable game that is not done returns holds the observation of its new state, and no lower
  -- a score.
  pub play-result :
      (g : SnakeGame R F) (argument : ActionArgument) (a : Action) (r : StepResult F)
      → IsPlayable g
      → g.done ≡ false
      → normalize_action argument ≡ ok a
      → (play R plus g argument).0 ≡ ok r
      → (length r.observed ≡ observation_length)
        × (g.state.score ≤ r.new_state.score)
        × (r.done ≡ is_terminal r.outcome)
  unfolding play IsObserved
  play-result g argument a r playable running known returned =
      let (p, food) = playable.food running in
      let (q, d, e, _, move, valid, done) =
        step-IsValid R plus g.rewards g.state p argument a g.max_moves_multiplier g.rng
          playable.valid food known (is_positive g playable) in
      let here : (play R plus g argument).0 ≡ ok q = rw (running, e) refl in
      let (values, seen, long) = observation-length q.new_state valid.cardinal in
      let shown =
        step-IsObserved R plus g.rewards g.state argument g.max_moves_multiplier g.rng q e in
      let same : values ≡ q.observed =
        ok_unique (observation q.new_state) values q.observed seen shown in
      subst
        (λ (x : StepResult F).
          (length x.observed ≡ observation_length)
          × (g.state.score ≤ x.new_state.score)
          × (x.done ≡ is_terminal x.outcome))
        (ok_unique (play R plus g argument).0 q r here returned)
        (ap length (sym same) ∙ long, scores_more g.state.score _ _ (Move-Counts move).scored, done)
