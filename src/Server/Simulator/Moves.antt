-- ===== src/Server/Simulator/Moves.antt =====
-- A turn of the loop of an episode.
use Prim.Native.String.{String}
use snake_lab.Base.{
  ℕ, zero, suc, ◌+◌, ◌≤◌, ◌<◌, ◌≡◌, refl, sym, ap, ◌∙◌, false, Option, none, some, List, [], ◌∷◌,
  length, length-append, All, ltb, arith, inl, inr, Bool-cases, if◌then◌else◌,
}
use snake_lab.Base.Int.{ℤ, pos}
use snake_lab.Base.Results.{Result, ok, map_err}
use snake_lab.Nn.Replay.{ReplayError}
use snake_lab.External.{Random, Floats}
use snake_lab.Game.State.{GameState, Feature, observation_length}
use snake_lab.Game.Moves.{Action, ActionArgument, StepResult}
use snake_lab.Game.Rules.{normalize_action}
use snake_lab.Game.Rules.Outcomes.{is_terminal}
use snake_lab.Game.Environment.Episodes.{IsPlayable, move_limit, play-IsPlayable, play-result}
use snake_lab.Nn.Replay.Invariant.{IsWell}
use snake_lab.Nn.Epsilon.{EpsilonAlgo, maybe_random_action}
use snake_lab.Nn.Epsilon.Schedule.{
  IsScheduled, maybe_random_action-IsScheduled, maybe_random_action-action_count,
}
use snake_lab.Nn.Learner.{Learner, IsPlayed, IsWide, action_count}
use snake_lab.Nn.Learner.Stored.{append-IsPlayed}
use snake_lab.Server.Simulator.{SimulationError, Moments, S, P, select_action, play_move}

-- An index of an action is one that the rules know.
known_action :
    (a : ℕ)
    → a < action_count
    → (b : Action) × (normalize_action (ActionArgument.index (pos a)) ≡ ok b)
unfolding normalize_action
known_action zero h = (Action.left, refl)
known_action (suc zero) h = (Action.straight, refl)
known_action (suc (suc zero)) h = (Action.right, refl)
known_action (suc (suc (suc a))) h = absurd (omega (arith, h))

-- The random action if there is one, and otherwise that of the model.
picked :
    (o : Option ℕ) (x : Result ReplayError ℕ)
    → (n : ℕ) × (x ≡ ok n) × (n < action_count)
    → ((a : ℕ) → o ≡ some a → a < action_count)
    → (a : ℕ) × ((elim o [
      | none ↦ map_err SimulationError.replay_failure x
      | some action ↦ ok action
    ])
        ≡ ok a)
      × (a < action_count)
picked none x (n, e, h) f = (n, ap (map_err SimulationError.replay_failure) e, h)
picked (some a) x h f = (a, refl, f a refl)

module _ (R : Random) (L : Floats) {G : Type 0} (state32 : Feature → G) (reward32 : L.F → G)
    (T : Learner R Feature L.F G state32 reward32) (draw : R.State → L.F × R.State)
    (digest : ℤ → String → ℕ → ℕ) where
  open L use {F, plus}

  -- What a simulation keeps between two moves.
  pub record IsReady (sim : S R L state32 reward32 T draw digest) : Type 0 where
    pub well : IsWell R state32 reward32 sim.replay
    pub sized : sim.replay.state_size ≡ observation_length
    pub played : IsPlayed sim.replay
    pub scheduled : IsScheduled L R draw sim.epsilon
    pub three : sim.epsilon.action_count ≡ action_count

  random_action-lt :
      (e : EpsilonAlgo R L) (a : ℕ)
      → IsScheduled L R draw e
      → e.action_count ≡ action_count
      → (maybe_random_action L R draw e).0 ≡ some a
      → a < action_count
  random_action-lt e a h three drawn =
      let (scheduled, above, below) = maybe_random_action-IsScheduled L R draw e h in
      elim (Bool-cases (L.le e.epsilon (draw e.rng).0)) [
        | inl high ↦ absurd (cc ((above high).0, drawn))
        | inr low ↦
            let (b, given, small, _, _) = below low in
            let same : some a ≡ some b = sym drawn ∙ given in ground (arith, same, small, three)
      ]

  abbrev drawn_from : S R L state32 reward32 T draw digest → S R L state32 reward32 T draw digest
  drawn_from sim = record sim { epsilon = (maybe_random_action L R draw sim.epsilon).1 }

  -- On states with the features asked for, an action is selected.
  select_action-ok :
      (sim : S R L state32 reward32 T draw digest) (history : List (List Feature))
      → IsReady sim
      → All IsWide history
      → (a : ℕ) × (select_action R L state32 reward32 T draw digest sim history
          ≡ ok (a, drawn_from sim))
        × (a < action_count)
  unfolding select_action
  select_action-ok sim history ready wide =
      let (a, e, below) =
        picked (maybe_random_action L R draw sim.epsilon).0 (T.choose sim.net history)
          (T.choose_ok sim.net history wide)
          (λ a drawn. random_action-lt sim.epsilon a ready.scheduled ready.three drawn) in
      rw e (a, refl, below)

  drawn_from-IsReady :
      (sim : S R L state32 reward32 T draw digest) → IsReady sim → IsReady (drawn_from sim)
  drawn_from-IsReady sim ready = record {
    well = ready.well;
    sized = ready.sized;
    played = ready.played;
    scheduled = (maybe_random_action-IsScheduled L R draw sim.epsilon ready.scheduled).0;
    three = maybe_random_action-action_count L R draw sim.epsilon ∙ ready.three;
  }

  -- What holds of an episode that goes on: its board is the best so far.
  pub record IsPlaying (p : P R L state32 reward32 T draw digest) : Type 0 where
    pub playable : IsPlayable R plus p.game
    pub running : p.game.done ≡ false
    pub observed : length p.observation ≡ observation_length
    pub wide : All IsWide p.history
    pub best : p.board.score ≡ p.game.state.score

  -- What one move comes to.
  pub record Moved (sim : S R L state32 reward32 T draw digest)
      (p : P R L state32 reward32 T draw digest) (r : StepResult F)
      (sim' : S R L state32 reward32 T draw digest) (p' : P R L state32 reward32 T draw digest)
      : Type 0 where
    pub ready : IsReady sim'
    pub settings : sim'.settings ≡ sim.settings
    pub reported : sim'.reported ≡ sim.reported
    pub state : sim'.state ≡ sim.state
    pub playable : IsPlayable R plus p'.game
    pub over : p'.game.done ≡ r.done
    pub terminal : r.done ≡ is_terminal r.outcome
    pub observed : length r.observed ≡ observation_length
    pub best : p'.board.score ≡ p'.game.state.score
    pub counted : p'.game.state.move_count ≡ p.game.state.move_count + 1
    pub limit : move_limit R plus p'.game ≡ move_limit R plus p.game
    pub framed : length p'.frames ≡ length p.frames + 1
    pub history : p'.history ≡ p.history

  best_board :
      (old new : GameState) (n : ℕ)
      → old.score ≡ n
      → n ≤ new.score
      → (if ltb old.score new.score then new else old).score ≡ new.score
  best_board old new n h k = ground (arith, h, k)

  -- A move of a running episode returns: the transition is stored and all is ready for the next one.
  pub play_move-Moved :
      (moments : Moments) (episode : ℕ) (sim : S R L state32 reward32 T draw digest)
      (p : P R L state32 reward32 T draw digest)
      → IsReady sim
      → IsPlaying p
      → (r : StepResult F) × (sim' : S R L state32 reward32 T draw digest) × (p' : P R L state32
          reward32 T draw digest)
        × (play_move R L state32 reward32 T draw digest moments episode sim p ≡ ok (r, sim', p'))
        × Moved sim p r sim' p'
  unfolding play_move
  play_move-Moved moments episode sim p ready going =
      let (a, selected, below) = select_action-ok sim p.history ready going.wide in
      let chosen = drawn_from-IsReady sim ready in
      let (b, known) = known_action a below in
      let argument = ActionArgument.index (pos a) in
      let (r, played, playable, same_state, over, counted, limit) =
        play-IsPlayable R plus p.game argument b going.playable going.running known in
      let (long, more, terminal) =
        play-result R plus p.game argument b r going.playable going.running known played in
      let (m, stored, well, played_memory, sized) =
        append-IsPlayed R state32 reward32 sim.replay
          (record {
            state = p.observation;
            action = pos a;
            reward = r.reward;
            next_state = r.observed;
            done = r.done;
          })
          chosen.well chosen.played (going.observed ∙ sym chosen.sized) (long ∙ sym chosen.sized)
          chosen.sized (a, refl, below) in
      rw (selected, played, stored)
        (
          r,
          _,
          _,
          refl,
          record {
            ready = record {
              well = well;
              sized = sized ∙ chosen.sized;
              played = played_memory;
              scheduled = chosen.scheduled;
              three = chosen.three;
            };
            settings = refl;
            reported = refl;
            state = refl;
            playable = playable;
            over = over ∙ sym terminal;
            terminal = terminal;
            observed = long;
            best =
                best_board p.board r.new_state p.game.state.score going.best more
                ∙ ap (λ (s : GameState). s.score) (sym same_state);
            counted = counted;
            limit = limit;
            framed = length-append p.frames (_ ∷ []);
            history = refl;
          },
        )
