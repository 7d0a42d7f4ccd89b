-- ===== src/Server/Simulator/Episode.antt =====
-- An episode ends.
use Prim.Native.String.{String}
use mathlib.Core.Path.{subst}
use snake_lab.Base.{
  ℕ, zero, suc, ◌+◌, ◌*◌, ◌≤◌, ◌≡◌, refl, sym, ap, ◌∙◌, true, false, List, [], ◌∷◌, ◌++◌, ◌-◌,
  length, All, All-append, All-drop, All-replicate, arith, inl, inr, Bool-cases,
}
use snake_lab.Base.Int.{ℤ, pos, pos_part}
use snake_lab.Base.Results.{ok}
use snake_lab.External.{Random, Floats}
use snake_lab.Game.State.{GameState, Feature}
use snake_lab.Game.State.Observation.{observation-length}
use snake_lab.Game.Moves.{StepResult}
use snake_lab.Game.Rules.Outcomes.{is_terminal}
use snake_lab.Game.Environment.{check_arguments, observe}
use snake_lab.Game.Environment.Episodes.{move_limit, new_game-starts}
use snake_lab.Nn.Learner.{Learner, IsWide}
use snake_lab.Nn.Epsilon.Schedule.{episode_completed-IsScheduled, episode_completed-action_count}
use snake_lab.Server.Results.{EpisodeResult, HighScoreSnapshot, keep_high_score}
use snake_lab.Server.Simulator.{
  Moments, Settings, push, S, P, derived_seed, new_game, start_episode, play_move, look, play_moves,
  episode_result, finish_episode, run_episode,
}
use snake_lab.Server.Simulator.Moves.{IsReady, IsPlaying, Moved, play_move-Moved}

push-All :
    {A : Type 0} (Q : A → Type 0) (n : ℕ) (xs : List A) (x : A)
    → All Q xs
    → Q x
    → All Q (push n xs x)
push-All Q n xs x h q =
    All-drop Q (length (xs ++ x ∷ []) - n) (xs ++ x ∷ []) (All-append Q xs (x ∷ []) h (q, tt))

module _ (R : Random) (L : Floats) {G : Type 0} (state32 : Feature → G) (reward32 : L.F → G)
    (T : Learner R Feature L.F G state32 reward32) (draw : R.State → L.F × R.State)
    (digest : ℤ → String → ℕ → ℕ) where
  open L use {F, plus}

  abbrev Sim : Type 0
  Sim = S R L state32 reward32 T draw digest

  abbrev Ply : Type 0
  Ply = P R L state32 reward32 T draw digest

  -- What holds when the loop of an episode is left.
  pub record Over (sim : Sim) (p : Ply) (r : StepResult F) (sim' : Sim) (p' : Ply) : Type 0 where
    pub ready : IsReady R L state32 reward32 T draw digest sim'
    pub settings : sim'.settings ≡ sim.settings
    pub reported : sim'.reported ≡ sim.reported
    pub state : sim'.state ≡ sim.state
    pub terminal : is_terminal r.outcome ≡ true
    pub best : p'.board.score ≡ p'.game.state.score
    pub limited : p'.game.state.move_count ≤ move_limit R plus p.game + 1
    pub framed :
        length p'.frames + p.game.state.move_count ≡ length p.frames + p'.game.state.move_count

  go_on :
      (sim sim' : Sim) (p p' : Ply) (r : StepResult F)
      → Moved R L state32 reward32 T draw digest sim p r sim' p'
      → All IsWide p.history
      → r.done ≡ false
      → IsPlaying R L state32 reward32 T draw digest
          (look R L state32 reward32 T draw digest sim' r p')
  unfolding look
  go_on sim sim' p p' r h wide open_still = record {
    playable = h.playable;
    running = h.over ∙ open_still;
    observed = h.observed;
    wide =
        push-All IsWide sim'.settings.sequence_length p'.history r.observed
          (subst (All IsWide) (sym h.history) wide) h.observed;
    best = h.best;
  }

  play_moves-last :
      (fuel : ℕ) (moments : Moments) (episode : ℕ) (sim sim' : Sim) (p p' : Ply) (r : StepResult F)
      → play_move R L state32 reward32 T draw digest moments episode sim p ≡ ok (r, sim', p')
      → r.done ≡ true
      → play_moves R L state32 reward32 T draw digest (suc fuel) moments episode sim p
        ≡ ok (r, sim', p')
  unfolding play_moves
  play_moves-last fuel moments episode sim sim' p p' r moved done = rw moved (simp done)

  play_moves-more :
      (fuel : ℕ) (moments : Moments) (episode : ℕ) (sim sim' : Sim) (p p' : Ply) (r : StepResult F)
      → play_move R L state32 reward32 T draw digest moments episode sim p ≡ ok (r, sim', p')
      → r.done ≡ false
      → moments.raised episode p.game.state.move_count ≡ false
      → play_moves R L state32 reward32 T draw digest (suc fuel) moments episode sim p
        ≡ play_moves R L state32 reward32 T draw digest fuel moments episode sim'
            (look R L state32 reward32 T draw digest sim' r p')
  unfolding play_moves
  play_moves-more fuel moments episode sim sim' p p' r moved open_still quiet =
      rw moved (simp (open_still, quiet))

  -- With fuel for the moves that are left, the loop ends if no checkpoint raises.
  play_moves-Over :
      (fuel : ℕ) (moments : Moments) (episode : ℕ) (sim : Sim) (p : Ply)
      → IsReady R L state32 reward32 T draw digest sim
      → IsPlaying R L state32 reward32 T draw digest p
      → ((n : ℕ) → moments.raised episode n ≡ false)
      → move_limit R plus p.game + 1 ≤ p.game.state.move_count + fuel
      → (r : StepResult F) × (sim' : Sim) × (p' : Ply) × (play_moves R L state32 reward32 T draw
            digest fuel moments episode sim p
          ≡ ok (r, sim', p'))
        × Over sim p r sim' p'
  unfolding look
  play_moves-Over zero moments episode sim p ready going quiet enough =
      absurd (omega (arith, enough, going.playable.limited going.running))
  play_moves-Over (suc fuel) moments episode sim p ready going quiet enough =
      let (r, sim', p', moved, h) =
        play_move-Moved R L state32 reward32 T draw digest moments episode sim p ready going in
      elim (Bool-cases r.done) [
        | inl done ↦ (
          r,
          sim',
          p',
          play_moves-last fuel moments episode sim sim' p p' r moved done,
          record {
            ready = h.ready;
            settings = h.settings;
            reported = h.reported;
            state = h.state;
            terminal = sym h.terminal ∙ done;
            best = h.best;
            limited = omega (arith, h.counted, going.playable.limited going.running);
            framed = omega (arith, h.framed, h.counted);
          },
        )
        | inr open_still ↦
            let next = look R L state32 reward32 T draw digest sim' r p' in
            let (r', sim'', p'', played, over) =
              play_moves-Over fuel moments episode sim' next h.ready
                (go_on sim sim' p p' r h going.wide open_still) quiet
                (omega (arith, enough, h.counted, h.limit)) in
            (
              r',
              sim'',
              p'',
              play_moves-more fuel moments episode sim sim' p p' r moved open_still
                    (quiet p.game.state.move_count)
                  ∙ played,
              record {
                ready = over.ready;
                settings = over.settings ∙ h.settings;
                reported = over.reported ∙ h.reported;
                state = over.state ∙ h.state;
                terminal = over.terminal;
                best = over.best;
                limited = omega (arith, over.limited, h.limit);
                framed = omega (arith, over.framed, h.framed, h.counted);
              },
            )
      ]

  -- The arguments of the constructor that its checks pass, for the game of an episode.
  abbrev pub IsGame : ℕ → Settings F → Type 0
  IsGame episode c =
      check_arguments (c.board_width, c.board_height) c.initial_snake_length c.max_moves_multiplier
        (pos episode)
      ≡ ok tt

  -- The most moves of an episode that do not end it.
  abbrev pub moves_of : Settings F → ℕ
  moves_of c = pos_part c.max_moves_multiplier * (pos_part c.board_width * pos_part c.board_height)

  start_episode-IsPlaying :
      (sim : Sim) (episode : ℕ)
      → IsGame episode sim.settings
      → (p : Ply) × (start_episode R L state32 reward32 T draw digest sim episode ≡ ok p)
        × IsPlaying R L state32 reward32 T draw digest p
        × (p.game.state.move_count ≡ 0)
        × (length p.frames ≡ 1)
        × (move_limit R plus p.game ≡ moves_of sim.settings)
  unfolding start_episode new_game observe
  start_episode-IsPlaying sim episode fit =
      let c = sim.settings in
      let (g, made, playable, running, fresh, limit) =
        new_game-starts R plus (derived_seed digest c.seed "episode" episode) c.board_width
          c.board_height c.initial_snake_length c.max_moves_multiplier (pos episode) c.rewards
          fit in
      let (values, seen, long) = observation-length g.state playable.valid.cardinal in
      rw (made, seen)
        (
          _,
          refl,
          record {
            playable = playable;
            running = running;
            observed = long;
            wide = All-replicate IsWide c.sequence_length values long;
            best = refl;
          },
          fresh,
          refl,
          limit,
        )

  -- What an episode comes to.
  pub record Played (episode : ℕ) (sim : Sim) (result : EpisodeResult F) (sim' : Sim) : Type 0 where
    pub ready : IsReady R L state32 reward32 T draw digest sim'
    pub settings : sim'.settings ≡ sim.settings
    pub reported : sim'.reported ≡ sim.reported
    pub numbered : result.episode ≡ episode
    pub terminal : is_terminal result.outcome ≡ true
    pub limited : result.steps ≤ moves_of sim.settings + 1
    pub kept :
        (board : GameState) × (frames : List HighScoreSnapshot) × (sim'.state
          ≡ keep_high_score sim.state result board frames)
        × (board.score ≡ result.score)
        × (length frames ≡ result.steps + 1)

  finish_episode-Played :
      (episode : ℕ) (epsilon : F) (sim sim' : Sim) (p p' : Ply) (r : StepResult F)
      → Over sim p r sim' p'
      → p.game.state.move_count ≡ 0
      → length p.frames ≡ 1
      → move_limit R plus p.game ≡ moves_of sim.settings
      → (result : EpisodeResult F) × (sim'' : Sim) × (finish_episode R L state32 reward32 T draw
            digest episode epsilon sim' r p'
          ≡ ok (result, sim''))
        × Played episode sim result sim''
  unfolding finish_episode episode_result
  finish_episode-Played episode epsilon sim sim' p p' r h fresh one limit =
      let (loss, net, m, trained, well, played, sized) =
        T.train_ok sim'.net sim'.replay h.ready.well h.ready.played in
      let result =
        episode_result R L state32 reward32 T draw digest episode epsilon sim' r p' loss in
      rw trained (
        result,
        _,
        refl,
        record {
          ready = record {
            well = well;
            sized = sized ∙ h.ready.sized;
            played = played;
            scheduled = (episode_completed-IsScheduled L R draw sim'.epsilon h.ready.scheduled).0;
            three = episode_completed-action_count L R draw sim'.epsilon ∙ h.ready.three;
          };
          settings = h.settings;
          reported = h.reported;
          numbered = refl;
          terminal = h.terminal;
          limited = omega (arith, h.limited, limit);
          kept = (
            p'.board,
            p'.frames,
            ap (λ s. keep_high_score s result p'.board p'.frames) h.state,
            h.best,
            omega (arith, h.framed, fresh, one),
          );
        },
      )

  -- An episode that no checkpoint interrupts, of a game that its constructor accepts, ends within the
  -- move limit and one move, with a terminal outcome: given fuel for as many moves, `_run_episode`
  -- raises nothing. Afterwards memory and schedule are well formed, and what the simulation may keep is a
  -- board with the score of the episode and one frame more than it had moves.
  pub run_episode-Played :
      (fuel : ℕ) (moments : Moments) (episode : ℕ) (sim : Sim)
      → IsReady R L state32 reward32 T draw digest sim
      → IsGame episode sim.settings
      → ((n : ℕ) → moments.raised episode n ≡ false)
      → moves_of sim.settings + 1 ≤ fuel
      → (result : EpisodeResult F) × (sim' : Sim) × (run_episode R L state32 reward32 T draw digest
            fuel moments episode sim
          ≡ ok (result, sim'))
        × Played episode sim result sim'
  unfolding run_episode
  run_episode-Played fuel moments episode sim ready fit quiet enough =
      let (p, started, going, fresh, one, limit) = start_episode-IsPlaying sim episode fit in
      let (r, sim', p', played, over) =
        play_moves-Over fuel moments episode sim p ready going quiet
          (omega (arith, enough, limit, fresh)) in
      let (result, sim'', finished, h) =
        finish_episode-Played episode sim.epsilon.epsilon sim sim' p p' r over fresh one limit in
      rw (started, played, finished) (result, sim'', refl, h)
