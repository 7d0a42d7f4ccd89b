-- ===== src/Server/Simulator/Runs.antt =====
-- A simulation runs all its episodes.
use Prim.Native.String.{String}
use mathlib.Core.Path.{subst}
use snake_lab.Base.{
  ℕ, zero, suc, ◌+◌, ◌*◌, ◌≤◌, ◌<◌, ◌≡◌, refl, sym, ap, ◌∙◌, ◌++◌, Bool, true, false, ◌&&◌, List,
  [], ◌∷◌, length, arith, All, range_from, length-range_from,
}
use snake_lab.Base.Int.{ℤ, pos, pos_part, ltb_ℤ, ◌<ℤ◌, ◌≤ℤ◌, ◌*ℤ◌}
use snake_lab.Base.Results.{ok}
use snake_lab.External.{Random, Floats}
use snake_lab.Game.State.{Feature, observation_length}
use snake_lab.Game.Environment.Episodes.{check_arguments_iff}
use snake_lab.Nn.Replay.Invariant.{new_memory-starts}
use snake_lab.Nn.Epsilon.{EpsilonAlgo, new_epsilon}
use snake_lab.Nn.Epsilon.Schedule.{new_epsilon-IsScheduled, new_epsilon-action_count}
use snake_lab.Nn.Learner.{Learner, IsPlay, IsMove, action_count}
use snake_lab.Server.Results.{EpisodeResult, SimulationState, new_state, record_result}
use snake_lab.Server.Results.Tally.{
  IsTally, new_state-IsTally, record_result-IsTally, keep_high_score-IsTally,
  record_result-completed, record_result-episodes,
}
use snake_lab.Server.Results.HighScore.{IsKept, new_state-IsKept, keep_high_score-IsKept}
use snake_lab.Server.Simulator.{
  Moments, Settings, S, derived_seed, report, run_episode, run_episodes, setup, run,
}
use snake_lab.Server.Simulator.Moves.{IsReady}
use snake_lab.Server.Simulator.Episode.{IsGame, moves_of, Played, run_episode-Played}

-- No checkpoint of the listed episodes raises.
pub record IsQuiet (moments : Moments) : Type 0 where
  pub before : (episode : ℕ) → moments.before episode ≡ false
  pub during : (episode n : ℕ) → moments.raised episode n ≡ false
  pub after : (episode : ℕ) → moments.after episode ≡ false

positive : (e : ℕ) → 1 ≤ e → pos 0 <ℤ pos e
positive e h = ground (arith, h)

has_room : {n b m : ℕ} → 0 < n → 0 < b → n * b ≤ m → 0 < m
has_room {n} {b} {m} h k room = grind arith

fits_in : (n b m : ℕ) → n * b ≤ m → pos n *ℤ pos b ≤ℤ pos m
unfolding ◌*ℤ◌
fits_in n b m h = ground (arith, h)

and_false : (b : Bool) → (b && false) ≡ false
and_false true = refl
and_false false = refl

from_one : (i n : ℕ) → 1 ≤ i → All (λ e. 1 ≤ e) (range_from i n)
from_one i zero h = tt
from_one i (suc n) h = (h, from_one (suc i) n (omega (arith, h)))

abbrev pub results_of :
    {F : Type 0} → List (EpisodeResult F × SimulationState F) → List (EpisodeResult F)
results_of [] = []
results_of ((result, state) ∷ calls) = result ∷ results_of calls

results_append :
    {F : Type 0} (calls : List (EpisodeResult F × SimulationState F)) (result : EpisodeResult F)
    (state : SimulationState F)
    → results_of (calls ++ (result, state) ∷ []) ≡ results_of calls ++ result ∷ []
results_append [] result state = refl
results_append ((r, s) ∷ calls) result state = ap (λ rs. r ∷ rs) (results_append calls result state)

module _ (R : Random) (L : Floats) {G : Type 0} (state32 : Feature → G) (reward32 : L.F → G)
    (T : Learner R Feature L.F G state32 reward32) (draw : R.State → L.F × R.State)
    (digest : ℤ → String → ℕ → ℕ) where
  open L use {F, plus}

  abbrev Sim : Type 0
  Sim = S R L state32 reward32 T draw digest

  -- If the checks pass for the first episode, they do for each.
  every_game :
      (c : Settings F) (e : ℕ)
      → IsGame R L state32 reward32 T draw digest 1 c
      → 1 ≤ e
      → IsGame R L state32 reward32 T draw digest e c
  every_game c e h more =
      let f =
        (check_arguments_iff c.board_width c.board_height c.initial_snake_length
            c.max_moves_multiplier (pos 1)).0
          h in
      (check_arguments_iff c.board_width c.board_height c.initial_snake_length
          c.max_moves_multiplier (pos e)).1
        (f.0, f.1, f.2, f.3, f.4, f.5, positive e more)

  -- What a simulation keeps between two episodes.
  pub record Going (c : Settings F) (sim : Sim) : Type 0 where
    pub ready : IsReady R L state32 reward32 T draw digest sim
    pub settings : sim.settings ≡ c
    pub tally : IsTally plus L.zero sim.state
    pub reported : results_of sim.reported ≡ sim.state.episodes
    pub kept : IsKept sim.state

  abbrev recorded : Sim → EpisodeResult F → Sim
  recorded sim result =
      report R L state32 reward32 T draw digest result
        (record sim { state = record_result plus sim.state result })

  recorded-Going :
      (c : Settings F) (episode : ℕ) (sim sim' : Sim) (result : EpisodeResult F)
      → Going c sim
      → Played R L state32 reward32 T draw digest episode sim result sim'
      → Going c (recorded sim' result)
        × ((recorded sim' result).state.completed_epochs ≡ sim.state.completed_epochs + 1)
  recorded-Going c episode sim sim' result h played =
      let (board, frames, same, scored, framed) = played.kept in
      (
        record {
          ready = record {
            well = played.ready.well;
            sized = played.ready.sized;
            played = played.ready.played;
            scheduled = played.ready.scheduled;
            three = played.ready.three;
          };
          settings = played.settings ∙ h.settings;
          tally = record_result-IsTally plus L.zero sim'.state result (
              subst (IsTally plus L.zero) (sym same)
                (keep_high_score-IsTally plus L.zero sim.state result board frames h.tally));
          reported =
              results_append sim'.reported result (record_result plus sim'.state result)
              ∙ ap (λ rs. rs ++ result ∷ []) (ap results_of played.reported ∙ h.reported)
              ∙ sym (
                  ap (λ s. (record_result plus s result).episodes) same
                  ∙ record_result-episodes plus sim.state result board frames);
          kept =
              subst (λ s. IsKept (record_result plus s result)) (sym same)
                (keep_high_score-IsKept plus sim.state result board frames h.kept scored).0;
        },
        ap (λ s. (record_result plus s result).completed_epochs) same
            ∙ record_result-completed plus sim.state result board frames,
      )

  run_episodes-more :
      (fuel : ℕ) (moments : Moments) (episode : ℕ) (rest : List ℕ) (sim sim' : Sim)
      (result : EpisodeResult F)
      → IsQuiet moments
      → run_episode R L state32 reward32 T draw digest fuel moments episode sim ≡ ok (result, sim')
      → run_episodes R L state32 reward32 T draw digest fuel moments (episode ∷ rest) sim
        ≡ run_episodes R L state32 reward32 T draw digest fuel moments rest (recorded sim' result)
  unfolding run_episodes
  run_episodes-more fuel moments episode rest sim sim' result quiet played =
      let calm : (ltb_ℤ (pos episode) sim.settings.epochs && moments.after episode) ≡ false =
        ap (λ b. ltb_ℤ (pos episode) sim.settings.epochs && b) (quiet.after episode)
        ∙ and_false (ltb_ℤ (pos episode) sim.settings.epochs) in
      rw (run_episodes, quiet.before episode) (rw played (simp calm))

  run_episodes-Going :
      (fuel : ℕ) (moments : Moments) (c : Settings F) (episodes : List ℕ) (sim : Sim)
      → Going c sim
      → IsQuiet moments
      → IsGame R L state32 reward32 T draw digest 1 c
      → All (λ e. 1 ≤ e) episodes
      → moves_of R L state32 reward32 T draw digest c + 1 ≤ fuel
      → (sim' : Sim) × (run_episodes R L state32 reward32 T draw digest fuel moments episodes sim
          ≡ ok sim')
        × Going c sim'
        × (sim'.state.completed_epochs ≡ sim.state.completed_epochs + length episodes)
  unfolding run_episodes
  run_episodes-Going fuel moments c [] sim h quiet fit numbered enough = (sim, refl, h, omega arith)
  run_episodes-Going fuel moments c (episode ∷ rest) sim h quiet fit numbered enough =
      let game = every_game c episode fit numbered.0 in
      let (result, sim', ran, played) =
        run_episode-Played R L state32 reward32 T draw digest fuel moments episode sim h.ready
          (subst (IsGame R L state32 reward32 T draw digest episode) (sym h.settings) game)
          (quiet.during episode)
          (subst (λ d. moves_of R L state32 reward32 T draw digest d + 1 ≤ fuel) (sym h.settings)
            enough) in
      let (going, one_more) = recorded-Going c episode sim sim' result h played in
      let (sim'', others, over, counted) =
        run_episodes-Going fuel moments c rest (recorded sim' result) going quiet fit numbered.1
          enough in
      (
        sim'',
        run_episodes-more fuel moments episode rest sim sim' result quiet ran ∙ others,
        over,
        omega (arith, counted, one_more),
      )

  -- The configurations that the constructors of the parts accept.
  pub record IsRunnable (cutoff : F) (c : Settings F) : Type 0 where
    pub game : IsGame R L state32 reward32 T draw digest 1 c
    pub sequence : 0 < c.sequence_length
    pub batch : 0 < c.batch_size
    pub room : c.sequence_length * c.batch_size ≤ c.replay_max_frames
    pub schedule : EpsilonAlgo R L
    pub scheduled :
        new_epsilon L R draw
          (R.seeded (derived_seed digest c.seed "epsilon" 0))
          c.initial
          c.minimum
          c.decay
          cutoff
          (pos action_count)
        ≡ ok schedule

  setup-Going :
      (cutoff : F) (net : T.Net) (c : Settings F)
      → IsRunnable cutoff c
      → (sim : Sim) × (setup R L state32 reward32 T draw digest cutoff net c ≡ ok sim)
        × Going c sim
        × (sim.state.completed_epochs ≡ 0)
  unfolding setup new_state
  setup-Going cutoff net c h =
      let (m, made, well, empty, fits, closed, sized) =
        new_memory-starts R state32 reward32 (pos observation_length) (pos c.sequence_length)
          (pos c.batch_size) (pos c.replay_max_frames) (derived_seed digest c.seed "replay" 0)
          (positive observation_length (omega arith)) (positive c.sequence_length h.sequence)
          (positive c.batch_size h.batch)
          (positive c.replay_max_frames (has_room h.sequence h.batch h.room))
          (fits_in c.sequence_length c.batch_size c.replay_max_frames h.room) in
      let (scheduled, _) =
        new_epsilon-IsScheduled L R draw (R.seeded (derived_seed digest c.seed "epsilon" 0))
          c.initial c.minimum c.decay cutoff (pos action_count) h.schedule h.scheduled in
      rw (made, h.scheduled)
        (
          _,
          refl,
          record {
            ready = record {
              well = well;
              sized = sized;
              played = record {
                stored = subst (All (IsPlay {G = G})) (sym empty) tt;
                running = subst (All (IsMove {X = Feature} {F = F})) (sym closed) tt;
              };
              scheduled = scheduled;
              three =
                  new_epsilon-action_count L R draw
                    (R.seeded (derived_seed digest c.seed "epsilon" 0)) c.initial c.minimum c.decay
                    cutoff (pos action_count) h.schedule h.scheduled;
            };
            settings = refl;
            reported = refl;
            tally = new_state-IsTally plus L.zero c.epochs;
            kept = new_state-IsKept L.zero c.epochs;
          },
          refl,
        )

  -- A simulation of a configuration that the constructors of its parts accept, and that no checkpoint
  -- interrupts, runs all its episodes: given fuel for the moves of one episode, it raises nothing.
  -- Afterwards as many epochs are completed as were asked for, none if the number is negative; the
  -- counts, the total of the rewards, the last loss and the bound of the scores are those of the
  -- episodes, each of which was reported, and the kept board has the high score.
  pub run-Going :
      (fuel : ℕ) (moments : Moments) (cutoff : F) (net : T.Net) (c : Settings F)
      → IsRunnable cutoff c
      → IsQuiet moments
      → moves_of R L state32 reward32 T draw digest c + 1 ≤ fuel
      → (sim : Sim) × (run R L state32 reward32 T draw digest fuel moments cutoff net c ≡ ok sim)
        × (sim.state.completed_epochs ≡ pos_part c.epochs)
        × IsTally plus L.zero sim.state
        × IsKept sim.state
        × (results_of sim.reported ≡ sim.state.episodes)
  unfolding run
  run-Going fuel moments cutoff net c h quiet enough =
      let (sim, ready, going, none_yet) = setup-Going cutoff net c h in
      let (sim', ran, over, counted) =
        run_episodes-Going fuel moments c (range_from 1 (pos_part c.epochs)) sim going quiet h.game
          (from_one 1 (pos_part c.epochs) (omega arith)) enough in
      rw (ready, ran)
        (
          sim',
          refl,
          omega (arith, counted, none_yet, length-range_from 1 (pos_part c.epochs)),
          over.tally,
          over.kept,
          over.reported,
        )
