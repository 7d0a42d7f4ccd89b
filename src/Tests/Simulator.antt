-- ===== src/Tests/Simulator.antt =====
-- A simulation of two short episodes, with a model that always prefers the last action.
use Prim.Native.String.{String}
use snake_lab.Base.{
  ℕ, ◌+◌, ◌*◌, ◌-◌, ◌≡◌, refl, true, false, none, [], ◌∷◌, length, arith, if◌then◌else◌,
}
use snake_lab.Base.Int.{ℤ, pos, ◌*ℤ◌}
use snake_lab.Base.Results.{ok, err}
use snake_lab.External.{counting, thousandths}
use snake_lab.Game.State.{Feature}
use snake_lab.Game.Environment.{check_arguments}
use snake_lab.Nn.Epsilon.{EpsilonAlgo, new_epsilon, probability}
use snake_lab.Nn.Learner.{Learner}
use snake_lab.Nn.Trainer.{Torch, Trainer, reset, new_trainer, bad_tau}
use snake_lab.Nn.Trainer.Training.{trainer_learner}
use snake_lab.Server.Results.Tally.{IsTally}
use snake_lab.Server.Results.HighScore.{IsKept}
use snake_lab.Server.Simulator.{Moments, Settings, S, run, derived_seed}
use snake_lab.Server.Simulator.Runs.{results_of, IsQuiet, IsRunnable, run-Going}
use snake_lab.Tests.Game.{rewards}

abbrev torch : Torch ℕ ℕ
torch = record {
  Weights = ℕ;
  Optimizer = ℕ;
  forward = λ training w states. w ∷ 1 ∷ 2 ∷ [];
  argmax = λ values. length values - 1;
  plus = λ a b. a + b;
  times = λ a b. a * b;
  scalar = λ x. x;
  of_bool = λ b. if b then 1 else 0;
  item = λ x. x;
  optimizer = λ rate w. rate;
  criterion = λ predictions targets. length predictions;
  descend = λ norm w optimizer rows targets. (w + length rows, optimizer);
  lerp = λ old new tau. new;
  clear = λ optimizer. 0;
  forward_length = λ training w states. refl;
  argmax_lt = λ values h. omega (arith, h);
}

abbrev trainer : Trainer torch
trainer = record {
  model = 5;
  target_model = 5;
  gamma = 900;
  tau = 10;
  max_gradient_norm = none;
  optimizer = 1;
}

abbrev number : Feature → ℕ
number f = 0

abbrev same : ℕ → ℕ
same x = x

abbrev learner : Learner counting Feature ℕ ℕ number same
learner = trainer_learner counting number same torch

-- Draws are the state of the counter, in thousandths.
abbrev draw : ℕ → ℕ × ℕ
draw s = (s, s + 1)

abbrev digest : ℤ → String → ℕ → ℕ
digest seed namespace index = index

abbrev settings : Settings ℕ
settings = record {
  epochs = pos 2;
  seed = pos 11;
  board_width = pos 4;
  board_height = pos 4;
  initial_snake_length = pos 2;
  max_moves_multiplier = pos 1;
  rewards = rewards;
  sequence_length = 2;
  batch_size = 2;
  replay_max_frames = 100;
  initial = 900;
  minimum = 50;
  decay = 990;
}

abbrev quiet : Moments
quiet = record {
  before = λ e. false;
  watched = λ e n. true;
  raised = λ e n. false;
  after = λ e. false;
}

quiet-IsQuiet : IsQuiet quiet
quiet-IsQuiet = record { before = λ e. refl; during = λ e n. refl; after = λ e. refl }

abbrev first_schedule : EpsilonAlgo counting thousandths
first_schedule = record {
  rng = 0;
  initial = 900;
  minimum = 50;
  decay = 990;
  cutoff = 1;
  action_count = 3;
  epsilon = 900;
  episode_injections = 0;
  total_injections = 0;
  episodes = 0;
  floor_logged = false;
}

settings-IsRunnable : IsRunnable counting thousandths number same learner draw digest 1 settings
unfolding check_arguments new_epsilon probability derived_seed ◌*ℤ◌
settings-IsRunnable = record {
  game = refl;
  sequence = omega arith;
  batch = omega arith;
  room = omega arith;
  schedule = first_schedule;
  scheduled = refl;
}

run-Going_example :
    (sim : S counting thousandths number same learner draw digest) × (run counting thousandths
        number same learner draw digest 17 quiet 1 trainer settings
      ≡ ok sim)
    × (sim.state.completed_epochs ≡ 2)
    × IsTally thousandths.plus 0 sim.state
    × IsKept sim.state
    × (results_of sim.reported ≡ sim.state.episodes)
run-Going_example =
    run-Going counting thousandths number same learner draw digest 17 quiet 1 trainer settings
      settings-IsRunnable quiet-IsQuiet (omega arith)

-- A reset takes the model over as it is.
reset_takes_over : (reset torch (record trainer { model = 9 })).target_model ≡ 9
unfolding reset
reset_takes_over = refl

-- A target model that never moves is refused.
no_tau : new_trainer thousandths torch 5 1 900 0 none ≡ err bad_tau
unfolding new_trainer
no_tau = refl
