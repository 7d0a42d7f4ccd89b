-- ===== src/Nn/Trainer.antt =====
-- nn/Trainer.py over the operations of PyTorch that it uses, which are a parameter: the layers of RNNModel are
-- PyTorch's, and `action_values` is its check of the features before them. Devices, dtypes and logging are left out.
pub mod Training
use snake_lab.Base.{
  ℕ, zero, ◌<◌, ◌≡◌, Bool, true, false, not, ◌&&◌, ◌||◌, Option, none, some, List, [], ◌∷◌, length,
  map, ◌==◌,
}
use snake_lab.Base.Int.{ℤ, pos_part}
use snake_lab.Base.Results.{Result, ok, err, ◌>>=◌, ◌>>◌, refuse, require}
use snake_lab.External.{Random, Floats}
use snake_lab.Nn.Replay.{Sample, ReplayMemory, ReplayError, at, sample}
use snake_lab.Game.State.{observation_length}
use snake_lab.Nn.Learner.{action_count}

-- `forward`, the layers of the model, gives the values of the actions after the last of some states, in training mode or not;
-- its last layer has an output for each action. `criterion` is the loss of predictions and targets,
-- `descend` its backward pass with the clipping and the step of the optimizer, on the rows of a batch
-- with their targets, and `lerp` moves the parameters of a target model.
pub record Torch (F G : Type 0) : Type 1 where
  pub Weights : Type 0
  pub Optimizer : Type 0
  pub forward : Bool → Weights → List (List G) → List G
  pub argmax : List G → ℕ
  pub plus : G → G → G
  pub times : G → G → G
  pub scalar : F → G
  pub of_bool : Bool → G
  pub item : G → F
  pub optimizer : F → Weights → Optimizer
  pub criterion : List G → List G → G
  pub descend : Option F → Weights → Optimizer → List (Sample G) → List G → Weights × Optimizer
  pub lerp : Weights → Weights → F → Weights
  pub clear : Optimizer → Optimizer
  pub forward_length :
      (training : Bool) (w : Weights) (states : List (List G))
      → length (forward training w states) ≡ action_count
  pub argmax_lt : (values : List G) → 0 < length values → argmax values < length values

pub data TrainerError : Type 0 where
  bad_learning_rate bad_gamma bad_tau bad_max_gradient_norm : TrainerError

pub record Trainer {F G : Type 0} (P : Torch F G) : Type 0 where
  pub model : P.Weights
  pub target_model : P.Weights
  pub gamma : F
  pub tau : F
  pub max_gradient_norm : Option F
  pub optimizer : P.Optimizer

module _ (L : Floats) where
  abbrev pub is_positive_norm : Option L.F → Bool
  is_positive_norm none = true
  is_positive_norm (some norm) = not (L.le norm L.zero)

  -- Trainer(...)
  unfoldable pub new_trainer :
      {G : Type 0} (P : Torch L.F G)
      → P.Weights
      → L.F
      → L.F
      → L.F
      → Option L.F
      → Result TrainerError (Trainer P)
  new_trainer P model learning_rate gamma tau max_gradient_norm = do
    refuse (L.le learning_rate L.zero) bad_learning_rate
    require (L.le L.zero gamma && L.le gamma L.one) bad_gamma
    require (L.lt L.zero tau && L.le tau L.one) bad_tau
    require (is_positive_norm max_gradient_norm) bad_max_gradient_norm
    ok (record {
      model = model;
      target_model = model;
      gamma = gamma;
      tau = tau;
      max_gradient_norm = max_gradient_norm;
      optimizer = P.optimizer learning_rate model;
    })

-- Every row, or the first error.
pub each : {A B : Type 0} → (A → Result ReplayError B) → List A → Result ReplayError (List B)
each f [] = ok []
each f (a ∷ xs) = do b ← f a; bs ← each f xs; ok (b ∷ bs)

module _ {F G : Type 0} (P : Torch F G) where
  open P use {plus, times}

  abbrev pub all_wide : List (List G) → Bool
  all_wide [] = true
  all_wide (state ∷ states) = length state == observation_length && all_wide states

  -- `RNNModel.forward` on the states of a row, with the check of `forward_sequence`.
  pub action_values : Bool → P.Weights → List (List G) → Result ReplayError (List G)
  action_values training w states = do
    require (all_wide states) ReplayError.bad_features
    ok (P.forward training w states)

  -- `gather` on one row; an index that is out of range is an error.
  pub predicted : Trainer P → Sample G → Result ReplayError G
  predicted t row = do
    values ← action_values true t.model row.states
    at values (pos_part row.action)

  -- The model chooses the next action, and the target model values it.
  pub target : Trainer P → Sample G → Result ReplayError G
  target t row = do
    next_values ← action_values false t.model row.next_states
    target_values ← action_values false t.target_model row.next_states
    target_next ← at target_values (P.argmax next_values)
    ok (plus row.reward (times (times (P.scalar t.gamma) target_next) (P.of_bool (not row.done))))

  -- `_soft_update_target`
  pub soft_update_target : Trainer P → Trainer P
  soft_update_target t = record t { target_model = P.lerp t.target_model t.model t.tau }

  pub learn : Trainer P → List (Sample G) → Result ReplayError (F × Trainer P)
  learn t rows = do
    predictions ← each (predicted t) rows
    targets ← each (target t) rows
    let (model, optimizer) = P.descend t.max_gradient_norm t.model t.optimizer rows targets
    ok (
      P.item (P.criterion predictions targets),
      soft_update_target (record t { model = model; optimizer = optimizer }),
    )

  unfoldable pub reset : Trainer P → Trainer P
  reset t = record t { optimizer = P.clear t.optimizer; target_model = t.model }

  -- The action of the greatest value, in evaluation mode: the end of Simulator._select_action.
  pub choose : Trainer P → List (List G) → Result ReplayError ℕ
  choose t states = do values ← action_values false t.model states; ok (P.argmax values)

module _ (R : Random) {X F G : Type 0} (state32 : X → G) (reward32 : F → G) (P : Torch F G) where
  pub train :
      Trainer P
      → ReplayMemory R X F G
      → Result ReplayError (Option F × Trainer P × ReplayMemory R X F G)
  train t m = do
    (batch, m') ← sample R state32 reward32 m
    elim batch [
      | none ↦ ok (none, t, m')
      | some rows ↦ do (loss, t') ← learn P t rows; ok (some loss, t', m')
    ]
