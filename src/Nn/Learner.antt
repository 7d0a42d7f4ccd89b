-- ===== src/Nn/Learner.antt =====
-- What a simulation uses of its trainer and of the model that the trainer owns.
pub mod Stored
use snake_lab.Base.{ℕ, ◌<◌, ◌≡◌, Option, List, All, length}
use snake_lab.Base.Int.{ℤ, pos}
use snake_lab.Base.Results.{Result, ok}
use snake_lab.External.{Random}
use snake_lab.Game.State.{observation_length}
use snake_lab.Nn.Replay.{Transition, Episode, ReplayMemory, ReplayError}
use snake_lab.Nn.Replay.Invariant.{IsWell}

-- DGameDef.ACTION_COUNT, which is DNetDef.OUTPUT_SIZE.
abbrev pub action_count : ℕ
action_count = 3

-- An action of which the model has a value.
abbrev pub IsChoice : ℤ → Type 0
IsChoice action = (a : ℕ) × (action ≡ pos a) × (a < action_count)

-- A state with the features that the model asks for.
abbrev pub IsWide : {X : Type 0} → List X → Type 0
IsWide state = length state ≡ observation_length

-- A whole episode of choices of the model, on wide states.
pub record IsPlay {G : Type 0} (e : Episode G) : Type 0 where
  pub choices : All IsChoice e.actions
  pub wide : All IsWide e.states

pub record IsMove {X F : Type 0} (t : Transition X F) : Type 0 where
  pub choice : IsChoice t.action
  pub from : IsWide t.state
  pub to : IsWide t.next_state

module _ {R : Random} {X F G : Type 0} where
  -- The actions and states that a memory holds, of whole episodes and of the current one.
  pub record IsPlayed (m : ReplayMemory R X F G) : Type 0 where
    pub stored : All IsPlay m.episodes
    pub running : All IsMove m.current

-- Trainer.py and RNNModel.py, as the simulator sees them. `choose` is the argmax of the values of the
-- actions after a sequence of states; `train` is Trainer.train, which samples the memory.
pub record Learner (R : Random) (X F G : Type 0) (state32 : X → G) (reward32 : F → G) : Type 1 where
  pub Net : Type 0
  pub choose : Net → List (List X) → Result ReplayError ℕ
  pub train :
      Net → ReplayMemory R X F G → Result ReplayError (Option F × Net × ReplayMemory R X F G)
  pub choose_ok :
      (net : Net) (states : List (List X))
      → All IsWide states
      → (a : ℕ) × (choose net states ≡ ok a) × (a < action_count)
  pub train_ok :
      (net : Net) (m : ReplayMemory R X F G)
      → IsWell R state32 reward32 m
      → IsPlayed m
      → (loss : Option F) × (net' : Net) × (m' : ReplayMemory R X F G) × (train net m
          ≡ ok (loss, net', m'))
        × IsWell R state32 reward32 m'
        × IsPlayed m'
        × (m'.state_size ≡ m.state_size)
