-- ===== src/Server/Lab.antt =====
-- What the server promises, without its messages: the state of each run, the queue, the run that the
-- worker executes, and the runs whose end has been told.
pub mod States
pub mod Invariant
pub mod Preservation
use Prim.Native.String.{String}
use text.Mathlib.Text.{◌==◌}
use snake_lab.Base.{
  ◌≡◌, refl, Bool, true, false, Option, none, some, List, [], ◌∷◌, ◌++◌, if◌then◌else◌,
}
use snake_lab.Server.Run.{RunState}

pub record Lab : Type 0 where
  pub states : String → Option RunState
  pub queue : List String
  pub worker : Option String
  pub ended : List String

abbrev pub IsActive : RunState → Type 0
IsActive RunState.running = Unit
IsActive RunState.paused = Unit
IsActive RunState.cancelling = Unit
IsActive _ = ⊥

abbrev pub IsTerminal : RunState → Type 0
IsTerminal RunState.completed = Unit
IsTerminal RunState.failed = Unit
IsTerminal RunState.cancelled = Unit
IsTerminal _ = ⊥

-- The states `g` are `f` with the run `k` in state `s`.
abbrev pub Puts :
    String → RunState → (String → Option RunState) → (String → Option RunState) → Type 0
Puts k s f g = (j : String) → g j ≡ (if k == j then some s else f j)

abbrev pub Same : (String → Option RunState) → (String → Option RunState) → Type 0
Same f g = (j : String) → g j ≡ f j

-- One step of the lab.
pub data Step (a b : Lab) : Type 0 where
  -- Nothing happens to a run.
  rests :
      Same a.states b.states
      → b.queue ≡ a.queue
      → b.worker ≡ a.worker
      → b.ended ≡ a.ended
      → Step a b
  -- A new run waits at the end of the queue.
  admits :
      (k : String)
      → a.states k ≡ none
      → Puts k RunState.queued a.states b.states
      → b.queue ≡ a.queue ++ k ∷ []
      → b.worker ≡ a.worker
      → b.ended ≡ a.ended
      → Step a b
  -- An active run is paused, resumed or asked to stop.
  steers :
      (k : String) (s t : RunState)
      → a.states k ≡ some s
      → IsActive s
      → IsActive t
      → Puts k t a.states b.states
      → b.queue ≡ a.queue
      → b.worker ≡ a.worker
      → b.ended ≡ a.ended
      → Step a b
  -- A queued run is cancelled where it waits.
  drops :
      (k : String)
      → a.states k ≡ some RunState.queued
      → Puts k RunState.cancelled a.states b.states
      → b.queue ≡ a.queue
      → b.worker ≡ a.worker
      → b.ended ≡ a.ended ++ k ∷ []
      → Step a b
  -- A cancelled run leaves the queue.
  skips :
      (k : String)
      → a.states k ≡ some RunState.cancelled
      → Same a.states b.states
      → a.queue ≡ k ∷ b.queue
      → b.worker ≡ a.worker
      → b.ended ≡ a.ended
      → Step a b
  -- The free worker takes the queued run that has waited longest.
  takes :
      (k : String)
      → a.states k ≡ some RunState.queued
      → Puts k RunState.running a.states b.states
      → a.queue ≡ k ∷ b.queue
      → a.worker ≡ none
      → b.worker ≡ some k
      → b.ended ≡ a.ended
      → Step a b
  -- The run that the worker executes ends, and its end is told.
  finishes :
      (k : String) (s t : RunState)
      → a.states k ≡ some s
      → IsActive s
      → IsTerminal t
      → Puts k t a.states b.states
      → b.queue ≡ a.queue
      → a.worker ≡ some k
      → b.worker ≡ none
      → b.ended ≡ a.ended ++ k ∷ []
      → Step a b

pub data Steps : Lab → Lab → Type 0 where
  done : {a : Lab} → Steps a a
  more : {a b c : Lab} → Step a b → Steps b c → Steps a c

pub then_Steps : {a b c : Lab} → Steps a b → Steps b c → Steps a c
then_Steps done ts = ts
then_Steps (more s ss) ts = more s (then_Steps ss ts)
