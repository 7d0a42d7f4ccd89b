-- ===== src/Server/Transitions.antt =====
-- The states of a run, the moves between them, and the server's invariant.
use Prim.Native.String.{String}
use snake_lab.Base.{◌≡◌, refl, none, some}
use snake_lab.Base.Dicts.{
  lookup, insert, Extends, Extends-refl, Extends-insert, Extends-create, Matched, Matched-insert,
  Matched-keep,
}
use snake_lab.Server.Lab.{IsActive, IsTerminal}
use snake_lab.Server.Lab.States.{terminal_busy}
use snake_lab.Server.Run.{RunState, SimulationRun}
use snake_lab.Server.Store.{StoredRun}
use snake_lab.Server.Service.{SimulationServer}

-- The moves of a run from state to state.
pub data Moves : RunState → RunState → Type 0 where
  stays : {s : RunState} → Moves s s
  starts : Moves RunState.queued RunState.running
  drops : Moves RunState.queued RunState.cancelled
  pauses : Moves RunState.running RunState.paused
  resumes : Moves RunState.paused RunState.running
  stops : {s : RunState} → IsActive s → Moves s RunState.cancelling
  ends : {s t : RunState} → IsActive s → IsTerminal t → Moves s t

-- A terminal state is final.
pub Moves-terminal : {s t : RunState} → Moves s t → IsTerminal s → t ≡ s
Moves-terminal stays final = refl
Moves-terminal starts final = absurd final
Moves-terminal drops final = absurd final
Moves-terminal pauses final = absurd final
Moves-terminal resumes final = absurd final
Moves-terminal (stops {s = s} a) final = absurd (terminal_busy s final a)
Moves-terminal (ends {s = s} a t) final = absurd (terminal_busy s final a)

module _ {C F : Type 0} where
  abbrev pub RunMoves : SimulationRun C F → SimulationRun C F → Type 0
  RunMoves r r' = Moves r.state r'.state

  abbrev pub IsNew : SimulationRun C F → Type 0
  IsNew r = r.state ≡ RunState.queued

  -- A run and what is stored of it, under a key.
  abbrev pub Agree : String → SimulationRun C F → StoredRun C F → Type 0
  Agree k r stored = (r.run_id ≡ k) × (stored.status ≡ r.state)

  -- Every run stands under its id, and the store holds the same runs with the same states.
  abbrev pub IsSound : SimulationServer C F → Type 0
  IsSound s = Matched Agree s.runs s.store.runs

  -- From one server to another, each run has moved, at most one queued run is new, and the store
  -- holds the same runs with the same states.
  pub record Advance (s t : SimulationServer C F) : Type 0 where
    pub moves : Extends RunMoves IsNew s.runs t.runs
    pub sound : IsSound t

  Moves_refl : (r : SimulationRun C F) → RunMoves r r
  Moves_refl r = stays

  pub Advance-refl : (s : SimulationServer C F) → IsSound s → Advance s s
  Advance-refl s h = record { moves = Extends-refl RunMoves IsNew Moves_refl s.runs; sound = h }

  pub Advance-update :
      (s t : SimulationServer C F) (k : String) (run run' : SimulationRun C F)
      (stored : StoredRun C F)
      → IsSound s
      → lookup k s.runs ≡ some run
      → Moves run.state run'.state
      → Agree k run' stored
      → t.runs ≡ insert k run' s.runs
      → t.store.runs ≡ insert k stored s.store.runs
      → Advance s t
  Advance-update s t k run run' stored h found move agree runs kept = record {
    moves = rw runs (Extends-insert RunMoves IsNew Moves_refl k run run' s.runs found move);
    sound = rw (runs, kept) (Matched-insert Agree k run' stored h agree);
  }

  -- A run changes in what the store does not hold.
  pub Advance-keep :
      (s t : SimulationServer C F) (k : String) (run run' : SimulationRun C F)
      (stored : StoredRun C F)
      → IsSound s
      → lookup k s.runs ≡ some run
      → lookup k s.store.runs ≡ some stored
      → Moves run.state run'.state
      → Agree k run' stored
      → t.runs ≡ insert k run' s.runs
      → t.store.runs ≡ s.store.runs
      → Advance s t
  Advance-keep s t k run run' stored h found kept move agree runs same = record {
    moves = rw runs (Extends-insert RunMoves IsNew Moves_refl k run run' s.runs found move);
    sound = rw (runs, same) (Matched-keep Agree k run' stored h kept agree);
  }

  pub Advance-create :
      (s t : SimulationServer C F) (k : String) (run : SimulationRun C F) (stored : StoredRun C F)
      → IsSound s
      → lookup k s.runs ≡ none
      → run.state ≡ RunState.queued
      → Agree k run stored
      → t.runs ≡ insert k run s.runs
      → t.store.runs ≡ insert k stored s.store.runs
      → Advance s t
  Advance-create s t k run stored h missing new agree runs kept = record {
    moves = rw runs (Extends-create RunMoves IsNew Moves_refl k run s.runs missing new);
    sound = rw (runs, kept) (Matched-insert Agree k run stored h agree);
  }
