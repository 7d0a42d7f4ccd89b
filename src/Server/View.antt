-- ===== src/Server/View.antt =====
-- The lab that a server's fields amount to. The log of lifecycle events is what has been sent and what
-- waits to be.
use Prim.Native.String.{String}
use text.Mathlib.Text.{◌==◌}
use snake_lab.Base.{
  ◌≡◌, refl, sym, ap, ◌∙◌, Bool, true, false, Option, none, some, List, [], ◌∷◌, ◌++◌,
  if◌then◌else◌, arith, inl, inr, Bool-cases,
}
use text.Mathlib.TextEquality.{eq_iff}
use mathlib.Core.List.{append_assoc}
use snake_lab.Base.Dicts.{lookup, insert, lookup-insert_at}
use snake_lab.Json.{Json, str, obj, get}
use snake_lab.Zmq.Events.{
  EventsPublisher, event_message, ended_payload, simulation_ended, publish_event,
}
use snake_lab.Server.Run.{RunState, SimulationRun}
use snake_lab.Server.Service.{SimulationServer}
use snake_lab.Server.Lab.{Lab, IsActive, Puts, Same}
use snake_lab.Server.Lab.States.{IsBusy}

none_state : (state : RunState) → none ≡ some state → ⊥
none_state state h = ground arith

unsome : (s t : RunState) → some s ≡ some t → s ≡ t
unsome s t h = ground arith

abbrev pub add_told : Option String → List String → List String
add_told none ks = ks
add_told (some k) ks = k ∷ ks

add_told-append :
    (o : Option String) (ks js : List String) → add_told o ks ++ js ≡ add_told o (ks ++ js)
add_told-append none ks js = refl
add_told-append (some k) ks js = refl

module _ {F : Type 0} where
  abbrev pub log : EventsPublisher F → List (Json F)
  log e = e.sent ++ e.pending

  abbrev pub run_id_in : Option (Json F) → Option String
  run_id_in (some (str r)) = some r
  run_id_in _ = none

  abbrev pub run_id_of : Option (Json F) → Option String
  run_id_of (some (obj payload)) = run_id_in (get "run_id" payload)
  run_id_of _ = none

  -- The run whose end a message tells.
  abbrev pub told_run : Json F → Option String
  told_run (obj fs) = run_id_of (get "payload" fs)
  told_run _ = none

  unfoldable pub told_runs : List (Json F) → List String
  told_runs [] = []
  told_runs (m ∷ ms) = add_told (told_run m) (told_runs ms)

  told_runs-append : (ms ns : List (Json F)) → told_runs (ms ++ ns) ≡ told_runs ms ++ told_runs ns
  unfolding told_runs
  told_runs-append [] ns = refl
  told_runs-append (m ∷ ms) ns =
      ap (add_told (told_run m)) (told_runs-append ms ns)
      ∙ sym (add_told-append (told_run m) (told_runs ms) (told_runs ns))

told_end :
    (F : Type 0) (k state : String) (error : Option String)
    → told_runs (event_message {F = F} simulation_ended (ended_payload k state error) ∷ []) ≡ k ∷ []
unfolding told_runs event_message ended_payload
told_end F k state none = refl
told_end F k state (some error) = refl

module _ {F : Type 0} where
  -- The event of an end tells that run's end, after all that were told before.
  pub publish_event-told :
      (e : EventsPublisher F) (k state : String) (error : Option String)
      → told_runs (log (publish_event e simulation_ended (ended_payload k state error)))
        ≡ told_runs (log e) ++ k ∷ []
  unfolding publish_event
  publish_event-told e k state error =
      let m = event_message simulation_ended (ended_payload k state error) in
      ap told_runs (sym (append_assoc e.sent e.pending (m ∷ [])))
      ∙ told_runs-append (log e) (m ∷ [])
      ∙ ap (λ ks. told_runs (log e) ++ ks) (told_end F k state error)

module _ {C F : Type 0} where
  abbrev pub state_of : Option (SimulationRun C F) → Option RunState
  state_of none = none
  state_of (some run) = some run.state

  abbrev pub view : SimulationServer C F → Lab
  view s = record {
    states = λ k. state_of (lookup k s.runs);
    queue = s.run_queue;
    worker = s.worker;
    ended = told_runs (log s.events);
  }

  state_of-if :
      (b : Bool) (run : SimulationRun C F) (o : Option (SimulationRun C F))
      → state_of (if b then some run else o) ≡ (if b then some run.state else state_of o)
  state_of-if true run o = refl
  state_of-if false run o = refl

  -- An update of a run is one of its state.
  pub view-Puts :
      (s t : SimulationServer C F) (k : String) (run : SimulationRun C F)
      → t.runs ≡ insert k run s.runs
      → Puts k run.state (view s).states (view t).states
  view-Puts s t k run runs j =
      ap (λ d. state_of (lookup j d)) runs
      ∙ ap state_of (lookup-insert_at j k run s.runs)
      ∙ state_of-if (k == j) run (lookup j s.runs)

  -- An update that keeps the state of a run keeps all states.
  pub view-unmoved :
      (s t : SimulationServer C F) (k : String) (run run' : SimulationRun C F)
      → lookup k s.runs ≡ some run
      → run'.state ≡ run.state
      → t.runs ≡ insert k run' s.runs
      → Same (view s).states (view t).states
  view-unmoved s t k run run' found same runs j = view-Puts s t k run' runs j ∙ unmoved
    where
      unmoved :
          (if k == j then some run'.state else state_of (lookup j s.runs))
          ≡ state_of (lookup j s.runs)
      unmoved = elim (Bool-cases (k == j)) [
        | inl here ↦
            ap (λ b. if b then some run'.state else state_of (lookup j s.runs)) here
            ∙ ap some same
            ∙ sym (ap state_of (ap (λ i. lookup i s.runs) (sym ((eq_iff k j).0 here)) ∙ found))
        | inr there ↦ ap (λ b. if b then some run'.state else state_of (lookup j s.runs)) there
      ]

-- A run whose state the lab has is a run of the server.
pub held_state :
    {C F : Type 0} (o : Option (SimulationRun C F)) (state : RunState)
    → state_of o ≡ some state
    → (run : SimulationRun C F) × (o ≡ some run) × (run.state ≡ state)
held_state none state h = absurd (none_state state h)
held_state (some run) state h = (run, refl, unsome run.state state h)

pub held-IsActive :
    {C F : Type 0} (o : Option (SimulationRun C F))
    → IsBusy (state_of o)
    → (run : SimulationRun C F) × (o ≡ some run) × IsActive run.state
held-IsActive none h = absurd h
held-IsActive (some run) h = (run, refl, h)
