-- ===== src/Tests/Life.antt =====
-- The life of a server: a run is submitted and taken up.
use Prim.Native.String.{String}
use snake_lab.Base.{ℕ, ◌≡◌, refl, none, [], ◌∷◌}
use snake_lab.Base.Dicts.{lookup}
use snake_lab.Base.Int.{pos}
use snake_lab.Base.Results.{ok}
use snake_lab.Json.{Json, int, of_fields}
use snake_lab.Zmq.Protocol.{request_message}
use snake_lab.Server.Service.{SimulationServer}
use snake_lab.Server.Dispatch.{handle_request}
use snake_lab.Zmq.Events.{Task}
use snake_lab.Zmq.Events.Delivery.{IsTelling}
use snake_lab.Server.Lab.{Steps}
use snake_lab.Server.Lab.Invariant.{IsLab, count}
use snake_lab.Server.Lab.States.{ends_of}
use snake_lab.Server.View.{view, state_of, told_runs}
use snake_lab.Server.Transitions.{IsSound}
use snake_lab.Server.Life.{Reachable, new_server, start_server, stop_server, starts_up}
use snake_lab.Server.Life.Refinement.{Reachable-IsLab, empty_lab}
use snake_lab.Server.Life.Service.{IsOver, stop_server-Reachable, handle_request-Reachable}
use snake_lab.Tests.Server.{epochs_only, is_unit, quiet}

abbrev submit_message : Json ℕ
submit_message = request_message "q1" "simulation.submit" (of_fields (("config", int (pos 3)) ∷ []))

abbrev started : SimulationServer ℕ ℕ
started = start_server (new_server quiet)

-- The server that the submission of a run comes to.
submitted :
    (response : Json ℕ) × (t : SimulationServer ℕ ℕ) × (handle_request epochs_only is_unit "r1" 0
        submit_message started
      ≡ ok (response, t))
    × Reachable epochs_only t
unfolding new_server start_server
submitted =
    handle_request-Reachable epochs_only is_unit "r1" 0 submit_message started (λ c. ("hash", refl))
      (starts_up quiet) refl

Reachable-IsLab_example :
    IsSound submitted.1
    × Steps empty_lab (view submitted.1)
    × IsLab (view submitted.1)
    × IsTelling submitted.1.events
Reachable-IsLab_example = Reachable-IsLab epochs_only submitted.1 submitted.3

stop_server-Reachable_example :
    (t : SimulationServer ℕ ℕ) × (stop_server epochs_only submitted.1 ≡ ok t)
    × (t.run_queue ≡ [])
    × (t.worker ≡ none)
    × (t.events.pending ≡ [])
    × (t.events.task ≡ Task.idle)
    × ((k : String)
        → IsOver (state_of (lookup k t.runs))
          × (count k (told_runs t.events.sent) ≡ ends_of (state_of (lookup k t.runs))))
stop_server-Reachable_example = stop_server-Reachable epochs_only submitted.1 submitted.3
