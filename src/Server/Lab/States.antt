-- ===== src/Server/Lab/States.antt =====
-- What the state of a run says of the queue, the worker and the told ends.
use snake_lab.Base.{ℕ, ◌≡◌, ◌⊎◌, refl, inl, inr, Option, none, some, arith}
use snake_lab.Server.Run.{RunState}
use snake_lab.Server.Lab.{IsActive, IsTerminal}

abbrev pub IsWaiting : Option RunState → Type 0
IsWaiting (some RunState.queued) = Unit
IsWaiting (some RunState.cancelled) = Unit
IsWaiting _ = ⊥

abbrev pub IsBusy : Option RunState → Type 0
IsBusy none = ⊥
IsBusy (some s) = IsActive s

-- How often a run's end should have been told.
abbrev pub ends_of : Option RunState → ℕ
ends_of (some RunState.completed) = 1
ends_of (some RunState.failed) = 1
ends_of (some RunState.cancelled) = 1
ends_of _ = 0

pub busy_waits : (o : Option RunState) → IsBusy o → IsWaiting o → ⊥
busy_waits o busy waits = ground arith

pub active_ends : (s : RunState) → IsActive s → ends_of (some s) ≡ 0
active_ends s h = ground arith

pub active_queued : (s : RunState) → IsActive s → some s ≡ some RunState.queued → ⊥
active_queued s h e = ground arith

pub terminal_ends : (s : RunState) → IsTerminal s → ends_of (some s) ≡ 1
terminal_ends s h = ground arith

pub terminal_queued : (s : RunState) → IsTerminal s → some s ≡ some RunState.queued → ⊥
terminal_queued s h e = ground arith

pub terminal_busy : (s : RunState) → IsTerminal s → IsActive s → ⊥
terminal_busy s h b = ground arith

pub waiting_cases :
    (o : Option RunState) → IsWaiting o → (o ≡ some RunState.queued) ⊎ (o ≡ some RunState.cancelled)
waiting_cases none h = absurd h
waiting_cases (some RunState.queued) h = inl refl
waiting_cases (some RunState.cancelled) h = inr refl
waiting_cases (some RunState.running) h = absurd h
waiting_cases (some RunState.paused) h = absurd h
waiting_cases (some RunState.cancelling) h = absurd h
waiting_cases (some RunState.completed) h = absurd h
waiting_cases (some RunState.failed) h = absurd h
