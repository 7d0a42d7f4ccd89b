-- ===== src/Server/Store.antt =====
-- database/MemorySimulationStore.py. A missing key raises KeyError, a second run of the same id
-- ValueError. The copies by `deepcopy` and by a round trip through `json` are the values
-- themselves. `config_hash` gives none where json.dumps raises its ValueError, which is hash_error.
use Prim.Native.String.{String}
use snake_lab.Base.{ℕ, Bool, true, false, Option, none, some, List, [], ◌∷◌, ◌++◌}
use snake_lab.Base.Dicts.{Dict, lookup, insert}
use snake_lab.Base.Results.{Result, ok, ◌>>=◌, ◌>>◌, refuse, or_raise}
use snake_lab.Json.{Json}
use snake_lab.Server.Results.{EpisodeResult}
use snake_lab.Server.Run.{RunState}

pub record StoredRun (C F : Type 0) : Type 0 where
  pub run_id : String
  pub project_version : String
  pub config : C
  pub config_hash : String
  pub status : RunState
  pub episode_count : Option ℕ
  pub high_score : Option ℕ
  pub high_score_snapshot : Option (Json F)
  pub high_score_frames : Option (List (Json F))
  pub error_message : Option String

pub record MemoryStore (C F : Type 0) : Type 0 where
  pub runs : Dict (StoredRun C F)
  pub episodes : Dict (List (EpisodeResult F))

pub data StoreError : Type 0 where
  key_error value_error hash_error : StoreError

-- `frames if status == "completed" else None`
abbrev pub only_completed : {A : Type 0} → RunState → Option A → Option A
only_completed RunState.completed frames = frames
only_completed _ frames = none

module _ {C F : Type 0} where
  abbrev pub is_held : Option (StoredRun C F) → Bool
  is_held none = false
  is_held (some held) = true

  unfoldable pub create_run :
      (C → Option String)
      → String
      → C
      → String
      → MemoryStore C F
      → Result StoreError (MemoryStore C F)
  create_run config_hash run_id config project_version s = do
    refuse (is_held (lookup run_id s.runs)) value_error
    hash ← or_raise (config_hash config) hash_error
    let run : StoredRun C F = record {
      run_id = run_id;
      project_version = project_version;
      config = config;
      config_hash = hash;
      status = RunState.queued;
      episode_count = none;
      high_score = none;
      high_score_snapshot = none;
      high_score_frames = none;
      error_message = none;
    }
    ok (record { runs = insert run_id run s.runs; episodes = insert run_id [] s.episodes })

  unfoldable pub set_status :
      String → RunState → MemoryStore C F → Result StoreError (MemoryStore C F)
  set_status run_id status s = do
    run ← or_raise (lookup run_id s.runs) key_error
    ok (record s { runs = insert run_id (record run { status = status }) s.runs })

  unfoldable pub mark_started : String → MemoryStore C F → Result StoreError (MemoryStore C F)
  mark_started run_id s = set_status run_id RunState.running s

  unfoldable pub record_episode :
      String → EpisodeResult F → ℕ → ℕ → MemoryStore C F → Result StoreError (MemoryStore C F)
  record_episode run_id result episode_count high_score s = do
    results ← or_raise (lookup run_id s.episodes) key_error
    run ← or_raise (lookup run_id s.runs) key_error
    ok (record {
      runs =
          insert run_id
            (record run { episode_count = some episode_count; high_score = some high_score })
            s.runs;
      episodes = insert run_id (results ++ result ∷ []) s.episodes;
    })

  unfoldable pub finish_run :
      String
      → RunState
      → ℕ
      → ℕ
      → Option String
      → Option (Json F)
      → Option (List (Json F))
      → MemoryStore C F
      → Result StoreError (MemoryStore C F)
  finish_run run_id status episode_count high_score error snapshot frames s = do
    run ← or_raise (lookup run_id s.runs) key_error
    ok (record s {
      runs =
          insert run_id
            (record run {
              status = status;
              episode_count = some episode_count;
              high_score = some high_score;
              error_message = error;
              high_score_snapshot = snapshot;
              high_score_frames = only_completed status frames;
            })
            s.runs;
    })

  -- The saved frames, if there is such a run.
  unfoldable pub get_high_score_frames : String → MemoryStore C F → Option (Option (List (Json F)))
  get_high_score_frames run_id s = elim (lookup run_id s.runs) [
    | none ↦ none
    | some run ↦ some (only_completed run.status run.high_score_frames)
  ]

  unfoldable pub get_high_score_snapshot : String → MemoryStore C F → Option (Option (Json F))
  get_high_score_snapshot run_id s = elim (lookup run_id s.runs) [
    | none ↦ none
    | some run ↦ some run.high_score_snapshot
  ]
