-- ===== src/Database/SnakeDb.antt =====
-- database/SnakeDb.py, with the paths of constants/DSQL.py and the values of database/DBHelper.py. A
-- parameter of a statement is a JSON value. `dumps` is json.dumps, `none` where it raises, `loads` is
-- json.loads. `sorted_dumps` is json.dumps with sorted keys, and `sha256` the digest of a text.
pub mod Atomicity
use Prim.Native.String.{String}
use snake_lab.Base.{
  ℕ, Bool, true, false, ◌&&◌, Option, none, some, List, [], ◌∷◌, ◌++◌, map, if◌then◌else◌,
}
use snake_lab.Base.Int.{pos}
use snake_lab.Base.Results.{Result, ok, err, ◌>>=◌}
use snake_lab.Json.{Json, null, int, float, str, arr, obj, Fields, get}
use snake_lab.Server.Results.{EpisodeResult, int_of, float_or_null}
use snake_lab.Server.Run.{RunState, state_text}
use snake_lab.Database.Statements.{
  Condition, one_of, equals, SqlValue, current_timestamp, param, join,
}
use snake_lab.Database.DbMgr.{
  Driver, Raised, DbMgr, Action, give, raise, next, transaction, insert, update, delete, select,
  key_error, json_error,
}

-- DSQL.CONFIGURATION_PATHS, each path split at its dots.
abbrev pub configuration_paths : List (List String)
configuration_paths =
    ("epochs" ∷ [])
    ∷ ("seed" ∷ [])
    ∷ ("game" ∷ "board_width" ∷ [])
    ∷ ("game" ∷ "board_height" ∷ [])
    ∷ ("game" ∷ "initial_snake_length" ∷ [])
    ∷ ("game" ∷ "max_moves_multiplier" ∷ [])
    ∷ ("game" ∷ "rewards" ∷ "food" ∷ [])
    ∷ ("game" ∷ "rewards" ∷ "wall" ∷ [])
    ∷ ("game" ∷ "rewards" ∷ "snake" ∷ [])
    ∷ ("game" ∷ "rewards" ∷ "max_moves" ∷ [])
    ∷ ("game" ∷ "rewards" ∷ "empty" ∷ [])
    ∷ ("game" ∷ "rewards" ∷ "closer_to_food" ∷ [])
    ∷ ("game" ∷ "rewards" ∷ "further_from_food" ∷ [])
    ∷ ("model" ∷ "hidden_size" ∷ [])
    ∷ ("model" ∷ "layers" ∷ [])
    ∷ ("model" ∷ "dropout" ∷ [])
    ∷ ("training" ∷ "sequence_length" ∷ [])
    ∷ ("training" ∷ "batch_size" ∷ [])
    ∷ ("training" ∷ "replay_max_frames" ∷ [])
    ∷ ("training" ∷ "learning_rate" ∷ [])
    ∷ ("training" ∷ "gamma" ∷ [])
    ∷ ("training" ∷ "tau" ∷ [])
    ∷ ("training" ∷ "max_gradient_norm" ∷ [])
    ∷ ("epsilon" ∷ "initial" ∷ [])
    ∷ ("epsilon" ∷ "minimum" ∷ [])
    ∷ ("epsilon" ∷ "decay" ∷ [])
    ∷ []

-- `p.replace('.', '_')`
abbrev pub column_of : List String → String
column_of path = join "_" path

module _ {F : Type 0} where
  abbrev pub item_of : Json F → String → Result Raised (Json F)
  item_of (obj fs) key = elim (get key fs) [ none ↦ err (key_error key) | some value ↦ ok value ]
  item_of value key = err (key_error key)

  -- The value at a path, or KeyError.
  abbrev pub value_at : List String → Json F → Result Raised (Json F)
  value_at [] value = ok value
  value_at (key ∷ path) value = item_of value key >>= value_at path

  -- The columns of a configuration with their values: `configuration_values`, zipped.
  unfoldable pub configuration_columns :
      List (List String) → Json F → Result Raised (List (String × SqlValue (Json F)))
  configuration_columns [] config = ok []
  configuration_columns (path ∷ paths) config = do
    value ← value_at path config
    rest ← configuration_columns paths config
    ok ((column_of path, param value) ∷ rest)

  abbrev pub words : String → SqlValue (Json F)
  words s = param (str s)

  abbrev pub number : ℕ → SqlValue (Json F)
  number n = param (int_of n)

  abbrev pub of_run : String → List (String × Condition (Json F))
  of_run run_id = ("run_id", equals (str run_id)) ∷ []

  abbrev pub text_or_null : Option String → Json F
  text_or_null none = null
  text_or_null (some s) = str s

module _ {F : Type 0} (D : Driver (Json F) (Fields F)) (dumps sorted_dumps : Json F → Option String)
    (sha256 : String → String) where
  -- A value computed on the way, which may raise.
  abbrev pub computed : {A : Type 0} → Result Raised A → Action D A
  computed (ok a) m = (ok a, m)
  computed (err e) m = (err e, m)

  abbrev pub or_json_error : Option String → Result Raised String
  or_json_error none = err json_error
  or_json_error (some s) = ok s

  abbrev pub dumped : Json F → Result Raised String
  dumped j = or_json_error (dumps j)

  unfoldable pub config_hash : Json F → Result Raised String
  config_hash config = or_json_error (sorted_dumps config) >>= (λ s. ok (sha256 s))

  abbrev pub dumped_or_null : Option (Json F) → Result Raised (Json F)
  dumped_or_null none = ok null
  dumped_or_null (some j) = dumped j >>= (λ s. ok (str s))

  pub recover_interrupted_runs : Action D ℕ
  recover_interrupted_runs =
      update D "simulation_runs"
        (("status", words "failed")
          ∷ ("completed_at", current_timestamp)
          ∷ ("error_message", words "Server stopped before run completed")
          ∷ [])
        (("status", one_of (str "queued" ∷ str "running" ∷ str "paused" ∷ str "cancelling" ∷ []))
          ∷ [])

  -- The body of create_run.
  abbrev pub created : String → Json F → String → Action D ℕ
  created run_id config project_version = next D (computed (config_hash config)) (λ hash.
      next D
        (insert D "simulation_runs" (
          ("run_id", words run_id)
          ∷ ("project_version", words project_version)
          ∷ ("config_hash", words hash)
          ∷ ("status", words "queued")
          ∷ []))
        (λ _.
          next D (computed (configuration_columns configuration_paths config))
            (λ columns. insert D "configurations" (("run_id", words run_id) ∷ columns))))

  unfoldable pub create_run : String → Json F → String → Action D ℕ
  create_run run_id config project_version =
      transaction D false (created run_id config project_version)

  unfoldable pub mark_started : String → Action D ℕ
  mark_started run_id =
      update D "simulation_runs"
        (("status", words "running") ∷ ("started_at", current_timestamp) ∷ []) (of_run run_id)

  unfoldable pub set_status : String → RunState → Action D ℕ
  set_status run_id status =
      update D "simulation_runs" (("status", words (state_text status)) ∷ []) (of_run run_id)

  -- The body of record_episode.
  abbrev pub recorded : String → EpisodeResult F → ℕ → ℕ → Action D ℕ
  recorded run_id result episode_count high_score =
      next D
        (insert D "simulation_episodes" (
          ("run_id", words run_id)
          ∷ ("episode", number result.episode)
          ∷ ("score", number result.score)
          ∷ ("steps", number result.steps)
          ∷ ("epsilon", param (float result.epsilon))
          ∷ ("loss", param (float_or_null result.loss))
          ∷ []))
        (λ _.
          update D "simulation_runs"
            (("episode_count", number episode_count) ∷ ("high_score", number high_score) ∷ [])
            (of_run run_id))

  unfoldable pub record_episode : String → EpisodeResult F → ℕ → ℕ → Action D ℕ
  record_episode run_id result episode_count high_score =
      transaction D false (recorded run_id result episode_count high_score)

  -- One row for each frame.
  pub insert_frames : String → List (Json F) → Action D (Unit {0})
  insert_frames run_id [] = give D tt
  insert_frames run_id (frame ∷ frames) = next D (computed (item_of frame "step")) (λ step.
      next D (computed (item_of frame "episode")) (λ episode. next D (computed (dumped frame)) (λ s.
        next D
          (insert D "simulation_high_score_frames" (
            ("run_id", words run_id)
            ∷ ("step", param step)
            ∷ ("episode", param episode)
            ∷ ("frame", words s)
            ∷ []))
          (λ _. insert_frames run_id frames))))

  -- The frames of a completed run take the place of those before.
  abbrev pub replace_frames : String → RunState → Option (List (Json F)) → Action D (Unit {0})
  replace_frames run_id RunState.completed (some frames) =
      next D (delete D "simulation_high_score_frames" (of_run run_id))
        (λ _. insert_frames run_id frames)
  replace_frames run_id _ _ = give D tt

  -- The body of finish_run.
  abbrev pub finished :
      String
      → RunState
      → ℕ
      → ℕ
      → Option String
      → Option (Json F)
      → Option (List (Json F))
      → Action D ℕ
  finished run_id status episode_count high_score error snapshot frames =
      next D (replace_frames run_id status frames) (λ _.
        next D (computed (dumped_or_null snapshot)) (λ saved.
          update D "simulation_runs"
            (("status", words (state_text status))
              ∷ ("episode_count", number episode_count)
              ∷ ("high_score", number high_score)
              ∷ ("high_score_snapshot", param saved)
              ∷ ("completed_at", current_timestamp)
              ∷ ("error_message", param (text_or_null error))
              ∷ [])
            (of_run run_id)))

  unfoldable pub finish_run :
      String
      → RunState
      → ℕ
      → ℕ
      → Option String
      → Option (Json F)
      → Option (List (Json F))
      → Action D ℕ
  finish_run run_id status episode_count high_score error snapshot frames =
      transaction D false (finished run_id status episode_count high_score error snapshot frames)

  -- Whether there is a row, and the row.
  unfoldable pub get_configuration : String → Action D (List (Fields F))
  get_configuration run_id =
      transaction D true
        (select D "configurations" (map column_of configuration_paths) (of_run run_id) true false)
