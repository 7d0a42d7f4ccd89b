-- ===== src/Database/SnakeDb/Atomicity.antt =====
-- Every write of the store is one transaction: it is stored as a whole or not at all.
use Prim.Native.String.{String}
use snake_lab.Base.{ℕ, ◌≡◌, false, Option, none, some, List, [], ◌∷◌}
use snake_lab.Base.Results.{Result, ok, err}
use snake_lab.Json.{Json, Fields}
use snake_lab.Server.Results.{EpisodeResult}
use snake_lab.Server.Run.{RunState}
use snake_lab.Database.DbMgr.{Driver, Raised, DbMgr, Action, next, insert, delete}
use snake_lab.Database.DbMgr.Within.{
  IsWithin, next-IsWithin, give-IsWithin, insert-IsWithin, update-IsWithin, delete-IsWithin,
  Same_refl,
}
use snake_lab.Database.DbMgr.Transactions.{Ended, transaction-Ended}
use snake_lab.Database.DbMgr.Operations.{update-Ended}
use snake_lab.Database.SnakeDb.{
  computed, configuration_columns, configuration_paths, item_of, dumped, dumped_or_null,
  config_hash, of_run, recover_interrupted_runs, create_run, created, mark_started, set_status,
  record_episode, recorded, insert_frames, replace_frames, finish_run, finished, words,
}

module _ {F : Type 0} (D : Driver (Json F) (Fields F)) (dumps sorted_dumps : Json F → Option String)
    (sha256 : String → String) where
  -- The writes of the store.
  pub data Write : Type 0 where
    recovers : Write
    creates : String → Json F → String → Write
    starts : String → Write
    changes : String → RunState → Write
    records : String → EpisodeResult F → ℕ → ℕ → Write
    finishes :
        String → RunState → ℕ → ℕ → Option String → Option (Json F) → Option (List (Json F)) → Write

  abbrev pub perform : Write → Action D ℕ
  perform recovers = recover_interrupted_runs D dumps sorted_dumps sha256
  perform (creates run_id config version) =
      create_run D dumps sorted_dumps sha256 run_id config version
  perform (starts run_id) = mark_started D dumps sorted_dumps sha256 run_id
  perform (changes run_id status) = set_status D dumps sorted_dumps sha256 run_id status
  perform (records run_id result episodes high_score) =
      record_episode D dumps sorted_dumps sha256 run_id result episodes high_score
  perform (finishes run_id status episodes high_score error snapshot frames) =
      finish_run D dumps sorted_dumps sha256 run_id status episodes high_score error snapshot frames

  -- The statements of a write, those of a single one being the write itself.
  abbrev pub statements : Write → Action D ℕ
  statements (creates run_id config version) =
      created D dumps sorted_dumps sha256 run_id config version
  statements (records run_id result episodes high_score) =
      recorded D dumps sorted_dumps sha256 run_id result episodes high_score
  statements (finishes run_id status episodes high_score error snapshot frames) =
      finished D dumps sorted_dumps sha256 run_id status episodes high_score error snapshot frames
  statements w = perform w

  computed-IsWithin :
      {A : Type 0} (r : Result Raised A) → IsWithin D (computed D dumps sorted_dumps sha256 r)
  computed-IsWithin (ok a) m h is_open = (Same_refl D m, is_open)
  computed-IsWithin (err e) m h is_open = (Same_refl D m, tt)

  -- A computed value, and then an action.
  computed_before :
      {A B : Type 0} (r : Result Raised A) (k : A → Action D B)
      → ((a : A) → IsWithin D (k a))
      → IsWithin D (next D (computed D dumps sorted_dumps sha256 r) k)
  computed_before r k h =
      next-IsWithin D (computed D dumps sorted_dumps sha256 r) k (computed-IsWithin r) h

  created-IsWithin :
      (run_id : String) (config : Json F) (version : String)
      → IsWithin D (created D dumps sorted_dumps sha256 run_id config version)
  created-IsWithin run_id config version =
      computed_before (config_hash D dumps sorted_dumps sha256 config) _ (λ hash.
        next-IsWithin D (insert D "simulation_runs" _) _ (insert-IsWithin D "simulation_runs" _)
          (λ _.
            computed_before (configuration_columns configuration_paths config) _
              (λ columns. insert-IsWithin D "configurations" (("run_id", words run_id) ∷ columns))))

  recorded-IsWithin :
      (run_id : String) (result : EpisodeResult F) (episodes high_score : ℕ)
      → IsWithin D (recorded D dumps sorted_dumps sha256 run_id result episodes high_score)
  recorded-IsWithin run_id result episodes high_score =
      next-IsWithin D (insert D "simulation_episodes" _) _
        (insert-IsWithin D "simulation_episodes" _)
        (λ _. update-IsWithin D "simulation_runs" _ (of_run run_id))

  insert_frames-IsWithin :
      (run_id : String) (frames : List (Json F))
      → IsWithin D (insert_frames D dumps sorted_dumps sha256 run_id frames)
  unfolding insert_frames
  insert_frames-IsWithin run_id [] = give-IsWithin D tt
  insert_frames-IsWithin run_id (frame ∷ frames) = computed_before (item_of frame "step") _ (λ step.
      computed_before (item_of frame "episode") _ (λ episode.
        computed_before (dumped D dumps sorted_dumps sha256 frame) _ (λ s.
          next-IsWithin D (insert D "simulation_high_score_frames" _) _
            (insert-IsWithin D "simulation_high_score_frames" _)
            (λ _. insert_frames-IsWithin run_id frames))))

  replace_frames-IsWithin :
      (run_id : String) (status : RunState) (frames : Option (List (Json F)))
      → IsWithin D (replace_frames D dumps sorted_dumps sha256 run_id status frames)
  replace_frames-IsWithin run_id RunState.completed (some frames) =
      next-IsWithin D (delete D "simulation_high_score_frames" (of_run run_id)) _
        (delete-IsWithin D "simulation_high_score_frames" (of_run run_id))
        (λ _. insert_frames-IsWithin run_id frames)
  replace_frames-IsWithin run_id RunState.completed none = give-IsWithin D tt
  replace_frames-IsWithin run_id _ frames = give-IsWithin D tt

  finished-IsWithin :
      (run_id : String) (status : RunState) (episodes high_score : ℕ) (error : Option String)
      (snapshot : Option (Json F)) (frames : Option (List (Json F)))
      → IsWithin D (
          finished D dumps sorted_dumps sha256 run_id status episodes high_score error snapshot
            frames)
  finished-IsWithin run_id status episodes high_score error snapshot frames =
      next-IsWithin D (replace_frames D dumps sorted_dumps sha256 run_id status frames) _
        (replace_frames-IsWithin run_id status frames)
        (λ _.
          computed_before (dumped_or_null D dumps sorted_dumps sha256 snapshot) _
            (λ saved. update-IsWithin D "simulation_runs" _ (of_run run_id)))

  -- A write to an open manager that is in no transaction, nor its connection: either all its statements
  -- returned, beginning on what the database kept, and the database keeps what they left, or the write
  -- raises and the database keeps what it had, or the driver reports that the commit itself failed.
  -- However it ends, the manager is in no transaction, and none is left open on the connection, unless
  -- the driver reports that the rollback failed.
  pub perform-Ended :
      (w : Write) (m : DbMgr D)
      → m.closed ≡ false
      → m.in_transaction ≡ false
      → D.is_open m.connection ≡ false
      → Ended D (statements w) m (perform w m)
  unfolding recover_interrupted_runs create_run mark_started set_status record_episode finish_run
  perform-Ended recovers m opened free over =
      update-Ended D "simulation_runs" _ _ m opened free over
  perform-Ended (creates run_id config version) m opened free over =
      transaction-Ended D false _ m (created-IsWithin run_id config version) opened free over
  perform-Ended (starts run_id) m opened free over =
      update-Ended D "simulation_runs" _ _ m opened free over
  perform-Ended (changes run_id status) m opened free over =
      update-Ended D "simulation_runs" _ _ m opened free over
  perform-Ended (records run_id result episodes high_score) m opened free over =
      transaction-Ended D false _ m (recorded-IsWithin run_id result episodes high_score) opened
        free over
  perform-Ended (finishes run_id status episodes high_score error snapshot frames) m opened free
        over =
      transaction-Ended D false _ m
        (finished-IsWithin run_id status episodes high_score error snapshot frames) opened free over
