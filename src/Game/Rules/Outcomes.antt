-- ===== src/Game/Rules/Outcomes.antt =====
-- The moves of the game as a relation, and that `GameRules.step` makes one of them.
use snake_lab.Base.{
  ℕ, ◌+◌, ◌≡◌, ◌∙◌, refl, Bool, true, false, Option, none, some, ◌∷◌, drop_last, arith, ltb, inl,
  inr, Bool-cases, if◌then◌else◌,
}
use snake_lab.Base.Int.{ℤ, pos, ◌*ℤ◌, ltb_ℤ}
use snake_lab.Base.Members.{mem}
use snake_lab.Base.Results.{ok}
use snake_lab.External.{Random}
use snake_lab.Game.Position.{
  Position, Position-eq, position_eq_iff, free_positions, random_free_position,
}
use snake_lab.Game.Position.Free.{Draw, random_free_position-Draw}
use snake_lab.Game.Direction.{Direction}
use snake_lab.Game.State.{GameState, snake_length, contains, observation}
use snake_lab.Game.Moves.{RewardConfig, Outcome, StepResult}
use snake_lab.Game.Rules.{
  ahead, food_distance, occupied_body, result, glide, grown, eat, eaten_outcome, eaten_done,
  advance,
}

abbrev pub stopped : GameState → GameState
stopped s = record s { move_count = s.move_count + 1 }

abbrev pub glided : GameState → Direction → GameState
glided s d = record s {
  snake_head = ahead s.snake_head d;
  snake_body = s.snake_head ∷ drop_last s.snake_body;
  direction = d;
  move_count = s.move_count + 1;
}

-- The move count has passed the multiple of the snake's length.
abbrev pub exhausted : GameState → ℤ → Bool
exhausted s multiplier = ltb_ℤ (multiplier *ℤ pos (snake_length s)) (pos (s.move_count + 1))

abbrev pub is_terminal : Outcome → Bool
is_terminal Outcome.empty = false
is_terminal Outcome.food = false
is_terminal _ = true

-- One move of `s` in direction `d` towards `food`, which leads to the state `t` with outcome `o`.
pub data Move (s : GameState) (food : Position) (d : Direction) (multiplier : ℤ) (t : GameState)
    (o : Outcome) : Type 0 where
  timeout :
      exhausted s multiplier ≡ true
      → t ≡ stopped s
      → o ≡ Outcome.max_moves
      → Move s food d multiplier t o
  wall :
      exhausted s multiplier ≡ false
      → contains s (ahead s.snake_head d) ≡ false
      → t ≡ stopped s
      → o ≡ Outcome.wall
      → Move s food d multiplier t o
  bite :
      exhausted s multiplier ≡ false
      → contains s (ahead s.snake_head d) ≡ true
      → mem (ahead s.snake_head d) (occupied_body s ((Position-eq).beq (ahead s.snake_head d) food))
        ≡ true
      → t ≡ stopped s
      → o ≡ Outcome.snake
      → Move s food d multiplier t o
  meal :
      (next : Option Position)
      → exhausted s multiplier ≡ false
      → contains s (ahead s.snake_head d) ≡ true
      → ahead s.snake_head d ≡ food
      → mem (ahead s.snake_head d) s.snake_body ≡ false
      → Draw (free_positions s.grid_size (ahead s.snake_head d ∷ s.snake_head ∷ s.snake_body)) next
      → t ≡ grown s d (ahead s.snake_head d) (s.move_count + 1) next
      → o ≡ eaten_outcome next
      → Move s food d multiplier t o
  slide :
      exhausted s multiplier ≡ false
      → contains s (ahead s.snake_head d) ≡ true
      → (Position-eq).beq (ahead s.snake_head d) food ≡ false
      → mem (ahead s.snake_head d) (drop_last s.snake_body) ≡ false
      → t ≡ glided s d
      → o ≡ Outcome.empty
      → Move s food d multiplier t o

-- What `result` builds.
result-fields :
    {F : Type 0} (s : GameState) (reward : F) (o : Outcome) (done : Bool) (r : StepResult F)
    → result s reward o done ≡ ok r
    → (r.new_state ≡ s)
      × (r.outcome ≡ o)
      × (r.done ≡ done)
      × (r.reward ≡ reward)
      × (observation s ≡ ok r.observed)
result-fields s reward o done r h = ground arith

eaten_done-terminal : (next : Option Position) → eaten_done next ≡ is_terminal (eaten_outcome next)
eaten_done-terminal none = refl
eaten_done-terminal (some p) = refl

module _ (R : Random) {F : Type 0} (plus : F → F → F) (rewards : RewardConfig F) where
  eat-fields :
      (s : GameState) (d : Direction) (p : Position) (n : ℕ) (rng : R.State) (r : StepResult F)
      → (eat R plus rewards s d p n rng).0 ≡ ok r
      → let next = (random_free_position R rng s.grid_size (p ∷ s.snake_head ∷ s.snake_body)).0 in
        (r.new_state ≡ grown s d p n next)
        × (r.outcome ≡ eaten_outcome next)
        × (r.done ≡ is_terminal (eaten_outcome next))
  unfolding eat
  eat-fields s d p n rng r h =
      let next = (random_free_position R rng s.grid_size (p ∷ s.snake_head ∷ s.snake_body)).0 in
      let f =
        result-fields (grown s d p n next) rewards.food (eaten_outcome next) (eaten_done next) r
          h in
      (f.0, f.1, f.2 ∙ eaten_done-terminal next)

  -- The move to a cell that is free.
  free_cell-Move :
      (s : GameState) (food : Position) (d : Direction) (multiplier : ℤ) (rng : R.State)
      (r : StepResult F)
      → exhausted s multiplier ≡ false
      → contains s (ahead s.snake_head d) ≡ true
      → mem (ahead s.snake_head d) (occupied_body s ((Position-eq).beq (ahead s.snake_head d) food))
        ≡ false
      → (advance R plus rewards s food d multiplier rng).0 ≡ ok r
      → Move s food d multiplier r.new_state r.outcome × (r.done ≡ is_terminal r.outcome)
  unfolding advance glide occupied_body
  free_cell-Move s food d multiplier rng r n1 e2 n3 h =
      let p = ahead s.snake_head d in
      elim (Bool-cases ((Position-eq).beq p food)) [
        | inl e4 ↦
            let f = eat-fields s d p (s.move_count + 1) rng r (ground arith) in
            let drawn =
              random_free_position-Draw R rng s.grid_size (p ∷ s.snake_head ∷ s.snake_body) in
            (
              meal _ n1 e2 ((position_eq_iff p food).0 e4) (ground arith) drawn f.0 f.1,
              ground arith,
            )
        | inr n4 ↦
            let shaping =
              if ltb (food_distance p food) (food_distance s.snake_head food)
              then rewards.closer_to_food
              else rewards.further_from_food in
            let f =
              result-fields (glided s d) (plus rewards.empty shaping) Outcome.empty false r
                (ground arith) in
            (slide n1 e2 n4 (ground arith) f.0 f.1, ground arith)
      ]

  -- Whatever `advance` returns is one of the moves, and it is done exactly at a terminal outcome.
  pub advance-Move :
      (s : GameState) (food : Position) (d : Direction) (multiplier : ℤ) (rng : R.State)
      (r : StepResult F)
      → (advance R plus rewards s food d multiplier rng).0 ≡ ok r
      → Move s food d multiplier r.new_state r.outcome × (r.done ≡ is_terminal r.outcome)
  unfolding advance
  advance-Move s food d multiplier rng r h =
      let new_head = ahead s.snake_head d in
      let ate = (Position-eq).beq new_head food in
      elim (Bool-cases (exhausted s multiplier)) [
        | inl e1 ↦
            let f =
              result-fields (stopped s) rewards.max_moves Outcome.max_moves true r (ground arith) in
            (timeout e1 f.0 f.1, ground arith)
        | inr n1 ↦ elim (Bool-cases (contains s new_head)) [
          | inr n2 ↦
              let f = result-fields (stopped s) rewards.wall Outcome.wall true r (ground arith) in
              (wall n1 n2 f.0 f.1, ground arith)
          | inl e2 ↦ elim (Bool-cases (mem new_head (occupied_body s ate))) [
            | inl e3 ↦
                let f =
                  result-fields (stopped s) rewards.snake Outcome.snake true r (ground arith) in
                (bite n1 e2 e3 f.0 f.1, ground arith)
            | inr n3 ↦ free_cell-Move s food d multiplier rng r n1 e2 n3 h
          ]
        ]
      ]
