-- ===== src/Game/Rules/Validity.antt =====
-- The invariant of a game state, and that every move keeps it.
use snake_lab.Base.{
  ◌+◌, ◌≡◌, sym, true, false, Option, none, some, List, [], ◌∷◌, All, All-drop_last, drop_last,
  arith,
}
use mathlib.Core.Path.{subst}
use mathlib.Core.Option.{some-injective}
use snake_lab.Base.Int.{ℤ, pos, negsuc, abs, eqb_ℤ, ◌+ℤ◌, ◌-ℤ◌}
use snake_lab.Base.Members.{mem, Distinct, mem-drop_last, Distinct-drop_last}
use snake_lab.Game.Position.{Position, Position-eq, position_eq_iff, free_positions}
use snake_lab.Game.Position.Free.{Draw, nothing_free, drew, free_position-IsFree}
use snake_lab.Game.Direction.{Direction, is_cardinal, IsCardinal}
use snake_lab.Game.State.{GameState, contains}
use snake_lab.Game.Moves.{Outcome}
use snake_lab.Game.Rules.{ahead, food_distance, grown, occupied_body}
use snake_lab.Game.Rules.Outcomes.{Move, timeout, wall, bite, meal, slide, stopped, glided}

-- Each cell of the list is next to the one before it.
abbrev pub Linked : Position → List Position → Type 0
Linked p [] = Unit
Linked p (q ∷ qs) = (food_distance p q ≡ 1) × Linked q qs

-- The food lies on the board and not on the snake.
abbrev pub FoodIsFree : GameState → Option Position → Type 0
FoodIsFree s none = Unit
FoodIsFree s (some p) = (contains s p ≡ true) × (mem p (s.snake_head ∷ s.snake_body) ≡ false)

pub record IsValid (s : GameState) : Type 0 where
  pub inside : All (λ p. contains s p ≡ true) (s.snake_head ∷ s.snake_body)
  pub distinct : Distinct (s.snake_head ∷ s.snake_body)
  pub linked : Linked s.snake_head s.snake_body
  pub free : FoodIsFree s s.food_position
  pub cardinal : IsCardinal s.direction

Linked-drop_last : (p : Position) (qs : List Position) → Linked p qs → Linked p (drop_last qs)
Linked-drop_last p [] h = tt
Linked-drop_last p (q ∷ []) h = tt
Linked-drop_last p (q ∷ r ∷ qs) h = (h.0, Linked-drop_last q (r ∷ qs) h.1)

plus_one : (a : ℤ) → (abs (a +ℤ pos 1 -ℤ a) ≡ 1) × (eqb_ℤ (a +ℤ pos 1) a ≡ false)
unfolding ◌+ℤ◌ ◌-ℤ◌
plus_one a = ground arith

minus_one : (a : ℤ) → (abs (a +ℤ negsuc 0 -ℤ a) ≡ 1) × (eqb_ℤ (a +ℤ negsuc 0) a ≡ false)
unfolding ◌+ℤ◌ ◌-ℤ◌
minus_one a = ground arith

plus_zero : (a : ℤ) → abs (a +ℤ pos 0 -ℤ a) ≡ 0
unfolding ◌+ℤ◌ ◌-ℤ◌
plus_zero a = ground arith

-- One step ahead is one cell away, and another cell.
ahead_next :
    (p : Position) (d : Direction)
    → IsCardinal d
    → (food_distance (ahead p d) p ≡ 1) × ((Position-eq).beq (ahead p d) p ≡ false)
unfolding food_distance ahead is_cardinal
ahead_next p d h =
    ground (
      arith,
      plus_one p.x,
      plus_one p.y,
      minus_one p.x,
      minus_one p.y,
      plus_zero p.x,
      plus_zero p.y,
    )

stopped_food : (s : GameState) (p : Option Position) → FoodIsFree s p → FoodIsFree (stopped s) p
stopped_food s none h = tt
stopped_food s (some p) h = h

stopped-IsValid : (s : GameState) → IsValid s → IsValid (stopped s)
stopped-IsValid s valid = record {
  inside = valid.inside;
  distinct = valid.distinct;
  linked = valid.linked;
  free = stopped_food s s.food_position valid.free;
  cardinal = valid.cardinal;
}

module _ (s : GameState) (food : Position) (d : Direction) (valid : IsValid s)
    (h : IsCardinal d) where
  glided-IsValid :
      s.food_position ≡ some food
      → contains s (ahead s.snake_head d) ≡ true
      → (Position-eq).beq (ahead s.snake_head d) food ≡ false
      → mem (ahead s.snake_head d) (drop_last s.snake_body) ≡ false
      → IsValid (glided s d)
  glided-IsValid is_food inside other free = record {
    inside = (inside, (valid.inside.0, All-drop_last _ s.snake_body valid.inside.1));
    distinct = (
      ground (arith, (ahead_next s.snake_head d h).1),
      (
        mem-drop_last s.snake_head s.snake_body valid.distinct.0,
        Distinct-drop_last s.snake_body valid.distinct.1,
      ),
    );
    linked =
        ((ahead_next s.snake_head d h).0, Linked-drop_last s.snake_head s.snake_body valid.linked);
    free = rw is_food (
        ground (
          arith,
          valid.free,
          position_eq_iff food (ahead s.snake_head d),
          position_eq_iff (ahead s.snake_head d) food,
          mem-drop_last food s.snake_body,
        ));
    cardinal = h;
  }

  grown_food :
      (next : Option Position)
      → Draw (free_positions s.grid_size (ahead s.snake_head d ∷ s.snake_head ∷ s.snake_body)) next
      → FoodIsFree (grown s d (ahead s.snake_head d) (s.move_count + 1) next) next
  unfolding grown
  grown_food none draw = tt
  grown_food (some p) (nothing_free _ e) = cc
  grown_food (some p) (drew q m e) =
      let free = free_positions s.grid_size (ahead s.snake_head d ∷ s.snake_head ∷ s.snake_body) in
      free_position-IsFree s.grid_size p (ahead s.snake_head d ∷ s.snake_head ∷ s.snake_body)
        (subst (λ r. mem r free ≡ true) (sym (some-injective p q e)) m)

  grown-IsValid :
      (next : Option Position)
      → contains s (ahead s.snake_head d) ≡ true
      → mem (ahead s.snake_head d) s.snake_body ≡ false
      → Draw (free_positions s.grid_size (ahead s.snake_head d ∷ s.snake_head ∷ s.snake_body)) next
      → IsValid (grown s d (ahead s.snake_head d) (s.move_count + 1) next)
  unfolding grown
  grown-IsValid next inside free draw = record {
    inside = (inside, valid.inside);
    distinct = (ground (arith, (ahead_next s.snake_head d h).1), valid.distinct);
    linked = ((ahead_next s.snake_head d h).0, valid.linked);
    free = grown_food next draw;
    cardinal = h;
  }

  -- A move from a valid state leads to a valid state.
  pub Move-IsValid :
      {multiplier : ℤ} {t : GameState} {o : Outcome}
      → s.food_position ≡ some food
      → Move s food d multiplier t o
      → IsValid t
  unfolding occupied_body
  Move-IsValid is_food (timeout _ e _) = rw e (stopped-IsValid s valid)
  Move-IsValid is_food (wall _ _ e _) = rw e (stopped-IsValid s valid)
  Move-IsValid is_food (bite _ _ _ e _) = rw e (stopped-IsValid s valid)
  Move-IsValid is_food (meal next _ inside _ free draw e _) =
      rw e (grown-IsValid next inside free draw)
  Move-IsValid is_food (slide _ inside other free e _) =
      rw e (glided-IsValid is_food inside other free)
