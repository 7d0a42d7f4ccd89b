-- ===== src/Game/Environment/Start.antt =====
-- A new episode starts in a valid state.
use snake_lab.Base.{
  ℕ, zero, suc, ◌+◌, ◌-◌, ◌*◌, ◌/◌, max, ◌≤◌, ◌<◌, ◌≡◌, refl, true, false, some, ◌∷◌, map, length,
  length-map, length-range_from, All, range_from, arith,
}
use mathlib.Core.Path.{subst}
use snake_lab.Base.Int.{pos, ◌-ℤ◌}
use snake_lab.Base.Members.{mem, Distinct}
use snake_lab.Base.Results.{ok}
use snake_lab.External.{Random}
use snake_lab.Game.Position.{Position, Position-eq, in_grid, free_positions}
use snake_lab.Game.Position.Free.{
  nothing_free, drew, free_position-IsFree, random_free_position-Draw,
}
use snake_lab.Game.Position.Count.{free_positions-ne-nil}
use snake_lab.Game.Direction.{is_cardinal}
use snake_lab.Game.State.{GameState, snake_length}
use snake_lab.Game.Rules.{food_distance}
use snake_lab.Game.Rules.Validity.{IsValid, Linked}
use snake_lab.Game.Environment.{Layout, behind, initial_head, initial_body, new_state}

behind_next : (p : Position) (i : ℕ) → food_distance (behind p i) (behind p (suc i)) ≡ 1
unfolding food_distance ◌-ℤ◌
behind_next p i = ground arith

behind_apart :
    (p : Position) (i j : ℕ) → i < j → (Position-eq).beq (behind p i) (behind p j) ≡ false
unfolding ◌-ℤ◌
behind_apart p i j h = ground arith

Linked-behind :
    (p : Position) (i n : ℕ) → Linked (behind p i) (map (behind p) (range_from (suc i) n))
Linked-behind p i zero = tt
Linked-behind p i (suc n) = (behind_next p i, Linked-behind p (suc i) n)

not-mem-behind :
    (p : Position) (i j n : ℕ) → i < j → mem (behind p i) (map (behind p) (range_from j n)) ≡ false
not-mem-behind p i j zero h = refl
not-mem-behind p i j (suc n) h =
    ground (arith, behind_apart p i j h, not-mem-behind p i (suc j) n (omega arith))

Distinct-behind : (p : Position) (i n : ℕ) → Distinct (map (behind p) (range_from i n))
Distinct-behind p i zero = tt
Distinct-behind p i (suc n) =
    (not-mem-behind p i (suc i) n (omega arith), Distinct-behind p (suc i) n)

behind-in_grid :
    (w h x y i : ℕ)
    → x < w
    → y < h
    → i ≤ x
    → in_grid (w, h) (behind (record { x = pos x; y = pos y }) i) ≡ true
unfolding ◌-ℤ◌
behind-in_grid w h x y i p q r = ground arith

All-behind :
    (w h x y i n : ℕ)
    → x < w
    → y < h
    → i + n ≤ suc x
    → All
        (λ p. in_grid (w, h) p ≡ true)
        (map (behind (record { x = pos x; y = pos y })) (range_from i n))
All-behind w h x y i zero p q r = tt
All-behind w h x y i (suc n) p q r =
    (behind-in_grid w h x y i p q (omega arith), All-behind w h x y (suc i) n p q (omega arith))

behind-zero : (p : Position) → behind p 0 ≡ p
unfolding ◌-ℤ◌
behind-zero p = ground arith

-- A layout that the checks of the constructor let pass.
pub record Fits (l : Layout) : Type 0 where
  pub positive : 0 < l.initial_snake_length
  pub across : l.initial_snake_length ≤ l.grid_size.0
  pub room : l.initial_snake_length < l.grid_size.0 * l.grid_size.1
  pub tall : 0 < l.grid_size.1

length-snake :
    (l : Layout) → Fits l → length (initial_head l ∷ initial_body l) ≡ l.initial_snake_length
length-snake l fits = omega (
  arith,
  fits.positive,
  length-map (range_from 1 (l.initial_snake_length - 1)) (behind (initial_head l)),
  length-range_from 1 (l.initial_snake_length - 1),
)

half-lt : (n : ℕ) → 0 < n → n / 2 < n
half-lt n h = omega arith

snake-inside :
    (l : Layout)
    → Fits l
    → All (λ p. in_grid l.grid_size p ≡ true) (initial_head l ∷ initial_body l)
snake-inside l fits =
    let w = l.grid_size.0 in
    let h = l.grid_size.1 in
    let x = max (w / 2) (l.initial_snake_length - 1) in
    let below : x < w = omega (arith, fits.positive, fits.across) in
    (
      subst (λ q. in_grid l.grid_size q ≡ true) (behind-zero (initial_head l))
          (behind-in_grid w h x (h / 2) 0 below (half-lt h fits.tall) (omega arith)),
      All-behind w h x (h / 2) 1 (l.initial_snake_length - 1) below (half-lt h fits.tall)
          (omega arith),
    )

snake-Distinct : (l : Layout) → Distinct (initial_head l ∷ initial_body l)
snake-Distinct l =
    let n = l.initial_snake_length - 1 in
    (
      subst (λ q. mem q (initial_body l) ≡ false) (behind-zero (initial_head l))
          (not-mem-behind (initial_head l) 0 1 n (omega arith)),
      Distinct-behind (initial_head l) 1 n,
    )

-- What a started episode looks like.
pub record Started (l : Layout) (episode_id : ℕ) (s : GameState) : Type 0 where
  pub valid : IsValid s
  pub food : (p : Position) × (s.food_position ≡ some p)
  pub long : snake_length s ≡ l.initial_snake_length
  pub fresh : (s.score ≡ 0) × (s.move_count ≡ 0)
  pub numbered : (s.episode_id ≡ episode_id) × (s.seed ≡ l.seed) × (s.grid_size ≡ l.grid_size)

abbrev first_state : Layout → ℕ → Position → GameState
first_state l episode_id p = record {
  snake_head = initial_head l;
  snake_body = initial_body l;
  direction = record { dx = pos 1; dy = pos 0 };
  food_position = some p;
  score = 0;
  move_count = 0;
  grid_size = l.grid_size;
  seed = l.seed;
  episode_id = episode_id;
}

first_state-Started :
    (l : Layout) (episode_id : ℕ) (p : Position)
    → Fits l
    → mem p (free_positions l.grid_size (initial_head l ∷ initial_body l)) ≡ true
    → Started l episode_id (first_state l episode_id p)
unfolding is_cardinal
first_state-Started l episode_id p fits m = record {
  valid = record {
    inside = snake-inside l fits;
    distinct = snake-Distinct l;
    linked =
        subst (λ q. Linked q (initial_body l)) (behind-zero (initial_head l))
          (Linked-behind (initial_head l) 0 (l.initial_snake_length - 1));
    free = free_position-IsFree l.grid_size p (initial_head l ∷ initial_body l) m;
    cardinal = refl;
  };
  food = (p, refl);
  long = omega (arith, length-snake l fits);
  fresh = (refl, refl);
  numbered = (refl, refl, refl);
}

module _ (R : Random) where
  -- From a layout that fits, a new episode starts.
  pub new_state-Started :
      (l : Layout) (episode_id : ℕ) (rng : R.State)
      → Fits l
      → (s : GameState) × ((new_state R l episode_id rng).0 ≡ ok s) × Started l episode_id s
  unfolding new_state
  new_state-Started l episode_id rng fits =
      elim (random_free_position-Draw R rng l.grid_size (initial_head l ∷ initial_body l)) [
        | nothing_free e _ ↦ absurd (
            free_positions-ne-nil l.grid_size.0 l.grid_size.1 (initial_head l ∷ initial_body l)
              (omega (arith, length-snake l fits, fits.room)) e)
        | drew p m e ↦ (
          first_state l episode_id p,
          rw (e, new_state),
          first_state-Started l episode_id p fits m,
        )
      ]
