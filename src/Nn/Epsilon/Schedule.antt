-- ===== src/Nn/Epsilon/Schedule.antt =====
-- The schedule falls from its initial value to its minimum, and never leaves that range.
use snake_lab.Base.{
  ℕ, ◌+◌, ◌≤◌, ◌<◌, ◌≡◌, ◌||◌, refl, true, false, Option, none, some, arith, Bool-cases, if-either,
  inl, inr,
}
use snake_lab.Base.Int.{ℤ, pos_part}
use snake_lab.Base.Results.{ok}
use snake_lab.External.{Random, Floats}
use snake_lab.Nn.Epsilon.{
  EpsilonAlgo, probability, max_float, new_epsilon, maybe_random_action, next_epsilon,
  episode_completed,
}

module _ (L : Floats) where
  open L use {F, zero, one, le, lt, eq, times}

  probability-range :
      (a b : F) → probability L a ≡ ok b → (b ≡ a) × (le zero b ≡ true) × (le b one ≡ true)
  unfolding probability
  probability-range a b h = ground arith

  -- The greater of two numbers is at least the first, and at most what bounds them both.
  max_float-le :
      (a b c : F)
      → le a c ≡ true
      → le b c ≡ true
      → (le a (max_float L a b) ≡ true) × (le (max_float L a b) c ≡ true)
  max_float-le a b c h k = ground (arith, L.lt_le a b, L.le_self a c h)

  module _ (R : Random) (draw : R.State → F × R.State) where
    pub record IsScheduled (e : EpsilonAlgo R L) : Type 0 where
      pub minimum_nonneg : le zero e.minimum ≡ true
      pub above_minimum : le e.minimum e.epsilon ≡ true
      pub below_initial : le e.epsilon e.initial ≡ true
      pub initial_le_one : le e.initial one ≡ true
      pub decay_nonneg : le zero e.decay ≡ true
      pub decay_le_one : le e.decay one ≡ true
      pub counted : e.episode_injections ≤ e.total_injections
      pub some_action : 0 < e.action_count

    -- A schedule that the constructor returns starts at the initial value, in range.
    pub new_epsilon-IsScheduled :
        (rng : R.State) (i m d c : F) (n : ℤ) (e : EpsilonAlgo R L)
        → new_epsilon L R draw rng i m d c n ≡ ok e
        → IsScheduled e × (e.epsilon ≡ e.initial)
    unfolding new_epsilon probability
    new_epsilon-IsScheduled rng i m d c n e h =
        ground (arith, L.not_lt_le i m, L.le_self zero i, L.le_self zero m)

    next_epsilon-range :
        (e : EpsilonAlgo R L)
        → IsScheduled e
        → (le e.minimum (next_epsilon L R draw e) ≡ true)
          × (le (next_epsilon L R draw e) e.epsilon ≡ true)
    unfolding next_epsilon
    next_epsilon-range e s =
        let nonneg = L.le_trans zero e.minimum e.epsilon s.minimum_nonneg s.above_minimum in
        let at_most_one = L.le_trans e.epsilon e.initial one s.below_initial s.initial_le_one in
        let product =
          L.times_le e.epsilon e.decay nonneg at_most_one s.decay_nonneg s.decay_le_one in
        let bounds =
          max_float-le e.minimum (times e.epsilon e.decay) e.epsilon s.above_minimum product.1 in
        ground (arith, bounds, nonneg, L.eq_le e.minimum zero)

    -- A completed episode lowers epsilon or leaves it, never below the minimum, and counts the
    -- episode. Whether the floor was noted before or is reached now, it is noted afterwards.
    pub episode_completed-IsScheduled :
        (e : EpsilonAlgo R L)
        → IsScheduled e
        → let (epsilon, e') = episode_completed L R draw e in
          IsScheduled e'
          × (epsilon ≡ e'.epsilon)
          × (le e'.epsilon e.epsilon ≡ true)
          × (e'.episodes ≡ e.episodes + 1)
          × (e'.episode_injections ≡ 0)
          × (e'.total_injections ≡ e.total_injections)
          × (e'.floor_logged ≡ (e.floor_logged || le e'.epsilon e'.minimum))
    unfolding episode_completed
    episode_completed-IsScheduled e s =
        let (above, below) = next_epsilon-range e s in
        (
          record {
            minimum_nonneg = s.minimum_nonneg;
            above_minimum = above;
            below_initial =
                L.le_trans (next_epsilon L R draw e) e.epsilon e.initial below s.below_initial;
            initial_le_one = s.initial_le_one;
            decay_nonneg = s.decay_nonneg;
            decay_le_one = s.decay_le_one;
            counted = omega arith;
            some_action = s.some_action;
          },
          refl,
          below,
          refl,
          refl,
          refl,
          ground arith,
        )

    -- No action is drawn exactly when the draw is at least epsilon, and then nothing is counted;
    -- otherwise the action is one of the network's, and is counted once.
    pub maybe_random_action-IsScheduled :
        (e : EpsilonAlgo R L)
        → IsScheduled e
        → let (action, e') = maybe_random_action L R draw e in
          let drawn = (draw e.rng).0 in
          IsScheduled e'
          × (le e.epsilon drawn ≡ true
              → (action ≡ none)
                × (e'.episode_injections ≡ e.episode_injections)
                × (e'.total_injections ≡ e.total_injections))
          × (le e.epsilon drawn ≡ false
              → (a : ℕ) × (action ≡ some a)
                × (a < e.action_count)
                × (e'.episode_injections ≡ e.episode_injections + 1)
                × (e'.total_injections ≡ e.total_injections + 1))
    unfolding maybe_random_action
    maybe_random_action-IsScheduled e s = elim (Bool-cases (le e.epsilon (draw e.rng).0)) [
      | inl h ↦ rw h (ground arith, λ _. (refl, refl, refl), λ n. cc)
      | inr h ↦ rw h (
        ground arith,
        λ n. cc,
        λ _. (
          (R.randbelow e.action_count (draw e.rng).1).0,
          refl,
          R.randbelow_lt e.action_count (draw e.rng).1 s.some_action,
          refl,
          refl,
        ),
      )
    ]

    pub new_epsilon-action_count :
        (rng : R.State) (i m d c : F) (n : ℤ) (e : EpsilonAlgo R L)
        → new_epsilon L R draw rng i m d c n ≡ ok e
        → e.action_count ≡ pos_part n
    unfolding new_epsilon probability
    new_epsilon-action_count rng i m d c n e h = ground arith

    -- The number of actions stays.
    pub maybe_random_action-action_count :
        (e : EpsilonAlgo R L) → (maybe_random_action L R draw e).1.action_count ≡ e.action_count
    unfolding maybe_random_action
    maybe_random_action-action_count e =
        if-either (λ (x : Option ℕ × EpsilonAlgo R L). x.1.action_count ≡ e.action_count)
          (le e.epsilon (draw e.rng).0) refl refl

    pub episode_completed-action_count :
        (e : EpsilonAlgo R L) → (episode_completed L R draw e).1.action_count ≡ e.action_count
    unfolding episode_completed
    episode_completed-action_count e = refl
