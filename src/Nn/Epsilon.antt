-- ===== src/Nn/Epsilon.antt =====
-- nn/EpsilonAlgo.py: the exploration schedule. The floats are a parameter, and so is the float that
-- `random.Random.random` draws. Logging is left out.
pub mod Schedule
use snake_lab.Base.{ℕ, ◌+◌, Bool, true, false, not, ◌&&◌, ◌||◌, Option, none, some, if◌then◌else◌}
use snake_lab.Base.Int.{ℤ, pos, pos_part, leb_ℤ}
use snake_lab.Base.Results.{Result, ok, err, ◌>>=◌, ◌>>◌, require, refuse}
use snake_lab.External.{Random, Floats}

pub data EpsilonError : Type 0 where
  not_in_range minimum_above_initial zero_decay no_actions : EpsilonError

module _ (R : Random) (L : Floats) where
  open L use {F}

  pub record EpsilonAlgo : Type 0 where
    pub rng : R.State
    pub initial : F
    pub minimum : F
    pub decay : F
    pub cutoff : F
    pub action_count : ℕ
    pub epsilon : F
    pub episode_injections : ℕ
    pub total_injections : ℕ
    pub episodes : ℕ
    pub floor_logged : Bool

module _ (L : Floats) where
  open L use {F, zero, one, le, lt, eq, times}

  -- `_probability` on a float.
  unfoldable pub probability : F → Result EpsilonError F
  probability value = if le zero value && le value one then ok value else err not_in_range

  -- Python's max(a, b): the second argument only if it is greater.
  abbrev pub max_float : F → F → F
  max_float a b = if lt a b then b else a

  module _ (R : Random) (draw : R.State → F × R.State) where
    -- EpsilonAlgo(...)
    unfoldable pub new_epsilon : R.State → F → F → F → F → ℤ → Result EpsilonError (EpsilonAlgo R L)
    new_epsilon rng initial_value minimum_value decay_value cutoff_value action_count = do
      initial ← probability initial_value
      minimum ← probability minimum_value
      decay ← probability decay_value
      cutoff ← probability cutoff_value
      refuse (lt initial minimum) minimum_above_initial
      refuse (eq decay zero) zero_decay
      refuse (leb_ℤ action_count (pos 0)) no_actions
      ok (record {
        rng = rng;
        initial = initial;
        minimum = minimum;
        decay = decay;
        cutoff = cutoff;
        action_count = pos_part action_count;
        epsilon = initial;
        episode_injections = 0;
        total_injections = 0;
        episodes = 0;
        floor_logged = false;
      })

    unfoldable pub at_floor : EpsilonAlgo R L → Bool
    at_floor e = le e.epsilon e.minimum

    pub maybe_random_action : EpsilonAlgo R L → Option ℕ × EpsilonAlgo R L
    maybe_random_action e =
        let (drawn, rng) = draw e.rng in
        if le e.epsilon drawn
        then (none, record e { rng = rng })
        else let (action, rng') = R.randbelow e.action_count rng in
          (
            some action,
            record e {
              rng = rng';
              episode_injections = e.episode_injections + 1;
              total_injections = e.total_injections + 1;
            },
          )

    -- The new epsilon after one more episode.
    pub next_epsilon : EpsilonAlgo R L → F
    next_epsilon e =
        let epsilon = max_float e.minimum (times e.epsilon e.decay) in
        if eq e.minimum zero && lt epsilon e.cutoff then zero else epsilon

    pub episode_completed : EpsilonAlgo R L → F × EpsilonAlgo R L
    episode_completed e =
        let epsilon = next_epsilon e in
        (
          epsilon,
          record e {
            episodes = e.episodes + 1;
            epsilon = epsilon;
            episode_injections = 0;
            floor_logged =
                if le epsilon e.minimum && not e.floor_logged then true else e.floor_logged;
          },
        )

    -- The generator goes on where it is.
    unfoldable pub reset : EpsilonAlgo R L → EpsilonAlgo R L
    reset e = record e {
      epsilon = e.initial;
      episode_injections = 0;
      total_injections = 0;
      episodes = 0;
      floor_logged = false;
    }
