-- ===== src/Tests/Nn.antt =====
-- The replay memory and the schedule at small sizes.
use snake_lab.Base.{
  replicate, ◌||◌, ◌≤◌, ℕ, ◌+◌, ◌<◌, ◌≡◌, ◌⊎◌, refl, Bool, true, false, none, some, List, [], ◌∷◌,
  ◌++◌, All, length, arith,
}
use snake_lab.Base.Int.{pos}
use snake_lab.Base.Results.{ok}
use snake_lab.External.{counting, thousandths}
use snake_lab.Nn.Replay.{
  evict, Transition, Episode, Sample, ReplayMemory, accumulate, sample, long_enough,
}
use snake_lab.Nn.Replay.Eviction.{frames, evict-newest}
use snake_lab.Nn.Replay.Invariant.{IsShaped, IsWell}
use snake_lab.Nn.Replay.Samples.{IsWindow, sample-IsWindow}
use snake_lab.Nn.Epsilon.{at_floor, EpsilonAlgo, new_epsilon, episode_completed, probability}
use snake_lab.Nn.Epsilon.Schedule.{
  IsScheduled, new_epsilon-IsScheduled, episode_completed-IsScheduled,
}

abbrev same : ℕ → ℕ
same a = a

abbrev pub wide : ℕ → List ℕ
wide n = replicate 51 n

abbrev transition : ℕ → Bool → Transition ℕ ℕ
transition n done = record {
  state = wide n;
  action = pos 1;
  reward = n;
  next_state = wide (n + 1);
  done = done;
}

-- An episode of two frames.
abbrev pub pair_episode : Episode ℕ
pair_episode = record {
  states = wide 1 ∷ wide 2 ∷ wide 3 ∷ [];
  actions = pos 0 ∷ pos 2 ∷ [];
  rewards = 5 ∷ 6 ∷ [];
  dones = false ∷ true ∷ [];
}

pair_episode-IsShaped : IsShaped pair_episode
pair_episode-IsShaped = record {
  observations = refl;
  rewards = refl;
  dones = refl;
  ends = (refl, refl);
}

-- Two stored episodes of two frames, windows of two frames, and an open episode of one frame.
abbrev pub memory : ReplayMemory counting ℕ ℕ ℕ
memory = record {
  state_size = 51;
  sequence_length = 2;
  batch_size = 2;
  max_frames = 5;
  rng = 0;
  episodes = pair_episode ∷ pair_episode ∷ [];
  eligible = pair_episode ∷ pair_episode ∷ [];
  cumulative = 1 ∷ 2 ∷ [];
  total_windows = 2;
  current = transition 8 false ∷ [];
  frame_count = 4;
  batch = [];
}

pub memory-IsWell : IsWell counting same same memory
unfolding long_enough accumulate
memory-IsWell = record {
  counted = refl;
  bounded = omega arith;
  shaped = (pair_episode-IsShaped, (pair_episode-IsShaped, tt));
  filtered = refl;
  summed = refl;
  totalled = refl;
  running = (refl, tt);
  positive = omega arith;
}

sample-IsWindow_example :
    ((memory.total_windows < memory.batch_size)
      × (sample counting same same memory ≡ ok (none, memory)))
    ⊎ ((rows : List (Sample ℕ)) × (sample counting same same memory
          ≡ ok (
            some rows,
            record memory {
              rng = (counting.sample memory.total_windows memory.batch_size memory.rng).1;
              batch = rows;
            },
          ))
        × (length rows ≡ memory.batch_size)
        × All (IsWindow memory.sequence_length memory.eligible) rows)
sample-IsWindow_example = sample-IsWindow counting same same memory memory-IsWell

evict-newest_example :
    (kept : List (Episode ℕ)) × (between : List (Episode ℕ)) × (evict 3
        (pair_episode ∷ pair_episode ∷ [])
        4
      ≡ ok (kept, frames kept))
    × (frames kept ≤ 3)
    × (kept ≡ between ++ pair_episode ∷ [])
evict-newest_example =
    evict-newest 3 4 (pair_episode ∷ pair_episode ∷ []) (pair_episode ∷ []) (pair_episode ∷ []) refl
      refl (omega arith)

-- Draws are the state of the counter, in thousandths.
abbrev draw : ℕ → ℕ × ℕ
draw s = (s, s + 1)

abbrev schedule : EpsilonAlgo counting thousandths
schedule = record {
  rng = 100;
  initial = 900;
  minimum = 50;
  decay = 990;
  cutoff = 1;
  action_count = 3;
  epsilon = 900;
  episode_injections = 0;
  total_injections = 0;
  episodes = 0;
  floor_logged = false;
}

schedule-IsScheduled : IsScheduled thousandths counting draw schedule
unfolding new_epsilon probability
schedule-IsScheduled =
    (new_epsilon-IsScheduled thousandths counting draw 100 900 50 990 1 (pos 3) schedule refl).0

episode_completed-IsScheduled_example :
    let (epsilon, e') = episode_completed thousandths counting draw schedule in
    IsScheduled thousandths counting draw e'
    × (epsilon ≡ e'.epsilon)
    × (thousandths.le e'.epsilon schedule.epsilon ≡ true)
    × (e'.episodes ≡ schedule.episodes + 1)
    × (e'.episode_injections ≡ 0)
    × (e'.total_injections ≡ schedule.total_injections)
    × (e'.floor_logged ≡ (schedule.floor_logged || thousandths.le e'.epsilon e'.minimum))
episode_completed-IsScheduled_example =
    episode_completed-IsScheduled thousandths counting draw schedule schedule-IsScheduled

-- A schedule that starts is above its floor.
above_floor : at_floor thousandths counting draw schedule ≡ false
unfolding at_floor
above_floor = refl
