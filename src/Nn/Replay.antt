-- ===== src/Nn/Replay.antt =====
-- nn/ReplayMemory.py. `X` is the type of an observed value, `F` that of a reward, and `G` that of a
-- 32-bit float; `state32` and `reward32` are numpy's conversions. An array is a list.
pub mod Windows
pub mod Eviction
pub mod Invariant
pub mod Samples
use snake_lab.Base.{
  ℕ, zero, suc, ◌+◌, ◌-◌, ◌*◌, Bool, true, false, not, ◌&&◌, Option, none, some, List, [], ◌∷◌,
  ◌++◌, map, length, get_elem?, take, drop, ltb, leb, ◌==◌, if◌then◌else◌,
}
use snake_lab.Base.Int.{ℤ, pos, pos_part, ltb_ℤ, leb_ℤ, ◌*ℤ◌}
use snake_lab.Base.Results.{Result, ok, err, ◌>>=◌, ◌>>◌, refuse, require, or_raise}
use snake_lab.External.{Random}

-- `bad_features` is the ValueError of RNNModel, which training on a memory may raise.
pub data ReplayError : Type 0 where
  not_positive too_few_frames bad_state_size bad_next_state_size negative_action : ReplayError
  pop_from_empty index_out_of_range action_overflow bad_features : ReplayError

pub record Transition (X F : Type 0) : Type 0 where
  pub state : List X
  pub action : ℤ
  pub reward : F
  pub next_state : List X
  pub done : Bool

-- N transitions over N + 1 observations.
pub record Episode (G : Type 0) : Type 0 where
  pub states : List (List G)
  pub actions : List ℤ
  pub rewards : List G
  pub dones : List Bool

abbrev pub size : {G : Type 0} → Episode G → ℕ
size e = length e.actions

-- One row of a ReplayBatch.
pub record Sample (G : Type 0) : Type 0 where
  pub states : List (List G)
  pub action : ℤ
  pub reward : G
  pub next_states : List (List G)
  pub done : Bool

-- `_rng`, and what the object holds beside it. `batch` stands for the buffers of the batch, which
-- every successful `sample` overwrites.
pub record ReplayMemory (R : Random) (X F G : Type 0) : Type 0 where
  pub state_size : ℕ
  pub sequence_length : ℕ
  pub batch_size : ℕ
  pub max_frames : ℕ
  pub rng : R.State
  pub episodes : List (Episode G)
  pub eligible : List (Episode G)
  pub cumulative : List ℕ
  pub total_windows : ℕ
  pub current : List (Transition X F)
  pub frame_count : ℕ
  pub batch : List (Sample G)

-- `while frame_count > max_frames: popleft`.
pub evict : {G : Type 0} → ℕ → List (Episode G) → ℕ → Result ReplayError (List (Episode G) × ℕ)
evict max_frames [] frame_count =
    if ltb max_frames frame_count then err pop_from_empty else ok ([], frame_count)
evict max_frames (e ∷ es) frame_count =
    let rest = evict max_frames es (frame_count - size e) in
    if ltb max_frames frame_count then rest else ok (e ∷ es, frame_count)

-- [episode for episode in episodes if episode.size >= sequence_length]
unfoldable pub long_enough : {G : Type 0} → ℕ → List (Episode G) → List (Episode G)
long_enough n [] = []
long_enough n (e ∷ es) = if leb n (size e) then e ∷ long_enough n es else long_enough n es

-- The windows of `n` transitions in each episode.
abbrev pub window_counts : {G : Type 0} → ℕ → List (Episode G) → List ℕ
window_counts n es = map (λ e. size e - n + 1) es

-- itertools.accumulate, from a running sum.
unfoldable pub accumulate : ℕ → List ℕ → List ℕ
accumulate sum [] = []
accumulate sum (n ∷ ns) = (sum + n) ∷ accumulate (sum + n) ns

-- xs[-1] if xs else d
abbrev pub last_or : ℕ → List ℕ → ℕ
last_or d [] = d
last_or d (n ∷ ns) = last_or n ns

-- bisect.bisect_right on a sorted list: how many items come before `x` is inserted.
pub bisect_right : List ℕ → ℕ → ℕ
bisect_right [] x = 0
bisect_right (c ∷ cs) x = if ltb x c then 0 else suc (bisect_right cs x)

-- cumulative[index - 1] if index else 0
abbrev pub previous_total : List ℕ → ℕ → Option ℕ
previous_total cs zero = some 0
previous_total cs (suc i) = get_elem? cs i

abbrev pub at : {A : Type 0} → List A → ℕ → Result ReplayError A
at xs i = or_raise (get_elem? xs i) index_out_of_range

-- One row of the batch, for the window with number `window_id`.
pub sample_window : {G : Type 0} → ℕ → List (Episode G) → List ℕ → ℕ → Result ReplayError (Sample G)
sample_window n eligible cumulative window_id = do
  let episode_index = bisect_right cumulative window_id
  before ← or_raise (previous_total cumulative episode_index) index_out_of_range
  let start = window_id - before
  let transition_index = start + n - 1
  episode ← at eligible episode_index
  action ← at episode.actions transition_index
  reward ← at episode.rewards transition_index
  done ← at episode.dones transition_index
  ok (record {
    states = take n (drop start episode.states);
    action = action;
    reward = reward;
    next_states = take n (drop (start + 1) episode.states);
    done = done;
  })

pub sample_windows :
    {G : Type 0} → ℕ → List (Episode G) → List ℕ → List ℕ → Result ReplayError (List (Sample G))
sample_windows n eligible cumulative [] = ok []
sample_windows n eligible cumulative (w ∷ ws) = do
  row ← sample_window n eligible cumulative w
  rows ← sample_windows n eligible cumulative ws
  ok (row ∷ rows)

module _ (R : Random) {X F G : Type 0} (state32 : X → G) (reward32 : F → G) where
  -- ReplayMemory(...), on integer arguments.
  pub new_memory : ℤ → ℤ → ℤ → ℤ → ℤ → Result ReplayError (ReplayMemory R X F G)
  new_memory state_size sequence_length batch_size max_frames seed = do
    refuse (leb_ℤ state_size (pos 0)) not_positive
    refuse (leb_ℤ sequence_length (pos 0)) not_positive
    refuse (leb_ℤ batch_size (pos 0)) not_positive
    refuse (leb_ℤ max_frames (pos 0)) not_positive
    refuse (ltb_ℤ max_frames (sequence_length *ℤ batch_size)) too_few_frames
    ok (record {
      state_size = pos_part state_size;
      sequence_length = pos_part sequence_length;
      batch_size = pos_part batch_size;
      max_frames = pos_part max_frames;
      rng = R.seeded seed;
      episodes = [];
      eligible = [];
      cumulative = [];
      total_windows = 0;
      current = [];
      frame_count = 0;
      batch = [];
    })

  abbrev pub last_next_state : List (Transition X F) → List (List X)
  last_next_state [] = []
  last_next_state (t ∷ []) = t.next_state ∷ []
  last_next_state (t ∷ u ∷ ts) = last_next_state (u ∷ ts)

  -- The arrays of a completed episode.
  unfoldable pub episode_of : List (Transition X F) → Episode G
  episode_of ts = record {
    states = map (map state32) (map (λ (t : Transition X F). t.state) ts ++ last_next_state ts);
    actions = map (λ (t : Transition X F). t.action) ts;
    rewards = map (λ (t : Transition X F). reward32 t.reward) ts;
    dones = map (λ (t : Transition X F). t.done) ts;
  }

  -- The derived fields, from the episodes that are kept.
  unfoldable pub reindex : ReplayMemory R X F G → List (Episode G) → ℕ → ReplayMemory R X F G
  reindex m episodes frame_count =
      let eligible = long_enough m.sequence_length episodes in
      let cumulative = accumulate 0 (window_counts m.sequence_length eligible) in
      record m {
        episodes = episodes;
        frame_count = frame_count;
        current = [];
        eligible = eligible;
        cumulative = cumulative;
        total_windows = last_or 0 cumulative;
      }

  -- The array of 64-bit integers holds the actions: `append` has refused the negative ones, and one that
  -- is too large raises OverflowError.
  abbrev pub all_int64 : List (Transition X F) → Bool
  all_int64 [] = true
  all_int64 (t ∷ ts) = ltb_ℤ t.action (pos 9223372036854775808) && all_int64 ts

  unfoldable pub finalize_episode : ReplayMemory R X F G → Result ReplayError (ReplayMemory R X F G)
  finalize_episode m = do
    require (all_int64 m.current) action_overflow
    let episode = episode_of m.current
    kept ← evict m.max_frames (m.episodes ++ episode ∷ []) (m.frame_count + size episode)
    ok (reindex m kept.0 kept.1)

  unfoldable pub append :
      ReplayMemory R X F G → Transition X F → Result ReplayError (ReplayMemory R X F G)
  append m t = do
    require (length t.state == m.state_size) bad_state_size
    require (length t.next_state == m.state_size) bad_next_state_size
    refuse (ltb_ℤ t.action (pos 0)) negative_action
    let m' = record m { current = m.current ++ t ∷ [] }
    if t.done then finalize_episode m' else ok m'

  -- `sample`: `none` until there are enough windows for a batch.
  pub sample :
      ReplayMemory R X F G → Result ReplayError (Option (List (Sample G)) × ReplayMemory R X F G)
  sample m = if ltb m.total_windows m.batch_size then ok (none, m) else do
    let (window_ids, rng) = R.sample m.total_windows m.batch_size m.rng
    rows ← sample_windows m.sequence_length m.eligible m.cumulative window_ids
    ok (some rows, record m { rng = rng; batch = rows })
