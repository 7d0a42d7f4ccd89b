-- ===== src/Nn/Replay/Invariant.antt =====
-- The invariant of the replay memory, and that `append` keeps it.
use snake_lab.Base.{
  ℕ, ◌+◌, ◌*◌, ◌≤◌, ◌<◌, ◌≡◌, refl, Bool, true, false, List, [], ◌∷◌, ◌++◌, length, length-map,
  length-append, map, All, All-append, arith, ◌⊎◌, ◌≢◌,
}
use snake_lab.Base.Int.{ℤ, pos, pos_part, ◌<ℤ◌, ◌≤ℤ◌, ◌*ℤ◌}
use snake_lab.Base.Results.{Result, ok, err}
use snake_lab.External.{Random}
use snake_lab.Nn.Replay.{
  ReplayError, Transition, Episode, size, ReplayMemory, long_enough, window_counts, accumulate,
  last_or, last_next_state, all_int64, episode_of, reindex, finalize_episode, new_memory,
}
use snake_lab.Nn.Replay.Eviction.{
  frames, frames-append, Evicted, keep, discard, evict-Evicted, Evicted-fits,
}

-- Only the last flag is set.
abbrev pub EndsOnce : List Bool → Type 0
EndsOnce [] = ⊥
EndsOnce (d ∷ []) = d ≡ true
EndsOnce (d ∷ e ∷ ds) = (d ≡ false) × EndsOnce (e ∷ ds)

-- N transitions over N + 1 observations, the last of them terminal.
pub record IsShaped {G : Type 0} (e : Episode G) : Type 0 where
  pub observations : length e.states ≡ size e + 1
  pub rewards : length e.rewards ≡ size e
  pub dones : length e.dones ≡ size e
  pub ends : EndsOnce e.dones

pub Evicted-All :
    {G : Type 0} {limit : ℕ} {es kept : List (Episode G)} (P : Episode G → Type 0)
    → Evicted limit es kept
    → All P es
    → All P kept
Evicted-All P (keep _) h = h
Evicted-All P (discard _ rest) h = Evicted-All P rest h.1

module _ (R : Random) {X F G : Type 0} (state32 : X → G) (reward32 : F → G) where
  pub record IsWell (m : ReplayMemory R X F G) : Type 0 where
    pub counted : m.frame_count ≡ frames m.episodes
    pub bounded : m.frame_count ≤ m.max_frames
    pub shaped : All IsShaped m.episodes
    pub filtered : m.eligible ≡ long_enough m.sequence_length m.episodes
    pub summed : m.cumulative ≡ accumulate 0 (window_counts m.sequence_length m.eligible)
    pub totalled : m.total_windows ≡ last_or 0 m.cumulative
    pub running : All (λ (t : Transition X F). t.done ≡ false) m.current
    pub positive : 0 < m.sequence_length

  length-last_next_state :
      (ts : List (Transition X F)) (t : Transition X F)
      → length (last_next_state R state32 reward32 (ts ++ t ∷ [])) ≡ 1
  length-last_next_state [] t = refl
  length-last_next_state (u ∷ []) t = refl
  length-last_next_state (u ∷ v ∷ ts) t = length-last_next_state (v ∷ ts) t

  EndsOnce-done :
      (ts : List (Transition X F)) (t : Transition X F)
      → All (λ (u : Transition X F). u.done ≡ false) ts
      → t.done ≡ true
      → EndsOnce (map (λ (u : Transition X F). u.done) (ts ++ t ∷ []))
  EndsOnce-done [] t h d = d
  EndsOnce-done (u ∷ []) t h d = (h.0, d)
  EndsOnce-done (u ∷ v ∷ ts) t h d = (h.0, EndsOnce-done (v ∷ ts) t h.1 d)

  episode_of-IsShaped :
      (ts : List (Transition X F)) (t : Transition X F)
      → All (λ (u : Transition X F). u.done ≡ false) ts
      → t.done ≡ true
      → IsShaped (episode_of R state32 reward32 (ts ++ t ∷ []))
  unfolding episode_of
  episode_of-IsShaped ts t h d =
      let all = ts ++ t ∷ [] in
      let states = map (λ (u : Transition X F). u.state) all in
      let last = last_next_state R state32 reward32 all in
      record {
        observations = omega (
          arith,
          length-map (states ++ last) (map state32),
          length-append states last,
          length-map all (λ (u : Transition X F). u.state),
          length-map all (λ (u : Transition X F). u.action),
          length-last_next_state ts t,
        );
        rewards = omega (
          arith,
          length-map all (λ (u : Transition X F). reward32 u.reward),
          length-map all (λ (u : Transition X F). u.action),
        );
        dones = omega (
          arith,
          length-map all (λ (u : Transition X F). u.done),
          length-map all (λ (u : Transition X F). u.action),
        );
        ends = EndsOnce-done ts t h d;
      }

  abbrev pub extended : ReplayMemory R X F G → Transition X F → ReplayMemory R X F G
  extended m t = record m { current = m.current ++ t ∷ [] }

  abbrev pub with_episode : ReplayMemory R X F G → Transition X F → List (Episode G)
  with_episode m t = m.episodes ++ episode_of R state32 reward32 (m.current ++ t ∷ []) ∷ []

  pub finalize-IsWell :
      (m : ReplayMemory R X F G) (t : Transition X F)
      → IsWell m
      → t.done ≡ true
      → all_int64 R state32 reward32 (m.current ++ t ∷ []) ≡ true
      → (m' : ReplayMemory R X F G) × (finalize_episode R state32 reward32 (extended m t) ≡ ok m')
        × IsWell m'
        × (m'.current ≡ [])
        × Evicted m.max_frames (with_episode m t) m'.episodes
  unfolding finalize_episode reindex
  finalize-IsWell m t well done fits =
      let episode = episode_of R state32 reward32 (m.current ++ t ∷ []) in
      let shaped = episode_of-IsShaped m.current t well.running done in
      let n = m.frame_count + size episode in
      let counted : n ≡ frames (with_episode m t) =
        omega (arith, well.counted, frames-append m.episodes (episode ∷ [])) in
      let (kept, e, evicted) = evict-Evicted m.max_frames n (with_episode m t) counted in
      (
        reindex R state32 reward32 (extended m t) kept (frames kept),
        rw (fits, e),
        record {
          counted = refl;
          bounded = Evicted-fits evicted;
          shaped =
              Evicted-All IsShaped evicted
                (All-append IsShaped m.episodes (episode ∷ []) well.shaped (shaped, tt));
          filtered = refl;
          summed = refl;
          totalled = refl;
          running = tt;
          positive = well.positive;
        },
        refl,
        evicted,
      )

  -- How `append` ends on a well-formed memory.
  pub data Appended (m : ReplayMemory R X F G) (t : Transition X F)
      : Result ReplayError (ReplayMemory R X F G) → Type 0 where
    rejected :
        {e : ReplayError}
        → (length t.state ≢ m.state_size)
          ⊎ ((length t.next_state ≢ m.state_size) ⊎ (t.action <ℤ pos 0))
        → Appended m t (err e)
    overflows :
        t.done ≡ true
        → all_int64 R state32 reward32 (m.current ++ t ∷ []) ≡ false
        → Appended m t (err ReplayError.action_overflow)
    continued : t.done ≡ false → IsWell (extended m t) → Appended m t (ok (extended m t))
    completed :
        {m' : ReplayMemory R X F G}
        → t.done ≡ true
        → IsWell m'
        → m'.current ≡ []
        → Evicted m.max_frames (with_episode m t) m'.episodes
        → Appended m t (ok m')

  pub extended-IsWell :
      (m : ReplayMemory R X F G) (t : Transition X F)
      → IsWell m
      → t.done ≡ false
      → IsWell (extended m t)
  extended-IsWell m t well open_still = record {
    counted = well.counted;
    bounded = well.bounded;
    shaped = well.shaped;
    filtered = well.filtered;
    summed = well.summed;
    totalled = well.totalled;
    running = All-append _ m.current (t ∷ []) well.running (open_still, tt);
    positive = well.positive;
  }

  -- What the constructor returns.
  pub new_memory-starts :
      (state_size sequence_length batch_size max_frames seed : ℤ)
      → pos 0 <ℤ state_size
      → pos 0 <ℤ sequence_length
      → pos 0 <ℤ batch_size
      → pos 0 <ℤ max_frames
      → sequence_length *ℤ batch_size ≤ℤ max_frames
      → (m : ReplayMemory R X F G) × (new_memory R state32 reward32 state_size sequence_length
            batch_size max_frames seed
          ≡ ok m)
        × IsWell m
        × (m.episodes ≡ [])
        × (pos (m.sequence_length * m.batch_size) ≤ℤ pos m.max_frames)
        × (m.current ≡ [])
        × (m.state_size ≡ pos_part state_size)
  unfolding new_memory accumulate long_enough ◌*ℤ◌
  new_memory-starts a b c d seed ha hb hc hd room = (
    record {
      state_size = pos_part a;
      sequence_length = pos_part b;
      batch_size = pos_part c;
      max_frames = pos_part d;
      rng = R.seeded seed;
      episodes = [];
      eligible = [];
      cumulative = [];
      total_windows = 0;
      current = [];
      frame_count = 0;
      batch = [];
    },
    ground arith,
    record {
      counted = refl;
      bounded = omega arith;
      shaped = tt;
      filtered = refl;
      summed = refl;
      totalled = refl;
      running = tt;
      positive = ground arith;
    },
    refl,
    ground arith,
    refl,
    refl,
  )

  -- For positive sizes and room for a batch the constructor returns a well-formed empty memory.
  pub new_memory-IsWell :
      (state_size sequence_length batch_size max_frames seed : ℤ)
      → pos 0 <ℤ state_size
      → pos 0 <ℤ sequence_length
      → pos 0 <ℤ batch_size
      → pos 0 <ℤ max_frames
      → sequence_length *ℤ batch_size ≤ℤ max_frames
      → (m : ReplayMemory R X F G) × (new_memory R state32 reward32 state_size sequence_length
            batch_size max_frames seed
          ≡ ok m)
        × IsWell m
        × (m.episodes ≡ [])
        × (pos (m.sequence_length * m.batch_size) ≤ℤ pos m.max_frames)
  new_memory-IsWell a b c d seed ha hb hc hd room =
      let (m, made, well, empty, fits, closed, sized) =
        new_memory-starts a b c d seed ha hb hc hd room in
      (m, made, well, empty, fits)
