-- ===== src/Nn/Replay/Samples.antt =====
-- What `sample` returns: windows that lie inside one episode each.
use snake_lab.Base.{
  ℕ, zero, suc, ◌+◌, ◌-◌, ◌≤◌, ◌<◌, ◌≡◌, ◌∙◌, refl, ap, none, some, List, [], ◌∷◌, length, map, sum,
  take, drop, get_elem?, All, arith, ltb, leb, ◌⊎◌, inl, inr, Bool-cases,
}
use mathlib.Core.Path.{subst}
use snake_lab.Base.Results.{ok}
use snake_lab.External.{Random, get_elem?-IsSome}
use snake_lab.Nn.Replay.{
  Episode, size, Sample, ReplayMemory, long_enough, window_counts, accumulate, last_or,
  sample_window, sample_windows, sample,
}
use snake_lab.Nn.Replay.Windows.{total-sum, locate}
use snake_lab.Nn.Replay.Invariant.{IsShaped, IsWell}

get_elem?-map :
    {A : Type 0} (f : A → ℕ) (xs : List A) (i n : ℕ)
    → get_elem? (map f xs) i ≡ some n
    → (x : A) × (get_elem? xs i ≡ some x) × (f x ≡ n)
get_elem?-map f [] i n e = cc
get_elem?-map f (x ∷ xs) zero n e = (x, refl, cc e)
get_elem?-map f (x ∷ xs) (suc i) n e = get_elem?-map f xs i n e

get_elem?-All :
    {A : Type 0} (P : A → Type 0) (xs : List A) (i : ℕ) (x : A)
    → All P xs
    → get_elem? xs i ≡ some x
    → P x
get_elem?-All P [] i x h e = cc
get_elem?-All P (y ∷ xs) zero x h e = let same : y ≡ x = cc e in subst P same h.0
get_elem?-All P (y ∷ xs) (suc i) x h e = get_elem?-All P xs i x h.1 e

long_enough-All :
    {G : Type 0} (n : ℕ) (es : List (Episode G))
    → All IsShaped es
    → All (λ e. IsShaped e × (n ≤ size e)) (long_enough n es)
unfolding long_enough
long_enough-All n [] h = tt
long_enough-All n (e ∷ es) h = elim (Bool-cases (leb n (size e))) [
  | inl fits ↦ rw fits ((h.0, ground arith), long_enough-All n es h.1)
  | inr short ↦ rw short (long_enough-All n es h.1)
]

length-window :
    {A : Type 0} (n start : ℕ) (xs : List A)
    → start + n ≤ length xs
    → length (take n (drop start xs)) ≡ n
length-window zero zero xs h = refl
length-window zero (suc start) [] h = refl
length-window zero (suc start) (x ∷ xs) h = refl
length-window (suc n) zero [] h = absurd (omega arith)
length-window (suc n) zero (x ∷ xs) h = ap suc (length-window n zero xs (omega arith))
length-window (suc n) (suc start) [] h = absurd (omega arith)
length-window (suc n) (suc start) (x ∷ xs) h = length-window (suc n) start xs (omega arith)

-- A row of a batch is `n` consecutive observations of one episode, the `n` that follow one later,
-- and what the episode recorded at the last of them.
pub record IsWindow {G : Type 0} (n : ℕ) (eligible : List (Episode G)) (row : Sample G)
    : Type 0 where
  pub index : ℕ
  pub episode : Episode G
  pub start : ℕ
  pub found : get_elem? eligible index ≡ some episode
  pub inside : start + n ≤ size episode
  pub states : row.states ≡ take n (drop start episode.states)
  pub next_states : row.next_states ≡ take n (drop (start + 1) episode.states)
  pub long : (length row.states ≡ n) × (length row.next_states ≡ n)
  pub action : get_elem? episode.actions (start + n - 1) ≡ some row.action
  pub reward : get_elem? episode.rewards (start + n - 1) ≡ some row.reward
  pub done : get_elem? episode.dones (start + n - 1) ≡ some row.done

module _ {G : Type 0} (n : ℕ) (eligible : List (Episode G)) (positive : 0 < n)
    (fit : All (λ e. IsShaped e × (n ≤ size e)) eligible) where
  abbrev totals : List ℕ
  totals = accumulate 0 (window_counts n eligible)

  sample_window-IsWindow :
      (id : ℕ)
      → id < sum (window_counts n eligible)
      → (row : Sample G) × (sample_window n eligible totals id ≡ ok row) × IsWindow n eligible row
  unfolding sample_window
  sample_window-IsWindow id below =
      let (k, start, count, found, inside, numbered, bisected, preceded) =
        locate (window_counts n eligible) id below in
      let (e, at_k, counted) =
        get_elem?-map (λ (e : Episode G). size e - n + 1) eligible k count found in
      let (shape, fits) = get_elem?-All (λ e. IsShaped e × (n ≤ size e)) eligible k e fit at_k in
      let room : start + n ≤ size e = omega arith in
      let (action, ea) = get_elem?-IsSome e.actions (start + n - 1) (omega arith) in
      let (reward, er) =
        get_elem?-IsSome e.rewards (start + n - 1) (omega (arith, shape.rewards)) in
      let (done, ed) = get_elem?-IsSome e.dones (start + n - 1) (omega (arith, shape.dones)) in
      let begin : id - sum (take k (window_counts n eligible)) ≡ start = omega arith in
      let row : Sample G = record {
        states = take n (drop start e.states);
        action = action;
        reward = reward;
        next_states = take n (drop (start + 1) e.states);
        done = done;
      } in
      (
        row,
        rw (bisected, preceded, begin, at_k, ea, er, ed),
        record {
          index = k;
          episode = e;
          start = start;
          found = at_k;
          inside = room;
          states = refl;
          next_states = refl;
          long = (
            length-window n start e.states (omega (arith, shape.observations)),
            length-window n (start + 1) e.states (omega (arith, shape.observations)),
          );
          action = ea;
          reward = er;
          done = ed;
        },
      )

  sample_windows-IsWindow :
      (ids : List ℕ)
      → All (λ i. i < sum (window_counts n eligible)) ids
      → (rows : List (Sample G)) × (sample_windows n eligible totals ids ≡ ok rows)
        × All (IsWindow n eligible) rows
        × (length rows ≡ length ids)
  unfolding sample_windows
  sample_windows-IsWindow [] below = ([], refl, tt, refl)
  sample_windows-IsWindow (i ∷ ids) below =
      let (row, e, window) = sample_window-IsWindow i below.0 in
      let (rows, es, windows, same) = sample_windows-IsWindow ids below.1 in
      (row ∷ rows, rw (e, es), (window, windows), ap suc same)

module _ (R : Random) {X F G : Type 0} (state32 : X → G) (reward32 : F → G) where
  -- On a well-formed memory `sample` never fails. With too few windows for a batch it returns
  -- nothing and changes nothing; otherwise it returns a full batch of windows, each inside one
  -- stored episode, and only the generator and the batch buffers change.
  pub sample-IsWindow :
      (m : ReplayMemory R X F G)
      → IsWell R state32 reward32 m
      → ((m.total_windows < m.batch_size) × (sample R state32 reward32 m ≡ ok (none, m)))
        ⊎ ((rows : List (Sample G)) × (sample R state32 reward32 m
              ≡ ok (
                some rows,
                record m { rng = (R.sample m.total_windows m.batch_size m.rng).1; batch = rows },
              ))
            × (length rows ≡ m.batch_size)
            × All (IsWindow m.sequence_length m.eligible) rows)
  unfolding sample
  sample-IsWindow m well = elim (Bool-cases (ltb m.total_windows m.batch_size)) [
    | inl few ↦ inl (ground arith, rw few)
    | inr enough ↦
        let n = m.sequence_length in
        let k_le : m.batch_size ≤ m.total_windows = ground arith in
        let ids = (R.sample m.total_windows m.batch_size m.rng).0 in
        let fit : All (λ e. IsShaped e × (n ≤ size e)) m.eligible =
          rw well.filtered (long_enough-All n m.episodes well.shaped) in
        let counted : m.total_windows ≡ sum (window_counts n m.eligible) =
          well.totalled ∙ ap (last_or 0) well.summed ∙ total-sum (window_counts n m.eligible) in
        let below : All (λ i. i < sum (window_counts n m.eligible)) ids =
          subst (λ total. All (λ i. i < total) ids) counted
            (R.sample_below m.total_windows m.batch_size m.rng k_le) in
        let (rows, e, windows, same) =
          sample_windows-IsWindow n m.eligible well.positive fit ids below in
        let same_rows : sample_windows n m.eligible m.cumulative ids ≡ ok rows = rw well.summed e in
        inr (
          rows,
          rw (enough, same_rows),
          same ∙ R.sample_length m.total_windows m.batch_size m.rng k_le,
          windows,
        )
  ]

  -- A batch is drawn only from enough windows.
  pub sample-enough :
      (m m' : ReplayMemory R X F G) (rows : List (Sample G))
      → sample R state32 reward32 m ≡ ok (some rows, m')
      → m.batch_size ≤ m.total_windows
  unfolding sample
  sample-enough m m' rows h = ground arith
