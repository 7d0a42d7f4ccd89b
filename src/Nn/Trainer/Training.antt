-- ===== src/Nn/Trainer/Training.antt =====
-- Training returns on what a simulation stores, and is what the simulator needs.
use mathlib.Core.Path.{subst}
use snake_lab.Base.{
  ℕ, zero, suc, ◌+◌, ◌-◌, ◌<◌, ◌≤◌, ◌≡◌, refl, sym, ap, Bool, true, false, take, drop, ◌==◌, Option,
  none, some, List, [], ◌∷◌, length, get_elem?, All, All-drop, arith, map, inl, inr, if-either, leb,
}
use snake_lab.Base.Int.{pos_part}
use snake_lab.Base.Results.{Result, ok}
use snake_lab.External.{Random, get_elem?-IsSome}
use snake_lab.Game.State.{observation_length}
use snake_lab.Nn.Replay.{Episode, Sample, ReplayMemory, ReplayError, size, long_enough, at}
use snake_lab.Nn.Replay.Invariant.{IsWell}
use snake_lab.Nn.Replay.Samples.{IsWindow, sample-IsWindow, sample-enough}
use snake_lab.Nn.Learner.{Learner, IsChoice, IsWide, IsPlay, IsPlayed, action_count}
use snake_lab.Nn.Learner.Stored.{widened}
use snake_lab.Nn.Trainer.{
  Torch, Trainer, all_wide, action_values, each, predicted, target, soft_update_target, learn,
  choose, train,
}

All-get_elem? :
    {A : Type 0} (Q : A → Type 0) (xs : List A) (i : ℕ) (a : A)
    → All Q xs
    → get_elem? xs i ≡ some a
    → Q a
All-get_elem? Q [] i a h e = cc e
All-get_elem? Q (x ∷ xs) zero a h e = let same : x ≡ a = ground arith in subst Q same h.0
All-get_elem? Q (x ∷ xs) (suc i) a h e = All-get_elem? Q xs i a h.1 e

All-long_enough :
    {G : Type 0} (Q : Episode G → Type 0) (n : ℕ) (es : List (Episode G))
    → All Q es
    → All Q (long_enough n es)
unfolding long_enough
All-long_enough Q n [] h = tt
All-long_enough Q n (e ∷ es) h =
    if-either (All Q) (leb n (size e)) (h.0, All-long_enough Q n es h.1)
      (All-long_enough Q n es h.1)

-- A row that returns for each of its kind returns for all.
each-ok :
    {A B : Type 0} (Q : A → Type 0) (f : A → Result ReplayError B) (xs : List A)
    → ((a : A) → Q a → (b : B) × (f a ≡ ok b))
    → All Q xs
    → (bs : List B) × (each f xs ≡ ok bs)
unfolding each
each-ok Q f [] h all = ([], refl)
each-ok Q f (a ∷ xs) h all =
    let (b, e) = h a all.0 in let (bs, es) = each-ok Q f xs h all.1 in rw (e, es) (b ∷ bs, refl)

at-ok : {A : Type 0} (xs : List A) (i : ℕ) → i < length xs → (a : A) × (at xs i ≡ ok a)
at-ok xs i h = let (a, e) = get_elem?-IsSome xs i h in (a, rw e refl)

module _ {F G : Type 0} (P : Torch F G) where
  abbrev pub Chosen : Sample G → Type 0
  Chosen row = IsChoice row.action × All IsWide row.states × All IsWide row.next_states

  wide-all_wide : (states : List (List G)) → All IsWide states → all_wide P states ≡ true
  wide-all_wide [] h = refl
  wide-all_wide (state ∷ states) h =
      let here : (length state == observation_length) ≡ true = ground (arith, h.0) in
      rw here (wide-all_wide states h.1)

  action_values-ok :
      (training : Bool) (w : P.Weights) (states : List (List G))
      → All IsWide states
      → action_values P training w states ≡ ok (P.forward training w states)
  unfolding action_values
  action_values-ok training w states h = rw (wide-all_wide states h) refl

  predicted-ok :
      (t : Trainer P) (row : Sample G) → Chosen row → (g : G) × (predicted P t row ≡ ok g)
  unfolding predicted
  predicted-ok t row ((a, is, below), wide, next_wide) =
      rw (action_values-ok true t.model row.states wide) (
        at-ok (P.forward true t.model row.states) (pos_part row.action)
          (omega (arith, ap pos_part is, below, P.forward_length true t.model row.states)))

  argmax_forward_lt :
      (t : Trainer P) (states : List (List G))
      → P.argmax (P.forward false t.model states) < action_count
  argmax_forward_lt t states =
      let long = P.forward_length false t.model states in
      omega (arith, long, P.argmax_lt (P.forward false t.model states) (omega (arith, long)))

  pub choose-ok :
      (t : Trainer P) (states : List (List G))
      → All IsWide states
      → (a : ℕ) × (choose P t states ≡ ok a) × (a < action_count)
  unfolding choose
  choose-ok t states wide =
      rw (action_values-ok false t.model states wide) (_, refl, argmax_forward_lt t states)

  target-ok : (t : Trainer P) (row : Sample G) → Chosen row → (g : G) × (target P t row ≡ ok g)
  unfolding target
  target-ok t row h =
      let (value, e) =
        at-ok (P.forward false t.target_model row.next_states)
          (P.argmax (P.forward false t.model row.next_states))
          (omega (
            arith,
            argmax_forward_lt t row.next_states,
            P.forward_length false t.target_model row.next_states,
          )) in
      rw
        (
          action_values-ok false t.model row.next_states h.2,
          action_values-ok false t.target_model row.next_states h.2,
          e,
        )
        (_, refl)

  -- A batch of choices of the model is learned from: the target model moves towards the new model.
  learn-ok :
      (t : Trainer P) (rows : List (Sample G))
      → All Chosen rows
      → (loss : F) × (t' : Trainer P) × (learn P t rows ≡ ok (loss, t'))
        × (t'.target_model ≡ P.lerp t.target_model t'.model t.tau)
  unfolding learn soft_update_target
  learn-ok t rows all =
      let (predictions, p) = each-ok Chosen (predicted P t) rows (predicted-ok t) all in
      let (targets, q) = each-ok Chosen (target P t) rows (target-ok t) all in
      rw (p, q) (_, _, refl, refl)

All-take : {A : Type 0} (Q : A → Type 0) (n : ℕ) (xs : List A) → All Q xs → All Q (take n xs)
All-take Q zero xs h = tt
All-take Q (suc n) [] h = tt
All-take Q (suc n) (x ∷ xs) h = (h.0, All-take Q n xs h.1)

window-Chosen :
    {F G : Type 0} (P : Torch F G) (n : ℕ) (eligible : List (Episode G)) (row : Sample G)
    → All IsPlay eligible
    → IsWindow n eligible row
    → Chosen P row
window-Chosen P n eligible row all w =
    let play = All-get_elem? IsPlay eligible w.index w.episode all w.found in
    (
      All-get_elem? IsChoice w.episode.actions (w.start + n - 1) row.action play.choices w.action,
      subst (All IsWide) (sym w.states) (
          All-take IsWide n (drop w.start w.episode.states)
            (All-drop IsWide w.start w.episode.states play.wide)),
      subst (All IsWide) (sym w.next_states) (
          All-take IsWide n (drop (w.start + 1) w.episode.states)
            (All-drop IsWide (w.start + 1) w.episode.states play.wide)),
    )

All-map :
    {A : Type 0} (Q S : A → Type 0) (xs : List A) → ((a : A) → Q a → S a) → All Q xs → All S xs
All-map Q S [] f h = tt
All-map Q S (x ∷ xs) f h = (f x h.0, All-map Q S xs f h.1)

module _ (R : Random) {X F G : Type 0} (state32 : X → G) (reward32 : F → G) (P : Torch F G) where
  -- What training on a memory comes to.
  pub data Trained (t : Trainer P) (m : ReplayMemory R X F G) (loss : Option F) (t' : Trainer P)
      (m' : ReplayMemory R X F G) : Type 0 where
    too_few :
        m.total_windows < m.batch_size → loss ≡ none → t' ≡ t → m' ≡ m → Trained t m loss t' m'
    learned :
        m.batch_size ≤ m.total_windows
        → (x : F) × (loss ≡ some x)
        → t'.target_model ≡ P.lerp t.target_model t'.model t.tau
        → length m'.batch ≡ m.batch_size
        → m'.episodes ≡ m.episodes
        → Trained t m loss t' m'

  pub train-Trained :
      (t : Trainer P) (m : ReplayMemory R X F G)
      → IsWell R state32 reward32 m
      → IsPlayed m
      → (loss : Option F) × (t' : Trainer P) × (m' : ReplayMemory R X F G) × (train R state32
            reward32 P t m
          ≡ ok (loss, t', m'))
        × IsWell R state32 reward32 m'
        × IsPlayed m'
        × (m'.state_size ≡ m.state_size)
        × Trained t m loss t' m'
  unfolding train
  train-Trained t m well played = elim (sample-IsWindow R state32 reward32 m well) [
    | inl (few, none_drawn) ↦
        rw none_drawn (none, t, m, refl, well, played, refl, too_few few refl refl refl)
    | inr (rows, drawn, full, windows) ↦
        let eligible =
          subst (All (IsPlay {G = G})) (sym well.filtered)
            (All-long_enough IsPlay m.sequence_length m.episodes played.stored) in
        let (loss, t', learned_from, moved) = learn-ok P t rows (
          All-map (IsWindow m.sequence_length m.eligible) (Chosen P) rows
            (λ row w. window-Chosen P m.sequence_length m.eligible row eligible w) windows) in
        rw (drawn, learned_from)
          (
            some loss,
            t',
            _,
            refl,
            record {
              counted = well.counted;
              bounded = well.bounded;
              shaped = well.shaped;
              filtered = well.filtered;
              summed = well.summed;
              totalled = well.totalled;
              running = well.running;
              positive = well.positive;
            },
            record { stored = played.stored; running = played.running },
            refl,
            learned (sample-enough R state32 reward32 m _ rows drawn) (loss, refl) moved full refl,
          )
  ]

  -- The trainer, as the simulator uses it.
  abbrev pub trainer_learner : Learner R X F G state32 reward32
  trainer_learner = record {
    Net = Trainer P;
    choose = λ t states. choose P t (map (map state32) states);
    train = train R state32 reward32 P;
    choose_ok = λ t states wide.
        choose-ok P t (map (map state32) states) (widened R state32 reward32 states wide);
    train_ok = λ t m well played.
        let (loss, t', m', trained, well', played', sized, how) = train-Trained t m well played in
        (loss, t', m', trained, well', played', sized);
  }
