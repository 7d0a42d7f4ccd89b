-- ===== src/Nn/Learner/Stored.antt =====
-- A memory that is given choices of the model holds choices of the model.
use mathlib.Core.Path.{subst}
use snake_lab.Base.{
  ℕ, ◌+◌, ◌<◌, ◌≡◌, refl, sym, ap, ◌∙◌, Bool, true, false, List, [], ◌∷◌, ◌++◌, length, ◌==◌, All,
  All-append, map, length-map, arith, if◌then◌else◌,
}
use snake_lab.Base.Int.{pos, ltb_ℤ}
use snake_lab.Base.Results.{Result, ok, require, bind-ok, ok_unique}
use snake_lab.External.{Random}
use snake_lab.Game.State.{observation_length}
use snake_lab.Nn.Replay.{
  Transition, ReplayMemory, ReplayError, evict, size, episode_of, last_next_state, all_int64,
  finalize_episode, append, reindex,
}
use snake_lab.Nn.Replay.Invariant.{IsWell, extended, finalize-IsWell, extended-IsWell, Evicted-All}
use snake_lab.Nn.Learner.{action_count, IsChoice, IsWide, IsPlay, IsMove, IsPlayed}

small_int64 : (a : ℕ) → a < action_count → ltb_ℤ (pos a) (pos 9223372036854775808) ≡ true
small_int64 a h = ground (arith, h)

natural : (a : ℕ) → ltb_ℤ (pos a) (pos 0) ≡ false
natural a = ground arith

module _ (R : Random) {X F G : Type 0} (state32 : X → G) (reward32 : F → G) where
  chosen :
      (ts : List (Transition X F))
      → All IsMove ts
      → All IsChoice (episode_of R state32 reward32 ts).actions
  unfolding episode_of
  chosen [] h = tt
  chosen (t ∷ ts) h = (h.0.choice, chosen ts h.1)

  -- Conversion keeps the number of features.
  pub widened : (states : List (List X)) → All IsWide states → All IsWide (map (map state32) states)
  widened [] h = tt
  widened (state ∷ states) h = (length-map state state32 ∙ h.0, widened states h.1)

  wide_states :
      (ts : List (Transition X F))
      → All IsMove ts
      → All IsWide (map (λ (t : Transition X F). t.state) ts)
  wide_states [] h = tt
  wide_states (t ∷ ts) h = (h.0.from, wide_states ts h.1)

  wide_last :
      (ts : List (Transition X F))
      → All IsMove ts
      → All IsWide (last_next_state R state32 reward32 ts)
  wide_last [] h = tt
  wide_last (t ∷ []) h = (h.0.to, tt)
  wide_last (t ∷ u ∷ ts) h = wide_last (u ∷ ts) h.1

  moved-IsPlay :
      (ts : List (Transition X F)) → All IsMove ts → IsPlay (episode_of R state32 reward32 ts)
  unfolding episode_of
  moved-IsPlay ts h = record {
    choices = chosen ts h;
    wide =
        widened (map (λ (t : Transition X F). t.state) ts ++ last_next_state R state32 reward32 ts)
          (All-append IsWide (map (λ (t : Transition X F). t.state) ts)
            (last_next_state R state32 reward32 ts) (wide_states ts h) (wide_last ts h));
  }

  chosen-all_int64 :
      (ts : List (Transition X F)) → All IsMove ts → all_int64 R state32 reward32 ts ≡ true
  chosen-all_int64 [] h = refl
  chosen-all_int64 (t ∷ ts) (move, h) =
      let (a, is, below) = move.choice in
      let small : ltb_ℤ t.action (pos 9223372036854775808) ≡ true =
        ap (λ x. ltb_ℤ x (pos 9223372036854775808)) is ∙ small_int64 a below in
      rw small (chosen-all_int64 ts h)

  finalize-state_size :
      (m m' : ReplayMemory R X F G)
      → finalize_episode R state32 reward32 m ≡ ok m'
      → m'.state_size ≡ m.state_size
  unfolding finalize_episode reindex
  finalize-state_size m m' h =
      let episode = episode_of R state32 reward32 m.current in
      let (_, _, h1) = bind-ok (require (all_int64 R state32 reward32 m.current) _) _ m' h in
      let (kept, _, same) =
        bind-ok (evict m.max_frames (m.episodes ++ episode ∷ []) (m.frame_count + size episode)) _
          m' h1 in
      let closed : Result ReplayError (ReplayMemory R X F G) =
        ok (reindex R state32 reward32 m kept.0 kept.1) in
      ap (λ (x : ReplayMemory R X F G). x.state_size)
        (sym (ok_unique closed (reindex R state32 reward32 m kept.0 kept.1) m' refl same))

  abbrev pub Stored : ReplayMemory R X F G → Result ReplayError (ReplayMemory R X F G) → Type 0
  Stored m x =
      (m' : ReplayMemory R X F G) × (x ≡ ok m')
      × IsWell R state32 reward32 m'
      × IsPlayed m'
      × (m'.state_size ≡ m.state_size)

  accepted-IsPlayed :
      (m : ReplayMemory R X F G) (t : Transition X F) (done : Bool)
      → IsWell R state32 reward32 m
      → IsPlayed m
      → IsMove t
      → t.done ≡ done
      → Stored m (
          if done
          then finalize_episode R state32 reward32 (extended R state32 reward32 m t)
          else ok (extended R state32 reward32 m t))
  accepted-IsPlayed m t true well played choice done =
      let running = All-append IsMove m.current (t ∷ []) played.running (choice, tt) in
      let (m', same, well', closed, evicted) =
        finalize-IsWell R state32 reward32 m t well done
          (chosen-all_int64 (m.current ++ t ∷ []) running) in
      (
        m',
        same,
        well',
        record {
          stored = Evicted-All IsPlay evicted (
              All-append IsPlay m.episodes _ played.stored
                (moved-IsPlay (m.current ++ t ∷ []) running, tt));
          running = subst (All IsMove) (sym closed) tt;
        },
        finalize-state_size (extended R state32 reward32 m t) m' same,
      )
  accepted-IsPlayed m t false well played choice open_still = (
    extended R state32 reward32 m t,
    refl,
    extended-IsWell R state32 reward32 m t well open_still,
    record {
      stored = played.stored;
      running = All-append IsMove m.current (t ∷ []) played.running (choice, tt);
    },
    refl,
  )

  -- A transition of the right sizes, with a choice of the model, is stored.
  pub append-IsPlayed :
      (m : ReplayMemory R X F G) (t : Transition X F)
      → IsWell R state32 reward32 m
      → IsPlayed m
      → length t.state ≡ m.state_size
      → length t.next_state ≡ m.state_size
      → m.state_size ≡ observation_length
      → IsChoice t.action
      → Stored m (append R state32 reward32 m t)
  unfolding append
  append-IsPlayed m t well played here there sized (a, is, below) =
      let e1 : (length t.state == m.state_size) ≡ true = ground arith in
      let e2 : (length t.next_state == m.state_size) ≡ true = ground arith in
      let e3 : ltb_ℤ t.action (pos 0) ≡ false = ap (λ x. ltb_ℤ x (pos 0)) is ∙ natural a in
      rw (e1, e2, e3)
        (accepted-IsPlayed m t t.done well played
          (record { choice = (a, is, below); from = here ∙ sized; to = there ∙ sized }) refl)
