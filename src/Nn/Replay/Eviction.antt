-- ===== src/Nn/Replay/Eviction.antt =====
-- The eviction of old episodes: which are dropped, and that no other loop could keep more.
use snake_lab.Base.{
  ℕ, ◌+◌, ◌-◌, ◌≤◌, ◌<◌, ◌≡◌, ap, List, [], ◌∷◌, ◌++◌, map, sum, arith, ltb, inl, inr, Bool-cases,
}
use snake_lab.Base.Results.{ok}
use snake_lab.Nn.Replay.{Episode, size, evict}

abbrev pub frames : {G : Type 0} → List (Episode G) → ℕ
frames es = sum (map size es)

-- `kept` is what is left of `es` when the oldest episode is dropped for as long as the frames pass
-- the limit.
pub data Evicted {G : Type 0} (limit : ℕ) : List (Episode G) → List (Episode G) → Type 0 where
  keep : {es : List (Episode G)} → frames es ≤ limit → Evicted limit es es
  discard :
      {e : Episode G} {es kept : List (Episode G)}
      → limit < frames (e ∷ es)
      → Evicted limit es kept
      → Evicted limit (e ∷ es) kept

-- With a right frame count the loop ends without an error, and returns the kept episodes with
-- their right frame count.
pub evict-Evicted :
    {G : Type 0} (limit n : ℕ) (es : List (Episode G))
    → n ≡ frames es
    → (kept : List (Episode G)) × (evict limit es n ≡ ok (kept, frames kept))
      × Evicted limit es kept
unfolding evict
evict-Evicted limit n [] h = ([], ground arith, keep (omega arith))
evict-Evicted limit n (e ∷ es) h = elim (Bool-cases (ltb limit n)) [
  | inl over ↦
      let (kept, same, evicted) = evict-Evicted limit (n - size e) es (omega arith) in
      (kept, rw over same, discard (ground arith) evicted)
  | inr under ↦ (e ∷ es, rw under (ap (λ k. ok (e ∷ es, k)) h), keep (ground arith))
]

-- What is kept fits.
pub Evicted-fits :
    {G : Type 0} {limit : ℕ} {es kept : List (Episode G)}
    → Evicted limit es kept
    → frames kept ≤ limit
Evicted-fits (keep h) = h
Evicted-fits (discard _ rest) = Evicted-fits rest

pub frames-append :
    {G : Type 0} (es fs : List (Episode G)) → frames (es ++ fs) ≡ frames es + frames fs
frames-append [] fs = omega arith
frames-append (e ∷ es) fs = omega (arith, frames-append es fs)

pub Evicted-newest :
    {G : Type 0} {limit : ℕ} {es kept : List (Episode G)} (older newer : List (Episode G))
    → Evicted limit es kept
    → es ≡ older ++ newer
    → frames newer ≤ limit
    → (between : List (Episode G)) × (kept ≡ between ++ newer)
Evicted-newest older newer (keep _) split fits = (older, split)
Evicted-newest [] newer (discard over rest) split fits = absurd (omega (arith, ap frames split))
Evicted-newest (o ∷ older) newer (discard over rest) split fits =
    Evicted-newest older newer rest (cc split) fits

-- With a right frame count the eviction returns without an error, what it keeps fits the limit and comes
-- with its right frame count, and any run of newest episodes that fits is among what it keeps.
pub evict-newest :
    {G : Type 0} (limit n : ℕ) (es older newer : List (Episode G))
    → n ≡ frames es
    → es ≡ older ++ newer
    → frames newer ≤ limit
    → (kept : List (Episode G)) × (between : List (Episode G)) × (evict limit es n
        ≡ ok (kept, frames kept))
      × (frames kept ≤ limit)
      × (kept ≡ between ++ newer)
evict-newest limit n es older newer counted split fits =
    let (kept, returned, evicted) = evict-Evicted limit n es counted in
    let (between, joined) = Evicted-newest older newer evicted split fits in
    (kept, between, returned, Evicted-fits evicted, joined)
