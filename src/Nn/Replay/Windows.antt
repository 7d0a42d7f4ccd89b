-- ===== src/Nn/Replay/Windows.antt =====
-- The numbering of the windows: `bisect_right` on the running sums finds the episode of a window.
use snake_lab.Base.{
  ℕ, zero, suc, ◌+◌, ◌-◌, ◌≤◌, ◌<◌, ◌≡◌, ◌∙◌, refl, ap, Option, some, List, [], ◌∷◌, take,
  get_elem?, sum, arith, ltb, inl, inr, Bool-cases,
}
use snake_lab.Nn.Replay.{accumulate, bisect_right, last_or, previous_total}

last_or-accumulate : (s : ℕ) (ns : List ℕ) → last_or s (accumulate s ns) ≡ s + sum ns
unfolding accumulate
last_or-accumulate s [] = omega arith
last_or-accumulate s (n ∷ ns) = omega (arith, last_or-accumulate (s + n) ns)

-- The number of windows is the sum over the episodes.
pub total-sum : (ns : List ℕ) → last_or 0 (accumulate 0 ns) ≡ sum ns
total-sum ns = omega (arith, last_or-accumulate 0 ns)

-- The running sum before item `k`, from `s`.
abbrev before_from : ℕ → List ℕ → ℕ → Option ℕ
before_from s cs zero = some s
before_from s cs (suc k) = get_elem? cs k

before_from-accumulate :
    (s n k : ℕ) (ns : List ℕ)
    → before_from s (accumulate s (n ∷ ns)) (suc k) ≡ before_from (s + n) (accumulate (s + n) ns) k
unfolding accumulate
before_from-accumulate s n zero ns = refl
before_from-accumulate s n (suc k) ns = refl

-- Where a window lies: item `k`, at `start` in it.
pub record Located (ns : List ℕ) (cs : List ℕ) (base id : ℕ) (k start : ℕ) : Type 0 where
  pub count : ℕ
  pub found : get_elem? ns k ≡ some count
  pub inside : start < count
  pub numbered : id ≡ base + sum (take k ns) + start
  pub bisected : bisect_right cs id ≡ k
  pub preceded : before_from base cs k ≡ some (base + sum (take k ns))

locate_from :
    (s : ℕ) (ns : List ℕ) (id : ℕ)
    → s ≤ id
    → id < s + sum ns
    → (k : ℕ) × (start : ℕ) × Located ns (accumulate s ns) s id k start
unfolding accumulate bisect_right
locate_from s [] id below above = absurd (omega arith)
locate_from s (n ∷ ns) id below above = elim (Bool-cases (ltb id (s + n))) [
  | inl first ↦ (
    zero,
    id - s,
    record {
      count = n;
      found = refl;
      inside = ground arith;
      numbered = omega arith;
      bisected = rw first;
      preceded = ap some (omega arith);
    },
  )
  | inr later ↦
      let (k, start, l) = locate_from (s + n) ns id (ground arith) (omega arith) in
      (
        suc k,
        start,
        record {
          count = l.count;
          found = l.found;
          inside = l.inside;
          numbered = omega (arith, l.numbered);
          bisected = rw later (ap suc l.bisected);
          preceded = before_from-accumulate s n k ns ∙ l.preceded ∙ ap some (omega arith);
        },
      )
]

locate_back_from :
    (s : ℕ) (ns : List ℕ) (k start n : ℕ)
    → get_elem? ns k ≡ some n
    → start < n
    → bisect_right (accumulate s ns) (s + sum (take k ns) + start) ≡ k
unfolding accumulate bisect_right
locate_back_from s [] k start n found inside = cc
locate_back_from s (m ∷ ns) zero start n found inside = ground arith
locate_back_from s (m ∷ ns) (suc k) start n found inside =
    let shifted : s + sum (take (suc k) (m ∷ ns)) + start ≡ s + m + sum (take k ns) + start =
      omega arith in
    rw shifted (ground (arith, locate_back_from (s + m) ns k start n found inside))

previous_total-before_from : (cs : List ℕ) (k : ℕ) → previous_total cs k ≡ before_from 0 cs k
previous_total-before_from cs zero = refl
previous_total-before_from cs (suc k) = refl

-- Every window number below the total belongs to one item and one position in it.
pub locate :
    (ns : List ℕ) (id : ℕ)
    → id < sum ns
    → (k : ℕ) × (start : ℕ) × (n : ℕ) × (get_elem? ns k ≡ some n)
      × (start < n)
      × (id ≡ sum (take k ns) + start)
      × (bisect_right (accumulate 0 ns) id ≡ k)
      × (previous_total (accumulate 0 ns) k ≡ some (sum (take k ns)))
locate ns id below =
    let (k, start, l) = locate_from 0 ns id (omega arith) (omega arith) in
    (
      k,
      start,
      l.count,
      l.found,
      l.inside,
      omega (arith, l.numbered),
      l.bisected,
      previous_total-before_from (accumulate 0 ns) k ∙ l.preceded ∙ ap some (omega arith),
    )

-- And every position in an item has a window number that leads back to it.
pub locate_back :
    (ns : List ℕ) (k start n : ℕ)
    → get_elem? ns k ≡ some n
    → start < n
    → bisect_right (accumulate 0 ns) (sum (take k ns) + start) ≡ k
locate_back ns k start n found inside =
    let shifted : 0 + sum (take k ns) + start ≡ sum (take k ns) + start = omega arith in
    rw shifted at (locate_back_from 0 ns k start n found inside)
