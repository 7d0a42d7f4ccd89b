-- ===== src/External.antt =====
-- What the program uses and does not implement: the pseudo-random generator of Python's `random`
-- and the IEEE floats. Both are parameters of the model; `counting` and `Thousandths` are small
-- instances for the tests.
use snake_lab.Base.{
  ℕ, zero, suc, ◌+◌, ◌*◌, ◌/◌, ◌%◌, ◌<◌, ◌≡◌, refl, Bool, true, false, Option, some, List, [], ◌∷◌,
  ◌≤◌, get_elem?, length, All, range_from, length-range_from, arith, leb, ltb, ◌==◌,
}
use snake_lab.Base.Int.{ℤ, pos_part}
use snake_lab.Base.Members.{mem, Distinct, nat_eq}

-- `random.Random`: `seeded` is the constructor, `randbelow n` draws a number below `n`, which is
-- what `choice` and `randrange` are built on, and `sample n k` draws k different numbers below n,
-- `Random.sample(range(n), k)`.
pub record Random : Type 1 where
  pub State : Type 0
  pub seeded : ℤ → State
  pub randbelow : ℕ → State → ℕ × State
  pub randbelow_lt : (n : ℕ) (s : State) → 0 < n → (randbelow n s).0 < n
  pub sample : ℕ → ℕ → State → List ℕ × State
  pub sample_length : (n k : ℕ) (s : State) → k ≤ n → length (sample n k s).0 ≡ k
  pub sample_below : (n k : ℕ) (s : State) → k ≤ n → All (λ i. i < n) (sample n k s).0
  pub sample_distinct : (n k : ℕ) (s : State) → k ≤ n → Distinct (sample n k s).0

-- rng.choice(xs), on a list with at least one item.
unfoldable pub choice : (R : Random) {A : Type 0} → List A → R.State → Option A × R.State
choice R xs s = let (i, s') = R.randbelow (length xs) s in (get_elem? xs i, s')

pub get_elem?-IsSome :
    {A : Type 0} (xs : List A) (i : ℕ) → i < length xs → (a : A) × (get_elem? xs i ≡ some a)
get_elem?-IsSome [] i h = absurd (omega arith)
get_elem?-IsSome (x ∷ xs) zero h = (x, refl)
get_elem?-IsSome (x ∷ xs) (suc i) h = get_elem?-IsSome xs i (omega arith)

pub counting_lt : (n s : ℕ) → 0 < n → s % n < n
counting_lt n s h = grind arith

pub counting_below : (i k n : ℕ) → i + k ≤ n → All (λ j. j < n) (range_from i k)
counting_below i zero n h = tt
counting_below i (suc k) n h = (omega arith, counting_below (suc i) k n (omega arith))

not-mem-range_from : (i j k : ℕ) → i < j → mem i (range_from j k) ≡ false
not-mem-range_from i j zero h = refl
not-mem-range_from i j (suc k) h = ground (arith, not-mem-range_from i (suc j) k (omega arith))

pub counting-Distinct : (i k : ℕ) → Distinct (range_from i k)
counting-Distinct i zero = tt
counting-Distinct i (suc k) =
    (not-mem-range_from i (suc i) k (omega arith), counting-Distinct (suc i) k)

-- A generator that counts.
abbrev pub counting : Random
counting = record {
  State = ℕ;
  seeded = pos_part;
  randbelow = λ n s. (s % n, s + 1);
  randbelow_lt = counting_lt;
  sample = λ n k s. (range_from 0 k, s + 1);
  sample_length = λ n k s h. length-range_from 0 k;
  sample_below = λ n k s h. counting_below 0 k n (omega arith);
  sample_distinct = λ n k s h. counting-Distinct 0 k;
}

-- Python's floats, with what the program does with them. A comparison with nan is false. The product of
-- two numbers from 0 to 1 is at most the first, as the first is a float and rounding is monotone.
pub record Floats : Type 1 where
  pub F : Type 0
  pub zero : F
  pub one : F
  pub le : F → F → Bool
  pub lt : F → F → Bool
  pub eq : F → F → Bool
  pub plus : F → F → F
  pub times : F → F → F
  pub of_int : ℤ → Option F
  pub le_trans : (a b c : F) → le a b ≡ true → le b c ≡ true → le a c ≡ true
  pub lt_le : (a b : F) → lt a b ≡ true → le a b ≡ true
  pub not_lt_le : (a b : F) → le a a ≡ true → le b b ≡ true → lt a b ≡ false → le b a ≡ true
  pub le_self : (a b : F) → le a b ≡ true → (le a a ≡ true) × (le b b ≡ true)
  pub eq_le : (a b : F) → eq a b ≡ true → le a b ≡ true
  pub zero_le_one : le zero one ≡ true
  pub times_le :
      (a b : F)
      → le zero a ≡ true
      → le a one ≡ true
      → le zero b ≡ true
      → le b one ≡ true
      → (le zero (times a b) ≡ true) × (le (times a b) a ≡ true)

-- Numbers of thousandths, the product rounded down.
abbrev pub thousandths_times : ℕ → ℕ → ℕ
thousandths_times a b = a * b / 1000

pub thousandths_trans : (a b c : ℕ) → leb a b ≡ true → leb b c ≡ true → leb a c ≡ true
thousandths_trans a b c h k = ground arith

pub thousandths_lt_le : (a b : ℕ) → ltb a b ≡ true → leb a b ≡ true
thousandths_lt_le a b h = ground arith

pub thousandths_not_lt :
    (a b : ℕ) → leb a a ≡ true → leb b b ≡ true → ltb a b ≡ false → leb b a ≡ true
thousandths_not_lt a b p q h = ground arith

pub thousandths_self : (a b : ℕ) → leb a b ≡ true → (leb a a ≡ true) × (leb b b ≡ true)
thousandths_self a b h = ground arith

pub thousandths_eq_le : (a b : ℕ) → (a == b) ≡ true → leb a b ≡ true
thousandths_eq_le a b h = ground arith

scaled : (a b : ℕ) → b ≤ 1000 → a * b / 1000 ≤ a
scaled a b h = grind arith

pub thousandths_times_le :
    (a b : ℕ)
    → leb 0 a ≡ true
    → leb a 1000 ≡ true
    → leb 0 b ≡ true
    → leb b 1000 ≡ true
    → (leb 0 (thousandths_times a b) ≡ true) × (leb (thousandths_times a b) a ≡ true)
thousandths_times_le a b p r q h = ground (arith, scaled a b)

abbrev pub thousandths : Floats
thousandths = record {
  F = ℕ;
  zero = 0;
  one = 1000;
  le = leb;
  lt = ltb;
  eq = ◌==◌;
  plus = λ a b. a + b;
  times = thousandths_times;
  of_int = λ n. some (pos_part n * 1000);
  le_trans = thousandths_trans;
  lt_le = thousandths_lt_le;
  not_lt_le = thousandths_not_lt;
  le_self = thousandths_self;
  eq_le = thousandths_eq_le;
  zero_le_one = refl;
  times_le = thousandths_times_le;
}
