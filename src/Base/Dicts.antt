-- ===== src/Base/Dicts.antt =====
-- A Python dictionary with string keys: its items in the order of insertion.
use Prim.Native.String.{String}
use text.Mathlib.Text.{◌==◌}
use text.Mathlib.TextEquality.{eq_iff}
use text.Mathlib.TextPositions.{eq_refl}
use snake_lab.Base.Members.{Eq}
use snake_lab.Base.Tests.{if◌then◌else◌, Bool-cases}
use mathlib.Core.Path.{◌≡◌, refl}
use mathlib.Core.Logic.{inl, inr}
use mathlib.Core.Bool.{Bool, false}
use mathlib.Core.Option.{Option, none, some}
use mathlib.Core.List.{List, [], ◌∷◌}
use native.Mathlib.Omega.{arith}

abbrev pub Dict : Type 0 → Type 0
Dict A = List (String × A)

instance abbrev pub text_eq : Eq String
text_eq = record { beq = ◌==◌; beq_iff = eq_iff }

pub ==_sym : (i j : String) → (i == j) ≡ false → (j == i) ≡ false
==_sym i j h = elim (Bool-cases (j == i)) [
  | inl same ↦ let p : j ≡ i = (eq_iff j i).0 same in cc (h, p, eq_refl i)
  | inr other ↦ other
]

k_differs : (i j k : String) → i ≡ j → (i == k) ≡ false → (k == j) ≡ false
k_differs i j k p h = ==_sym j k (rw (← p) h)

module _ {A : Type 0} where
  -- d.get(k)
  abbrev pub lookup : String → Dict A → Option A
  lookup k [] = none
  lookup k ((j, a) ∷ d) = if j == k then some a else lookup k d

  -- d[k] = a
  abbrev pub insert : String → A → Dict A → Dict A
  insert k a [] = (k, a) ∷ []
  insert k a ((j, b) ∷ d) = if j == k then (j, a) ∷ d else (j, b) ∷ insert k a d

  -- next((a for a in d.values() if test(a)), None)
  abbrev pub find_value : (A → Bool) → Dict A → Option A
  find_value test [] = none
  find_value test ((k, a) ∷ d) = if test a then some a else find_value test d

  pub lookup-insert : (k : String) (a : A) (d : Dict A) → lookup k (insert k a d) ≡ some a
  lookup-insert k a [] = rw (eq_refl k) refl
  lookup-insert k a ((j, b) ∷ d) = elim (Bool-cases (j == k)) [
    | inl same ↦ rw (same, same) refl
    | inr other ↦ rw (other, other) (lookup-insert k a d)
  ]

  -- What an item reads after an update.
  pub lookup-insert_at :
      (j k : String) (a : A) (d : Dict A)
      → lookup j (insert k a d) ≡ (if k == j then some a else lookup j d)
  lookup-insert_at j k a [] = refl
  lookup-insert_at j k a ((i, b) ∷ d) = elim (Bool-cases (i == k)) [
    | inl same ↦ let p : i ≡ k = (eq_iff i k).0 same in rw same (rw p (ground arith))
    | inr other ↦ elim (Bool-cases (i == j)) [
      | inl here ↦
          let p : i ≡ j = (eq_iff i j).0 here in
          let q : (k == j) ≡ false = k_differs i j k p other in rw (other, here, q) refl
      | inr there ↦ rw (other, there) (lookup-insert_at j k a d)
    ]
  ]

-- `e` is `d` with each value changed along `R`, and perhaps one item more, whose value is in `New`.
pub data Extends {A : Type 0} (R : A → A → Type 0) (New : A → Type 0)
    : Dict A → Dict A → Type 0 where
  same_end : Extends R New [] []
  one_more : {k : String} {a : A} → New a → Extends R New [] ((k, a) ∷ [])
  next :
      {k : String} {a b : A} {d e : Dict A}
      → R a b
      → Extends R New d e
      → Extends R New ((k, a) ∷ d) ((k, b) ∷ e)

module _ {A : Type 0} (R : A → A → Type 0) (New : A → Type 0) (R_refl : (a : A) → R a a) where
  pub Extends-refl : (d : Dict A) → Extends R New d d
  Extends-refl [] = same_end
  Extends-refl ((k, a) ∷ d) = next (R_refl a) (Extends-refl d)

  pub Extends-insert :
      (k : String) (a b : A) (d : Dict A)
      → lookup k d ≡ some a
      → R a b
      → Extends R New d (insert k b d)
  Extends-insert k a b [] found r = cc
  Extends-insert k a b ((j, c) ∷ d) found r = elim (Bool-cases (j == k)) [
    | inl same ↦ rw same (let p : c ≡ a = ground arith in next (rw p r) (Extends-refl d))
    | inr other ↦ rw other (next (R_refl c) (Extends-insert k a b d (ground arith) r))
  ]

  pub Extends-create :
      (k : String) (a : A) (d : Dict A) → lookup k d ≡ none → New a → Extends R New d (insert k a d)
  Extends-create k a [] missing new = one_more new
  Extends-create k a ((j, c) ∷ d) missing new = elim (Bool-cases (j == k)) [
    | inl same ↦ absurd (ground arith)
    | inr other ↦ rw other (next (R_refl c) (Extends-create k a d (ground arith) new))
  ]

-- Two dictionaries with the same keys in the same order, and related values.
pub data Matched {A B : Type 0} (S : String → A → B → Type 0) : Dict A → Dict B → Type 0 where
  both_end : Matched S [] []
  both :
      {k : String} {a : A} {b : B} {d : Dict A} {e : Dict B}
      → S k a b
      → Matched S d e
      → Matched S ((k, a) ∷ d) ((k, b) ∷ e)

module _ {A B : Type 0} (S : String → A → B → Type 0) where
  pub Matched-insert :
      (k : String) (a : A) (b : B) {d : Dict A} {e : Dict B}
      → Matched S d e
      → S k a b
      → Matched S (insert k a d) (insert k b e)
  Matched-insert k a b both_end s = both s both_end
  Matched-insert k a b (both {k = j} t rest) s = elim (Bool-cases (j == k)) [
    | inl same ↦ rw same (let p : j ≡ k = (eq_iff j k).0 same in both (rw p s) rest)
    | inr other ↦ rw other (both t (Matched-insert k a b rest s))
  ]

  -- A key is in both or in neither.
  pub Matched-lookup-none :
      (k : String) {d : Dict A} {e : Dict B} → Matched S d e → lookup k e ≡ none → lookup k d ≡ none
  Matched-lookup-none k both_end missing = refl
  Matched-lookup-none k (both {k = j} t rest) missing = elim (Bool-cases (j == k)) [
    | inl same ↦ absurd (ground arith)
    | inr other ↦ rw other (Matched-lookup-none k rest (ground arith))
  ]

  pub Matched-lookup :
      (k : String) (a : A) {d : Dict A} {e : Dict B}
      → Matched S d e
      → lookup k d ≡ some a
      → (b : B) × (lookup k e ≡ some b) × S k a b
  Matched-lookup k a both_end found = absurd (cc)
  Matched-lookup k a (both {k = j} {a = c} {b = b} t rest) found = elim (Bool-cases (j == k)) [
    | inl same ↦
        let p : a ≡ c = ground arith in
        let q : j ≡ k = (eq_iff j k).0 same in (b, ground arith, rw (p, ← q) t)
    | inr other ↦
        let (b', found', s) = Matched-lookup k a rest (ground arith) in (b', ground arith, s)
  ]

  -- An update of one side alone, which still fits the other.
  pub Matched-keep :
      (k : String) (a : A) (b : B) {d : Dict A} {e : Dict B}
      → Matched S d e
      → lookup k e ≡ some b
      → S k a b
      → Matched S (insert k a d) e
  Matched-keep k a b both_end found s = absurd (cc)
  Matched-keep k a b (both {k = j} {b = c} t rest) found s = elim (Bool-cases (j == k)) [
    | inl same ↦ rw same (
        let q : j ≡ k = (eq_iff j k).0 same in
        let p : c ≡ b = ground arith in both (rw (p, q) s) rest)
    | inr other ↦ rw other (both t (Matched-keep k a b rest (ground arith) s))
  ]
