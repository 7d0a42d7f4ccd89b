-- ===== src/Base/Members.antt =====
-- Membership by a Boolean test of equality, as Python's `in` on a list or a set.
use snake_lab.Base.Tests.{◌==◌, ==_iff, if◌then◌else◌, Bool-cases}
use snake_lab.Base.Lists.{length, All, drop_last}
use Prim.Native.Nat.{ℕ, suc, ◌≤◌}
use mathlib.Core.Path.{◌≡◌, refl, ap}
use mathlib.Core.Logic.{◌↔◌, inl, inr}
use mathlib.Core.Bool.{Bool, true, false, ◌||◌}
use mathlib.Core.List.{List, [], ◌∷◌, ◌++◌}
use native.Mathlib.Omega.{arith}

pub record Eq {ℓ} (A : Type ℓ) : Type ℓ where
  pub beq : A → A → Bool
  pub beq_iff : (a b : A) → (beq a b ≡ true) ↔ (a ≡ b)

instance abbrev pub nat_eq : Eq ℕ
nat_eq = record { beq = ◌==◌; beq_iff = ==_iff }

module _ {ℓ} {A : Type ℓ} ⦃e : Eq A⦄ where
  abbrev pub mem : A → List A → Bool
  mem a [] = false
  mem a (x ∷ xs) = e.beq a x || mem a xs

  abbrev pub Distinct : List A → Type 0
  Distinct [] = Unit
  Distinct (x ∷ xs) = (mem x xs ≡ false) × Distinct xs

  pub beq_self : (a : A) → e.beq a a ≡ true
  beq_self a = (e.beq_iff a a).1 refl

  pub mem-append : (a : A) (xs ys : List A) → mem a (xs ++ ys) ≡ (mem a xs || mem a ys)
  mem-append a [] ys = refl
  mem-append a (x ∷ xs) ys = ground (arith, mem-append a xs ys)

  pub All-mem {κ} : (P : A → Type κ) (a : A) (xs : List A) → All P xs → mem a xs ≡ true → P a
  All-mem P a [] h m = cc
  All-mem P a (x ∷ xs) h m = elim (Bool-cases (e.beq a x)) [
    | inl same ↦ rw ((e.beq_iff a x).0 same) h.0
    | inr other ↦ All-mem P a xs h.1 (ground (arith))
  ]

  pub mem-drop_last : (a : A) (xs : List A) → mem a xs ≡ false → mem a (drop_last xs) ≡ false
  mem-drop_last a [] h = refl
  mem-drop_last a (x ∷ []) h = refl
  mem-drop_last a (x ∷ y ∷ xs) h = ground (arith, mem-drop_last a (y ∷ xs))

  pub Distinct-drop_last : (xs : List A) → Distinct xs → Distinct (drop_last xs)
  Distinct-drop_last [] h = tt
  Distinct-drop_last (x ∷ []) h = tt
  Distinct-drop_last (x ∷ y ∷ xs) h =
      (mem-drop_last x (y ∷ xs) h.0, Distinct-drop_last (y ∷ xs) h.1)

  -- xs without the first item equal to a.
  abbrev without : A → List A → List A
  without a [] = []
  without a (x ∷ xs) = if e.beq a x then xs else x ∷ without a xs

  length-without : (a : A) (xs : List A) → mem a xs ≡ true → suc (length (without a xs)) ≡ length xs
  length-without a [] m = cc
  length-without a (x ∷ xs) m = ground (arith, length-without a xs)

  mem-without :
      (a b : A) (xs : List A) → e.beq b a ≡ false → mem b xs ≡ true → mem b (without a xs) ≡ true
  mem-without a b [] n m = cc
  mem-without a b (x ∷ xs) n m = elim (Bool-cases (e.beq a x)) [
    | inl same ↦ rw same (let p : a ≡ x = (e.beq_iff a x).0 same in ground (arith, ap (e.beq b) p))
    | inr other ↦ rw other (ground (arith, mem-without a b xs n))
  ]

  beq-ne_of_mem : (a b : A) (xs : List A) → mem a xs ≡ false → mem b xs ≡ true → e.beq b a ≡ false
  beq-ne_of_mem a b xs h m = elim (Bool-cases (e.beq b a)) [
    | inl same ↦ let p : b ≡ a = (e.beq_iff b a).0 same in cc (ap (λ c. mem c xs) p)
    | inr other ↦ other
  ]

  All-without :
      (a : A) (zs xs ys : List A)
      → mem a zs ≡ false
      → All (λ b. mem b zs ≡ true) xs
      → All (λ b. mem b ys ≡ true) xs
      → All (λ b. mem b (without a ys) ≡ true) xs
  All-without a zs [] ys n hz h = tt
  All-without a zs (x ∷ xs) ys n hz h =
      (mem-without a x ys (beq-ne_of_mem a x zs n hz.0) h.0, All-without a zs xs ys n hz.1 h.1)

  All-mem-cons :
      (a : A) (zs xs : List A) → All (λ b. mem b zs ≡ true) xs → All (λ b. mem b (a ∷ zs) ≡ true) xs
  All-mem-cons a zs [] h = tt
  All-mem-cons a zs (x ∷ xs) h = (ground (arith), All-mem-cons a zs xs h.1)

  pub All-mem_self : (xs : List A) → All (λ b. mem b xs ≡ true) xs
  All-mem_self [] = tt
  All-mem_self (x ∷ xs) = (ground (arith, beq_self x), All-mem-cons x xs xs (All-mem_self xs))

  -- A list without repetitions whose items all lie in another list is no longer than it.
  pub Distinct-length-le :
      (xs ys : List A) → Distinct xs → All (λ b. mem b ys ≡ true) xs → length xs ≤ length ys
  Distinct-length-le [] ys d h = omega arith
  Distinct-length-le (x ∷ xs) ys d h = omega (
    arith,
    length-without x ys h.0,
    Distinct-length-le xs (without x ys) d.1 (All-without x xs xs ys d.0 (All-mem_self xs) h.1),
  )

  pub Distinct-append :
      (xs ys : List A)
      → Distinct xs
      → Distinct ys
      → All (λ x. mem x ys ≡ false) xs
      → Distinct (xs ++ ys)
  Distinct-append [] ys dx dy h = dy
  Distinct-append (x ∷ xs) ys dx dy h =
      (rw (mem-append x xs ys) (ground (arith, dx.0, h.0)), Distinct-append xs ys dx.1 dy h.1)
