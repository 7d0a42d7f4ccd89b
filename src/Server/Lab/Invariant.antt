-- ===== src/Server/Lab/Invariant.antt =====
-- What every lab that starts empty keeps.
use Prim.Native.String.{String}
use mathlib.Core.Path.{subst}
use text.Mathlib.Text.{◌==◌}
use text.Mathlib.TextEquality.{eq_iff}
use text.Mathlib.TextPositions.{eq_refl}
use snake_lab.Base.{
  ℕ, ◌+◌, ◌≡◌, sym, ap, ◌∙◌, true, false, Option, none, some, List, [], ◌∷◌, ◌++◌, All, arith, inl,
  inr, Bool-cases, if◌then◌else◌,
}
use snake_lab.Base.Dicts.{text_eq, ==_sym}
use snake_lab.Base.Members.{mem, Distinct, mem-append}
use snake_lab.Server.Run.{RunState}
use snake_lab.Server.Lab.{Lab, Puts}
use snake_lab.Server.Lab.States.{IsWaiting, IsBusy, ends_of}

abbrev pub count : String → List String → ℕ
count k [] = 0
count k (j ∷ js) = (if j == k then 1 else 0) + count k js

count-append : (k : String) (xs ys : List String) → count k (xs ++ ys) ≡ count k xs + count k ys
count-append k [] ys = omega arith
count-append k (x ∷ xs) ys = omega (arith, count-append k xs ys)

-- What a lab keeps about one run, in a given state or unknown.
pub record Keeps (a : Lab) (k : String) (o : Option RunState) : Type 0 where
  pub waiting : mem k a.queue ≡ true → IsWaiting o
  pub queued : o ≡ some RunState.queued → mem k a.queue ≡ true
  pub alone : IsBusy o → a.worker ≡ some k
  pub working : a.worker ≡ some k → IsBusy o
  pub told : count k a.ended ≡ ends_of o

-- The queue holds each of its runs once, and they wait or were cancelled there; all the queued runs are
-- in it; the worker's run is the one that is active; and the end of a run has been told once if it has
-- ended, and never otherwise.
pub record IsLab (a : Lab) : Type 0 where
  pub distinct : Distinct a.queue
  pub each : (k : String) → Keeps a k (a.states k)

pub empty-IsLab :
    (a : Lab)
    → ((k : String) → a.states k ≡ none)
    → a.queue ≡ []
    → a.worker ≡ none
    → a.ended ≡ []
    → IsLab a
empty-IsLab a states queue worker ended = record {
  distinct = rw queue tt;
  each = λ k. record {
    waiting = λ m. absurd (cc (m, ap (mem k) queue));
    queued = λ h. absurd (cc (h, states k));
    alone = λ h. absurd (subst IsBusy (states k) h);
    working = λ h. absurd (cc (h, worker));
    told = ground (arith, states k, ap (count k) ended);
  };
}

-- A step that changes the state of one run.
pub at_put :
    (k : String) (t : RunState) (f g : String → Option RunState)
    (P : String → Option RunState → Type 0)
    → Puts k t f g
    → P k (some t)
    → ((j : String) → (k == j) ≡ false → P j (f j))
    → (j : String) → P j (g j)
at_put k t f g P puts here there j = elim (Bool-cases (k == j)) [
  | inl same ↦
      subst (P j) (sym (puts j ∙ ap (λ b. if b then some t else f j) same))
        (subst (λ i. P i (some t)) ((eq_iff k j).0 same) here)
  | inr other ↦
      subst (P j) (sym (puts j ∙ ap (λ b. if b then some t else f j) other)) (there j other)
]

-- A lab with the same queue, worker and ended runs keeps as much.
pub Keeps-same :
    (a b : Lab) (j : String) (o : Option RunState)
    → b.queue ≡ a.queue
    → b.worker ≡ a.worker
    → b.ended ≡ a.ended
    → Keeps a j o
    → Keeps b j o
Keeps-same a b j o queue worker ended h = record {
  waiting = λ m. h.waiting (ap (mem j) (sym queue) ∙ m);
  queued = λ e. ap (mem j) queue ∙ h.queued e;
  alone = λ e. worker ∙ h.alone e;
  working = λ e. h.working (sym worker ∙ e);
  told = ap (count j) ended ∙ h.told;
}

-- A told end is counted for its run alone.
pub count-told :
    (k : String) (xs ys : List String) → ys ≡ xs ++ k ∷ [] → count k ys ≡ count k xs + 1
count-told k xs ys e = ground (arith, ap (count k) e, count-append k xs (k ∷ []), eq_refl k)

pub count-other :
    (k j : String) (xs ys : List String)
    → ys ≡ xs ++ k ∷ []
    → (k == j) ≡ false
    → count j ys ≡ count j xs
count-other k j xs ys e other = ground (arith, ap (count j) e, count-append j xs (k ∷ []))

-- A run in a state that does not wait is not in the queue.
pub absent :
    (a : Lab) (k : String) (o : Option RunState)
    → Keeps a k o
    → (IsWaiting o → ⊥)
    → mem k a.queue ≡ false
absent a k o h idle = elim (Bool-cases (mem k a.queue)) [
  | inl m ↦ absurd (idle (h.waiting m))
  | inr n ↦ n
]

pub unequal :
    (k : String) (xs : List String) → mem k xs ≡ false → All (λ x. mem x (k ∷ []) ≡ false) xs
unequal k [] n = tt
unequal k (x ∷ xs) n = (ground (arith, ==_sym k x), unequal k xs (ground arith))

pub mem-last :
    (j k : String) (xs : List String) → (k == j) ≡ false → mem j (xs ++ k ∷ []) ≡ mem j xs
mem-last j k xs other = ground (arith, mem-append j xs (k ∷ []), ==_sym k j other)

pub mem-last_self : (k : String) (xs : List String) → mem k (xs ++ k ∷ []) ≡ true
mem-last_self k xs = ground (arith, mem-append k xs (k ∷ []), eq_refl k)

pub mem-tail : (j k : String) (xs : List String) → (k == j) ≡ false → mem j (k ∷ xs) ≡ mem j xs
mem-tail j k xs other = ground (arith, ==_sym k j other)

pub some_differs :
    (k j : String) (o : Option String) → (k == j) ≡ false → o ≡ some k → o ≡ some j → ⊥
some_differs k j o other p q =
    let r : some k ≡ some j = sym p ∙ q in
    let e : k ≡ j = ground arith in cc (other, (eq_iff k j).1 e)
