-- ===== src/Server/Lab/Preservation.antt =====
-- Every step of a lab keeps the invariant.
use Prim.Native.String.{String}
use mathlib.Core.Path.{subst}
use text.Mathlib.Text.{◌==◌}
use text.Mathlib.TextEquality.{eq_iff}
use snake_lab.Base.{
  ◌≡◌, refl, sym, ap, ◌∙◌, true, none, some, [], ◌∷◌, ◌++◌, arith, inl, inr, Bool-cases,
}
use snake_lab.Base.Dicts.{text_eq}
use snake_lab.Base.Members.{mem, Distinct, Distinct-append}
use snake_lab.Server.Run.{RunState}
use snake_lab.Server.Lab.{
  Lab, IsActive, IsTerminal, Puts, Same, Step, Steps, rests, admits, steers, drops, skips, takes,
  finishes, done, more,
}
use snake_lab.Server.Lab.States.{
  busy_waits, active_ends, active_queued, terminal_ends, terminal_queued, terminal_busy,
}
use snake_lab.Server.Lab.Invariant.{
  IsLab, Keeps, count, at_put, Keeps-same, count-told, count-other, absent, unequal, mem-last,
  mem-last_self, mem-tail, some_differs,
}

module _ (a b : Lab) (h : IsLab a) where
  rests-IsLab :
      Same a.states b.states → b.queue ≡ a.queue → b.worker ≡ a.worker → b.ended ≡ a.ended → IsLab b
  rests-IsLab same queue worker ended = record {
    distinct = subst Distinct (sym queue) h.distinct;
    each = λ j.
        subst (Keeps b j) (sym (same j))
          (Keeps-same a b j (a.states j) queue worker ended (h.each j));
  }

  admits-IsLab :
      (k : String)
      → a.states k ≡ none
      → Puts k RunState.queued a.states b.states
      → b.queue ≡ a.queue ++ k ∷ []
      → b.worker ≡ a.worker
      → b.ended ≡ a.ended
      → IsLab b
  admits-IsLab k new puts queue worker ended =
      let at : Keeps a k none = subst (Keeps a k) new (h.each k) in
      record {
        distinct = subst Distinct (sym queue) (
            Distinct-append a.queue (k ∷ []) h.distinct (refl, tt)
              (unequal k a.queue (absent a k none at (λ w. w))));
        each =
            at_put k RunState.queued a.states b.states (Keeps b) puts
              (record {
                waiting = λ m. tt;
                queued = λ e. ap (mem k) queue ∙ mem-last_self k a.queue;
                alone = λ e. absurd e;
                working = λ e. at.working (sym worker ∙ e);
                told = ap (count k) ended ∙ at.told;
              })
              (λ j other.
                let k_at : Keeps a j (a.states j) = h.each j in
                let q : mem j b.queue ≡ mem j a.queue =
                  ap (mem j) queue ∙ mem-last j k a.queue other in
                record {
                  waiting = λ m. k_at.waiting (sym q ∙ m);
                  queued = λ e. q ∙ k_at.queued e;
                  alone = λ e. worker ∙ k_at.alone e;
                  working = λ e. k_at.working (sym worker ∙ e);
                  told = ap (count j) ended ∙ k_at.told;
                });
      }

  steers-IsLab :
      (k : String) (s t : RunState)
      → a.states k ≡ some s
      → IsActive s
      → IsActive t
      → Puts k t a.states b.states
      → b.queue ≡ a.queue
      → b.worker ≡ a.worker
      → b.ended ≡ a.ended
      → IsLab b
  steers-IsLab k s t at_s active_s active_t puts queue worker ended =
      let at : Keeps a k (some s) = subst (Keeps a k) at_s (h.each k) in
      record {
        distinct = subst Distinct (sym queue) h.distinct;
        each =
            at_put k t a.states b.states (Keeps b) puts
              (record {
                waiting = λ m.
                    absurd (busy_waits (some s) active_s (at.waiting (ap (mem k) (sym queue) ∙ m)));
                queued = λ e. absurd (active_queued t active_t e);
                alone = λ e. worker ∙ at.alone active_s;
                working = λ e. active_t;
                told =
                    ap (count k) ended
                    ∙ at.told
                    ∙ active_ends s active_s
                    ∙ sym (active_ends t active_t);
              })
              (λ j other. Keeps-same a b j (a.states j) queue worker ended (h.each j));
      }

  drops-IsLab :
      (k : String)
      → a.states k ≡ some RunState.queued
      → Puts k RunState.cancelled a.states b.states
      → b.queue ≡ a.queue
      → b.worker ≡ a.worker
      → b.ended ≡ a.ended ++ k ∷ []
      → IsLab b
  drops-IsLab k at_s puts queue worker ended =
      let at : Keeps a k (some RunState.queued) = subst (Keeps a k) at_s (h.each k) in
      record {
        distinct = subst Distinct (sym queue) h.distinct;
        each =
            at_put k RunState.cancelled a.states b.states (Keeps b) puts
              (record {
                waiting = λ m. tt;
                queued = λ e. absurd (terminal_queued RunState.cancelled tt e);
                alone = λ e. absurd e;
                working = λ e. at.working (sym worker ∙ e);
                told = omega (arith, count-told k a.ended b.ended ended, at.told);
              })
              (λ j other.
                let k_at : Keeps a j (a.states j) = h.each j in
                record {
                  waiting = λ m. k_at.waiting (ap (mem j) (sym queue) ∙ m);
                  queued = λ e. ap (mem j) queue ∙ k_at.queued e;
                  alone = λ e. worker ∙ k_at.alone e;
                  working = λ e. k_at.working (sym worker ∙ e);
                  told = count-other k j a.ended b.ended ended other ∙ k_at.told;
                });
      }

  queued_behind :
      (k j : String)
      → a.states k ≡ some RunState.cancelled
      → a.queue ≡ k ∷ b.queue
      → a.states j ≡ some RunState.queued
      → mem j a.queue ≡ true
      → mem j b.queue ≡ true
  queued_behind k j at_k queue at_j m = elim (Bool-cases (k == j)) [
    | inl same ↦
        let p : k ≡ j = (eq_iff k j).0 same in
        absurd (terminal_queued RunState.cancelled tt (sym at_k ∙ ap a.states p ∙ at_j))
    | inr other ↦ sym (ap (mem j) queue ∙ mem-tail j k b.queue other) ∙ m
  ]

  skips-IsLab :
      (k : String)
      → a.states k ≡ some RunState.cancelled
      → Same a.states b.states
      → a.queue ≡ k ∷ b.queue
      → b.worker ≡ a.worker
      → b.ended ≡ a.ended
      → IsLab b
  skips-IsLab k at_s same queue worker ended =
      let distinct : Distinct (k ∷ b.queue) = subst Distinct queue h.distinct in
      record {
        distinct = distinct.1;
        each = λ j.
            let k_at : Keeps a j (a.states j) = h.each j in
            subst (Keeps b j) (sym (same j)) (record {
              waiting = λ m. k_at.waiting (ap (mem j) queue ∙ ground (arith, m));
              queued = λ e. queued_behind k j at_s queue e (k_at.queued e);
              alone = λ e. worker ∙ k_at.alone e;
              working = λ e. k_at.working (sym worker ∙ e);
              told = ap (count j) ended ∙ k_at.told;
            });
      }

  takes-IsLab :
      (k : String)
      → a.states k ≡ some RunState.queued
      → Puts k RunState.running a.states b.states
      → a.queue ≡ k ∷ b.queue
      → a.worker ≡ none
      → b.worker ≡ some k
      → b.ended ≡ a.ended
      → IsLab b
  takes-IsLab k at_s puts queue free worker ended =
      let distinct : Distinct (k ∷ b.queue) = subst Distinct queue h.distinct in
      let at : Keeps a k (some RunState.queued) = subst (Keeps a k) at_s (h.each k) in
      record {
        distinct = distinct.1;
        each =
            at_put k RunState.running a.states b.states (Keeps b) puts
              (record {
                waiting = λ m. absurd (cc (m, distinct.0));
                queued = λ e. absurd (active_queued RunState.running tt e);
                alone = λ e. worker;
                working = λ e. tt;
                told = ap (count k) ended ∙ at.told;
              })
              (λ j other.
                let k_at : Keeps a j (a.states j) = h.each j in
                let q : mem j a.queue ≡ mem j b.queue =
                  ap (mem j) queue ∙ mem-tail j k b.queue other in
                record {
                  waiting = λ m. k_at.waiting (q ∙ m);
                  queued = λ e. sym q ∙ k_at.queued e;
                  alone = λ e. absurd (cc (k_at.alone e, free));
                  working = λ e. absurd (some_differs k j b.worker other worker e);
                  told = ap (count j) ended ∙ k_at.told;
                });
      }

  finishes-IsLab :
      (k : String) (s t : RunState)
      → a.states k ≡ some s
      → IsActive s
      → IsTerminal t
      → Puts k t a.states b.states
      → b.queue ≡ a.queue
      → a.worker ≡ some k
      → b.worker ≡ none
      → b.ended ≡ a.ended ++ k ∷ []
      → IsLab b
  finishes-IsLab k s t at_s active terminal puts queue held worker ended =
      let at : Keeps a k (some s) = subst (Keeps a k) at_s (h.each k) in
      record {
        distinct = subst Distinct (sym queue) h.distinct;
        each =
            at_put k t a.states b.states (Keeps b) puts
              (record {
                waiting = λ m.
                    absurd (busy_waits (some s) active (at.waiting (ap (mem k) (sym queue) ∙ m)));
                queued = λ e. absurd (terminal_queued t terminal e);
                alone = λ e. absurd (terminal_busy t terminal e);
                working = λ e. absurd (cc (e, worker));
                told = omega (
                  arith,
                  count-told k a.ended b.ended ended,
                  at.told,
                  active_ends s active,
                  terminal_ends t terminal,
                );
              })
              (λ j other.
                let k_at : Keeps a j (a.states j) = h.each j in
                record {
                  waiting = λ m. k_at.waiting (ap (mem j) (sym queue) ∙ m);
                  queued = λ e. ap (mem j) queue ∙ k_at.queued e;
                  alone = λ e. absurd (some_differs k j a.worker other held (k_at.alone e));
                  working = λ e. absurd (cc (e, worker));
                  told = count-other k j a.ended b.ended ended other ∙ k_at.told;
                });
      }

-- Every step of a lab, whatever it is, keeps the invariant.
pub Step-IsLab : {a b : Lab} → Step a b → IsLab a → IsLab b
Step-IsLab {a} {b} (rests e1 e2 e3 e4) h = rests-IsLab a b h e1 e2 e3 e4
Step-IsLab {a} {b} (admits k e1 e2 e3 e4 e5) h = admits-IsLab a b h k e1 e2 e3 e4 e5
Step-IsLab {a} {b} (steers k s t e1 e2 e3 e4 e5 e6 e7) h =
    steers-IsLab a b h k s t e1 e2 e3 e4 e5 e6 e7
Step-IsLab {a} {b} (drops k e1 e2 e3 e4 e5) h = drops-IsLab a b h k e1 e2 e3 e4 e5
Step-IsLab {a} {b} (skips k e1 e2 e3 e4 e5) h = skips-IsLab a b h k e1 e2 e3 e4 e5
Step-IsLab {a} {b} (takes k e1 e2 e3 e4 e5 e6) h = takes-IsLab a b h k e1 e2 e3 e4 e5 e6
Step-IsLab {a} {b} (finishes k s t e1 e2 e3 e4 e5 e6 e7 e8) h =
    finishes-IsLab a b h k s t e1 e2 e3 e4 e5 e6 e7 e8

pub Steps-IsLab : {a b : Lab} → Steps a b → IsLab a → IsLab b
Steps-IsLab done h = h
Steps-IsLab (more step rest) h = Steps-IsLab rest (Step-IsLab step h)
