-- ===== src/Intelligence/Order.antt =====
-- The queue over its whole life: tasks are processed in the order in which they were taken in.
use torvix.Prelude.{
  ltb, if◌then◌else◌, Bool-cases, length, length-append, ℕ, ◌≤◌, ◌<◌, ◌≡◌, refl, sym, ap, ◌∙◌, inl,
  inr, Bool, true, false, not, ◌&&◌, List, [], ◌∷◌, arith,
}
use mathlib.Core.List.{◌++◌, append_assoc}
use torvix.Intelligence.Queue.{Task, Queue, submit, close}

-- A queue, with the tasks that were taken in and those that were processed, first ones first.
pub record History (I : Type 0) : Type 0 where
  pub queue : Queue I
  pub accepted : List (Task I)
  pub processed : List (Task I)

module _ {I : Type 0} where
  abbrev pub opened : ℕ → History I
  opened capacity = record {
    queue = record { tasks = []; capacity = capacity; closed = false };
    accepted = [];
    processed = [];
  }

  -- Whether submit takes a task in.
  abbrev pub takes : Queue I → Bool
  takes q = not q.closed && ltb (length q.tasks) q.capacity

  -- Any goroutine may submit, the worker takes the first task, and Close may be called.
  pub data Step : History I → History I → Type 0 where
    submitted :
        (h : History I) (t : Task I)
        → Step h (record h {
          queue = submit t h.queue;
          accepted = if takes h.queue then h.accepted ++ t ∷ [] else h.accepted;
        })
    worked :
        (h : History I) (t : Task I) (rest : List (Task I))
        → h.queue.tasks ≡ t ∷ rest
        → Step h (record h {
          queue = record h.queue { tasks = rest };
          processed = h.processed ++ t ∷ [];
        })
    closed : (h : History I) → Step h (record h { queue = close h.queue })

  pub data Reach (s : History I) : History I → Type 0 where
    here : Reach s s
    next : {t u : History I} → Reach s t → Step t u → Reach s u

  pub record IsOrdered (capacity : ℕ) (h : History I) : Type 0 where
    pub in_order : h.accepted ≡ h.processed ++ h.queue.tasks
    pub bounded : length h.queue.tasks ≤ h.queue.capacity
    pub fixed : h.queue.capacity ≡ capacity

  pub submit-takes :
      (t : Task I) (q : Queue I)
      → takes q ≡ true
      → submit t q ≡ record q { tasks = q.tasks ++ t ∷ [] }
  unfolding submit
  submit-takes t q h = ground arith

  pub submit-drops : (t : Task I) (q : Queue I) → takes q ≡ false → submit t q ≡ q
  unfolding submit
  submit-drops t q h = ground arith

  room : (q : Queue I) → takes q ≡ true → length q.tasks < q.capacity
  room q h = ground arith

  Step-IsOrdered :
      (capacity : ℕ) {h k : History I} → Step h k → IsOrdered capacity h → IsOrdered capacity k
  unfolding close
  Step-IsOrdered capacity (submitted h t) v = elim (Bool-cases (takes h.queue)) [
    | inl e ↦
        rw (e, submit-takes t h.queue e)
          (record {
            in_order =
                ap (λ l. l ++ t ∷ []) v.in_order ∙ append_assoc h.processed h.queue.tasks (t ∷ []);
            bounded = omega (arith, length-append h.queue.tasks (t ∷ []), room h.queue e);
            fixed = v.fixed;
          })
    | inr e ↦ rw (e, submit-drops t h.queue e) v
  ]
  Step-IsOrdered capacity (worked h t rest e) v = record {
    in_order =
        v.in_order ∙ ap (λ l. h.processed ++ l) e ∙ sym (append_assoc h.processed (t ∷ []) rest);
    bounded = ground (arith, v.bounded, ap (λ (l : List (Task I)). length l) e);
    fixed = v.fixed;
  }
  Step-IsOrdered capacity (closed h) v = record {
    in_order = v.in_order;
    bounded = v.bounded;
    fixed = v.fixed;
  }

  -- In every state that submits, the worker and Close reach, in any order: the tasks that were taken
  -- in are those processed, followed by those in the queue, in the order in which they came; and
  -- there are never more in the queue than its capacity.
  pub Reach-IsOrdered :
      (capacity : ℕ) {h : History I} → Reach (opened capacity) h → IsOrdered capacity h
  Reach-IsOrdered capacity here = record { in_order = refl; bounded = omega arith; fixed = refl }
  Reach-IsOrdered capacity (next r st) = Step-IsOrdered capacity st (Reach-IsOrdered capacity r)
