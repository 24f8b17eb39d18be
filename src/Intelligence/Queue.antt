-- ===== src/Intelligence/Queue.antt =====
-- Tasks and their queue: SubmitAnomalies, SubmitWasteFindings, submit, and Close. `I` is the type of
-- a task's input, the JSON object that anomalyInput or wasteInput makes.
use torvix.Prelude.{ltb, if◌then◌else◌, length, ℕ, ◌+◌, ◌*◌, String, Bool, true, List, [], ◌∷◌}
use mathlib.Core.List.{◌++◌}
use torvix.Prelude.Int.{ℤ, pos, positive_or, leb_ℤ}
use torvix.Prelude.Clock.{second}

abbrev pub entity_anomaly : String
entity_anomaly = "anomaly"

abbrev pub entity_waste : String
entity_waste = "waste_finding"

pub record Config : Type 0 where
  pub enabled : Bool
  pub provider : String
  pub model : String
  pub timeout : ℤ
  pub max_items_per_run : ℤ
  pub queue_size : ℤ

-- The defaults that New fills in.
unfoldable pub with_defaults : Config → Config
with_defaults c = record c {
  timeout = positive_or c.timeout (pos (20 * second));
  max_items_per_run = positive_or c.max_items_per_run (pos 10);
  queue_size = positive_or c.queue_size (pos 100);
}

pub record Task (I : Type 0) : Type 0 where
  pub entity_type : String
  pub entity_id : ℤ
  pub kind : String
  pub input : I

-- The channel of a service: the tasks in it, how many it holds, and whether Close has closed it.
pub record Queue (I : Type 0) : Type 0 where
  pub tasks : List (Task I)
  pub capacity : ℕ
  pub closed : Bool

module _ {I : Type 0} where
  -- submit: a full queue drops the task, a closed one too.
  unfoldable pub submit : Task I → Queue I → Queue I
  submit task q =
      if q.closed
      then q
      else if ltb (length q.tasks) q.capacity
      then record q { tasks = q.tasks ++ task ∷ [] }
      else q

  -- The loop over the items, from the one at `i`; an item is its id and its input.
  unfoldable pub submit_from : ℕ → ℤ → String → String → List (ℤ × I) → Queue I → Queue I
  unfolding submit
  submit_from i limit entity kind [] q = q
  submit_from i limit entity kind ((id, input) ∷ items) q =
      let task : Task I = record {
        entity_type = entity;
        entity_id = id;
        kind = kind;
        input = input;
      } in
      let taken = if leb_ℤ id (pos 0) then q else submit task q in
      let rest = submit_from (i + 1) limit entity kind items taken in
      if leb_ℤ limit (pos i) then q else rest

  -- SubmitAnomalies and SubmitWasteFindings, of an enabled service
  unfoldable pub submit_anomalies : Config → List (ℤ × I) → Queue I → Queue I
  unfolding submit_from
  submit_anomalies c items q =
      if c.enabled
      then submit_from 0 c.max_items_per_run entity_anomaly "cost_anomaly" items q
      else q

  unfoldable pub submit_waste_findings : Config → List (ℤ × I) → Queue I → Queue I
  unfolding submit_from
  submit_waste_findings c items q =
      if c.enabled
      then submit_from 0 c.max_items_per_run entity_waste "waste_finding" items q
      else q

  -- What Close does to the queue. The tasks in it are still taken out.
  unfoldable pub close : Queue I → Queue I
  close q = record q { closed = true }
