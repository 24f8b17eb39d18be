-- ===== src/Intelligence/Tests.antt =====
-- The theorems on AI notes at a queue of two, and a database that keeps one note.
use torvix.Prelude.{String, ◌≡◌, refl, true, Option, none, some, [], ◌∷◌}
use torvix.Prelude.Int.{ℤ, pos}
use torvix.Prelude.Whole.{whole_floats}
use torvix.Prelude.Result.{ok}
use torvix.Intelligence.Queue.{submit_waste_findings, submit_anomalies, Config, Task, submit}
use torvix.Intelligence.Order.{
  History, opened, submitted, Reach, here, next, IsOrdered, Reach-IsOrdered,
}
use torvix.Intelligence.Limits.{Added, submit_anomalies-Added}
use torvix.Intelligence.Process.{Enrichment, Generated, Outside, process}
use torvix.Intelligence.Once.{IsStore, IsUp, process_again}

abbrev task : Task String
task = record { entity_type = "anomaly"; entity_id = pos 7; kind = "cost_anomaly"; input = "oci" }

abbrev one_task : History String
one_task = record {
  queue = submit task (opened {I = String} 2).queue;
  accepted = task ∷ [];
  processed = [];
}

first_task : Reach (opened 2) one_task
first_task = next here (submitted (opened 2) task)

Reach-IsOrdered_example : IsOrdered 2 one_task
Reach-IsOrdered_example = Reach-IsOrdered 2 first_task

abbrev config : Config
config = record {
  enabled = true;
  provider = "openai";
  model = "small";
  timeout = pos 1;
  max_items_per_run = pos 10;
  queue_size = pos 2;
}

abbrev answer : Generated ℤ
answer = record {
  summary = "more instances";
  likely_cause = "";
  business_impact = "";
  recommended_actions = [];
  priority = "low";
  confidence = pos 1;
}

-- The world is the note that was stored last, for the one task of these tests.
abbrev World : Type 0
World = Option (Enrichment ℤ)

abbrev outside : Outside ℤ String World
outside = record {
  clock = λ w. 5;
  hash_input = λ s. ok s;
  get_ai_enrichment = λ entity id w. ok w;
  get_ai_enrichment_by_input = λ entity hash provider model w. ok none;
  upsert_ai_enrichment = λ e w. (none, some e);
  generate = λ kind input w. (ok answer, w);
}

outside-IsStore : IsStore outside
outside-IsStore = record {
  read_back = λ e w h. refl;
  by_input = λ entity hash provider model w e h. cc;
}

outside-IsUp : IsUp outside config outside-IsStore task
outside-IsUp = record { saves = λ e w. refl; answers = λ w. (answer, refl) }

process_again_example :
    process outside config task (process outside config task none)
    ≡ process outside config task none
process_again_example = process_again outside config outside-IsStore task outside-IsUp none

submit_anomalies-Added_example :
    Added 10 one_task.queue
      (submit_anomalies config ((pos 8, "a") ∷ (pos 0, "b") ∷ []) one_task.queue)
    × Added 10 one_task.queue
        (submit_waste_findings config ((pos 8, "a") ∷ (pos 0, "b") ∷ []) one_task.queue)
submit_anomalies-Added_example =
    submit_anomalies-Added config 10 ((pos 8, "a") ∷ (pos 0, "b") ∷ []) one_task.queue refl
