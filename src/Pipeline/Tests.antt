-- ===== src/Pipeline/Tests.antt =====
-- The cleaning of raw tasks, and its theorems at concrete inputs.
use vela_flow_public.Prelude.{
  ◌+◌, ◌≡◌, refl, String, false, none, some, List, [], ◌∷◌, any, length, All,
}
use vela_flow_public.Prelude.Keys.{has, IsDistinct}
use vela_flow_public.Pipeline.{
  RawTask, amount_of, validate, parse_duration, Detector, normalize, process_todoist,
}
use vela_flow_public.Pipeline.Silver.{
  is_valid_as, clean_ids, HasShortLabels, process_todoist-clean, process_todoist-counts,
}

abbrev pii : Detector
pii = record { has_pii = λ text. false; mask = λ text. text }

abbrev raw : String → RawTask
raw id = record {
  id = some id;
  content = some (97 ∷ []);
  description = [];
  project_id = "";
  section_id = "";
  priority = none;
  labels = some (some (98 ∷ []) ∷ none ∷ []);
  due = none;
  duration = some (amount_of (some 2) "day");
  url = "";
  parent_id = some "";
}

-- a duplicate, and a task without a content
abbrev raws : List RawTask
raws = raw "1" ∷ raw "2" ∷ raw "1" ∷ record (raw "3") { content = none } ∷ []

ids-raws : clean_ids (process_todoist pii [] [] raws) ≡ "1" ∷ "2" ∷ []
unfolding process_todoist validate normalize
ids-raws = refl

duration-raw : parse_duration (raw "1").duration ≡ some 2880
unfolding parse_duration
duration-raw = refl

process_todoist-clean_example :
    IsDistinct (clean_ids (process_todoist pii [] [] raws))
    × (has "2" (clean_ids (process_todoist pii [] [] raws)) ≡ any (is_valid_as "2") raws)
    × All HasShortLabels (process_todoist pii [] [] raws)
process_todoist-clean_example = process_todoist-clean pii [] [] "2" raws

all_counted : length (process_todoist pii [] [] raws) + (validate [] raws).1 ≡ 4
all_counted = process_todoist-counts pii [] [] raws
