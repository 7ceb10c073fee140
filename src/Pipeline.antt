-- ===== src/Pipeline.antt =====
-- pipeline/silver.py: the cleaning of raw tasks in `process_todoist`. A raw task has the keys that
-- are there; a value is the text, number or list that the code makes of it, and a label that is no
-- text is `none`. The scan for personal data is a parameter.
pub mod Silver
pub mod Bronze
pub mod Run
mod Tests
use vela_flow_public.Prelude.{
  ℕ, suc, ◌*◌, String, Bool, true, false, not, ◌&&◌, ◌||◌, Option, none, some, List, [], ◌∷◌, ◌++◌,
  map, take, str_eq, if◌then◌else◌,
}
use vela_flow_public.Prelude.Keys.{has}
use vela_flow_public.Dict.{Dict, lookup}

-- the `due` object of a raw task: its date and its time as they are parsed, `none` where there is
-- none or it cannot be parsed, and whether a time is given at all
pub record RawDue : Type 0 where
  pub date : Option ℕ
  pub datetime : Option ℕ
  pub has_datetime : Bool
  pub is_recurring : Bool

-- the `duration` of a raw task: an object with an amount and a unit, or a plain number
pub data RawDuration : Type 0 where
  amount_of : Option ℕ → String → RawDuration
  minutes : ℕ → RawDuration
  unreadable : RawDuration

pub record RawTask : Type 0 where
  pub id : Option String
  pub content : Option (List ℕ)
  pub description : List ℕ
  pub project_id : String
  pub section_id : String
  pub priority : Option ℕ
  pub labels : Option (List (Option (List ℕ)))
  pub due : Option RawDue
  pub duration : Option RawDuration
  pub url : String
  pub parent_id : Option String

pub record CleanTask : Type 0 where
  pub id : String
  pub content : List ℕ
  pub description : List ℕ
  pub project_id : String
  pub project_name : String
  pub section_id : String
  pub section_name : String
  pub priority : ℕ
  pub labels : List (List ℕ)
  pub due_date : Option ℕ
  pub due_datetime : Option ℕ
  pub due_has_time : Bool
  pub duration_minutes : Option ℕ
  pub url : String
  pub is_recurring : Bool
  pub parent_id : Option String

-- a raw task that has the required keys, with their values
pub record ValidTask : Type 0 where
  pub id : String
  pub content : List ℕ
  pub raw : RawTask

-- the loop of steps 1 and 2, with the ids seen; the count of dropped tasks comes second
unfoldable pub validate : List String → List RawTask → List ValidTask × ℕ
validate seen [] = ([], 0)
validate seen (raw ∷ rest) = elim raw.id [
  | none ↦ let (kept, dropped) = validate seen rest in (kept, suc dropped)
  | some id ↦ elim raw.content [
    | none ↦ let (kept, dropped) = validate seen rest in (kept, suc dropped)
    | some content ↦ elim (has id seen) [
      | true ↦ let (kept, dropped) = validate seen rest in (kept, suc dropped)
      | false ↦
          let (kept, dropped) = validate (seen ++ id ∷ []) rest in
          (record { id = id; content = content; raw = raw } ∷ kept, dropped)
    ]
  ]
]

-- `[str(l)[:100] for l in raw_labels[:20] if isinstance(l, str)]`
unfoldable pub texts : List (Option (List ℕ)) → List (List ℕ)
texts [] = []
texts (none ∷ ls) = texts ls
texts (some l ∷ ls) = take 100 l ∷ texts ls

unfoldable pub safe_labels : Option (List (Option (List ℕ))) → List (List ℕ)
unfolding texts
safe_labels none = []
safe_labels (some ls) = texts (take 20 ls)

unfoldable pub parse_duration : Option RawDuration → Option ℕ
parse_duration none = none
parse_duration (some (amount_of none unit)) = none
parse_duration (some (amount_of (some amount) unit)) =
    some (if str_eq unit "day" then amount * 1440 else amount)
parse_duration (some (minutes n)) = some n
parse_duration (some unreadable) = none

-- `names.get(key, "")`
abbrev name_of : Dict String → String → String
name_of names key = elim (lookup key names) [ none ↦ "" | some name ↦ name ]

-- `PIIDetector`: whether a text has personal data, and the text with it masked
pub record Detector : Type 0 where
  pub has_pii : List ℕ → Bool
  pub mask : List ℕ → List ℕ

abbrev pub masked : Detector → List ℕ → List ℕ
masked pii text = if pii.has_pii text then pii.mask text else text

module _ (pii : Detector) (projects sections : Dict String) where
  unfoldable pub normalize : ValidTask → CleanTask
  unfolding safe_labels parse_duration
  normalize v =
      let raw = v.raw in
      record {
        id = v.id;
        content = masked pii (take 2000 v.content);
        description = masked pii (take 5000 raw.description);
        project_id = raw.project_id;
        project_name = name_of projects raw.project_id;
        section_id = raw.section_id;
        section_name = name_of sections raw.section_id;
        priority = elim raw.priority [ none ↦ 1 | some p ↦ p ];
        labels = safe_labels raw.labels;
        due_date = elim raw.due [ none ↦ none | some due ↦ due.date ];
        due_datetime = elim raw.due [ none ↦ none | some due ↦ due.datetime ];
        due_has_time = elim raw.due [ none ↦ false | some due ↦ due.has_datetime ];
        duration_minutes = parse_duration raw.duration;
        url = raw.url;
        is_recurring = elim raw.due [ none ↦ false | some due ↦ due.is_recurring ];
        parent_id = elim raw.parent_id [
          | none ↦ none
          | some id ↦ if str_eq id "" then none else some id
        ];
      }

  unfoldable pub process_todoist : List RawTask → List CleanTask
  unfolding validate
  process_todoist raws = map normalize (validate [] raws).0
