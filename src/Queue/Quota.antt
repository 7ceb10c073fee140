-- ===== src/Queue/Quota.antt =====
-- queue/worker.py: the daily quotas of `QueueWorker`, with the usage that is kept in memory and the
-- usage that is stored. The tenant's quota is given by its two daily limits.
use vela_flow_public.Prelude.{
  ℕ, suc, ◌+◌, ◌≤◌, ◌≡◌, ◌∙◌, ap, refl, String, Bool, true, false, Option, none, some, List, [],
  ◌∷◌, leb, str_eq, eq_refl, arith, ◌⊎◌, if◌then◌else◌, Bool-cases, inl, inr, eq_iff, All, ◌&&◌,
  subst, max,
}
use vela_flow_public.Dict.{Dict, lookup, insert, lookup-insert}

pub record Usage : Type 0 where
  pub pipeline_runs : ℕ
  pub llm_calls : ℕ
  pub date : String

pub record Limits : Type 0 where
  pub max_pipeline_runs_per_day : ℕ
  pub max_llm_calls_per_day : ℕ

-- `usage_type`; the code lets any other type pass
pub data UsageType : Type 0 where
  pipeline_run llm_call other_type : UsageType

pub record Usages : Type 0 where
  pub memory : Dict Usage
  pub stored : Dict Usage

-- the usage of a tenant, if it is that of today
abbrev of_today : String → Option Usage → Option Usage
of_today today none = none
of_today today (some u) = if str_eq u.date today then some u else none

-- the usage that the check goes by: from memory, from the storage, or none yet
unfoldable pub usage_today : String → String → Usages → Usage
usage_today today id s = elim (of_today today (lookup id s.memory)) [
  | some u ↦ u
  | none ↦ elim (of_today today (lookup id s.stored)) [
    | some u ↦ u
    | none ↦ record { pipeline_runs = 0; llm_calls = 0; date = today }
  ]
]

-- whether a use is within its limit, and the usage after it
unfoldable pub use_once : UsageType → Limits → Usage → Bool × Usage
use_once pipeline_run q u =
    if leb q.max_pipeline_runs_per_day u.pipeline_runs
    then (false, u)
    else (true, record u { pipeline_runs = u.pipeline_runs + 1 })
use_once llm_call q u =
    if leb q.max_llm_calls_per_day u.llm_calls
    then (false, u)
    else (true, record u { llm_calls = u.llm_calls + 1 })
use_once other_type q u = (true, u)

unfoldable pub check_quota : String → String → UsageType → Limits → Usages → Bool × Usages
check_quota today id kind q s =
    let (ok, u) = use_once kind q (usage_today today id s) in
    (ok, record s { memory = insert id u s.memory })

unfoldable pub persist_usage : String → Usages → Usages
persist_usage id s = elim (lookup id s.memory) [
  | none ↦ s
  | some u ↦ record s { stored = insert id u s.stored }
]

-- What a handler does with the quota: it checks a use and, if that is let through and the work is
-- completed, stores the tenant's usage.
pub record Event : Type 0 where
  pub id : String
  pub kind : UsageType
  pub limits : Limits
  pub completes : Bool

unfoldable pub after : String → Event → Usages → Usages
after today e s =
    let (ok, s') = check_quota today e.id e.kind e.limits s in
    if ok && e.completes then persist_usage e.id s' else s'

-- whether an event is a pipeline run of a tenant that is let through
abbrev is_run : String → String → Event → Usages → Bool
is_run today id e s = str_eq e.id id && (elim e.kind [
  | pipeline_run ↦ (check_quota today e.id pipeline_run e.limits s).0
  | _ ↦ false
])

-- the pipeline runs of a tenant that are let through in a sequence of events on one day
unfoldable pub runs_granted : String → String → List Event → Usages → ℕ
runs_granted today id [] s = 0
runs_granted today id (e ∷ es) s =
    let rest = runs_granted today id es (after today e s) in
    if is_run today id e s then suc rest else rest

-- every event of the tenant goes by the same limit of runs
abbrev pub HaveLimit : String → ℕ → List Event → Type 0
HaveLimit id limit es =
    All (λ e. (str_eq e.id id ≡ false) ⊎ (e.limits.max_pipeline_runs_per_day ≡ limit)) es

usage-memory :
    (today id : String) (s : Usages) (u : Usage)
    → lookup id s.memory ≡ some u
    → str_eq u.date today ≡ true
    → usage_today today id s ≡ u
unfolding usage_today
usage-memory today id s u here now = ground arith

usage-same :
    (today id : String) (s s' : Usages)
    → lookup id s.memory ≡ lookup id s'.memory
    → lookup id s.stored ≡ lookup id s'.stored
    → usage_today today id s ≡ usage_today today id s'
unfolding usage_today
usage-same today id s s' here there = ground arith

use-date : (kind : UsageType) (q : Limits) (u : Usage) → (use_once kind q u).1.date ≡ u.date
unfolding use_once
use-date kind q u = ground arith

usage-date : (today id : String) (s : Usages) → str_eq (usage_today today id s).date today ≡ true
unfolding usage_today
usage-date today id s = ground (arith, eq_refl today)

persist_usage_lem :
    (own : String) (u : Usage) (s : Usages)
    → lookup own s.memory ≡ some u
    → (persist_usage own s).stored ≡ insert own u s.stored
unfolding persist_usage
persist_usage_lem own u s kept = ground (arith, kept)

stored_if :
    (own id : String) (u : Usage) (done : Bool) (s : Usages)
    → lookup own s.memory ≡ some u
    → str_eq own id ≡ false
    → lookup id (if done then persist_usage own s else s).stored ≡ lookup id s.stored
stored_if own id u true s kept other =
    ap (lookup id) (persist_usage_lem own u s kept)
    ∙ lookup-insert own id u s.stored
    ∙ rw other refl
stored_if own id u false s kept other = refl

module _ (today : String) (e : Event) (s : Usages) where
  -- the usage that the check leaves for its tenant
  abbrev used : Usage
  used = (use_once e.kind e.limits (usage_today today e.id s)).1

  after-memory : (after today e s).memory ≡ insert e.id used s.memory
  unfolding after check_quota persist_usage
  after-memory = ground (arith, lookup-insert e.id e.id used s.memory, eq_refl e.id)

  after-stored :
      (id : String)
      → str_eq e.id id ≡ false
      → lookup id (after today e s).stored ≡ lookup id s.stored
  unfolding after check_quota persist_usage
  after-stored id other =
      let (ok, s') = check_quota today e.id e.kind e.limits s in
      stored_if e.id id used (ok && e.completes) s'
        (lookup-insert e.id e.id used s.memory ∙ rw (eq_refl e.id) refl) other

  used-date : str_eq used.date today ≡ true
  used-date =
      ap (λ d. str_eq d today) (use-date e.kind e.limits (usage_today today e.id s))
      ∙ usage-date today e.id s

  after-own : usage_today today e.id (after today e s) ≡ used
  after-own =
      usage-memory today e.id (after today e s) used
        (ap (lookup e.id) after-memory
          ∙ lookup-insert e.id e.id used s.memory
          ∙ rw (eq_refl e.id) refl)
        used-date

  after-other :
      (id : String)
      → str_eq e.id id ≡ false
      → usage_today today id (after today e s) ≡ usage_today today id s
  after-other id other =
      usage-same today id (after today e s) s
        (ap (lookup id) after-memory ∙ lookup-insert e.id id used s.memory ∙ rw other refl)
        (after-stored id other)

-- the count of a tenant's runs after an event, and its bound
Counts : String → Event → Usages → String → Type 0
Counts today e s id =
    ((usage_today today id (after today e s)).pipeline_runs
      ≡ (usage_today today id s).pipeline_runs + (if is_run today id e s then 1 else 0))
    × ((usage_today today id s).pipeline_runs + (if is_run today id e s then 1 else 0)
        ≤ max (usage_today today id s).pipeline_runs e.limits.max_pipeline_runs_per_day)

counts-own : (today : String) (e : Event) (s : Usages) → Counts today e s e.id
unfolding Counts check_quota use_once
counts-own today e s = rw (after-own today e s) (ground (arith, eq_refl e.id))

counts-other :
    (today : String) (e : Event) (s : Usages) (id : String)
    → str_eq e.id id ≡ false
    → Counts today e s id
unfolding Counts
counts-other today e s id differ =
    rw (after-other today e s id differ, differ) (omega arith, omega arith)

counts : (today : String) (e : Event) (s : Usages) (id : String) → Counts today e s id
counts today e s id = elim (Bool-cases (str_eq e.id id)) [
  | inl same ↦ subst (Counts today e s) ((eq_iff e.id id).0 same) (counts-own today e s)
  | inr differ ↦ counts-other today e s id differ
]

counts-limit :
    (today : String) (e : Event) (s : Usages) (id : String) (limit : ℕ)
    → (str_eq e.id id ≡ false) ⊎ (e.limits.max_pipeline_runs_per_day ≡ limit)
    → (usage_today today id s).pipeline_runs ≤ limit
    → (usage_today today id s).pipeline_runs + (if is_run today id e s then 1 else 0) ≤ limit
unfolding Counts
counts-limit today e s id limit (inl differ) within = rw differ (omega arith)
counts-limit today e s id limit (inr own) within =
    let bound = (counts today e s id).1 in omega arith

-- the arithmetic of one event
add_run :
    (x x' rest limit : ℕ) (run : Bool)
    → x' ≡ x + (if run then 1 else 0)
    → x + (if run then 1 else 0) ≤ limit
    → (x' ≤ limit → x' + rest ≤ limit)
    → x + (if run then suc rest else rest) ≤ limit
add_run x x' rest limit true count bound then_rest =
    let all = then_rest (omega arith) in omega arith
add_run x x' rest limit false count bound then_rest =
    let all = then_rest (omega arith) in omega arith

-- If a tenant's pipeline runs that count at the start are within its daily limit, then together with
-- those that a sequence of events on one day lets through they stay within it, whichever works are
-- completed and stored, and whatever the other tenants do.
pub quota_respected :
    (today id : String) (limit : ℕ) (es : List Event) (s : Usages)
    → HaveLimit id limit es
    → (usage_today today id s).pipeline_runs ≤ limit
    → (usage_today today id s).pipeline_runs + runs_granted today id es s ≤ limit
unfolding runs_granted Counts
quota_respected today id limit [] s same within = omega arith
quota_respected today id limit (e ∷ es) s same within =
    let s' = after today e s in
    add_run (usage_today today id s).pipeline_runs (usage_today today id s').pipeline_runs
      (runs_granted today id es s') limit (is_run today id e s) (counts today e s id).0
      (counts-limit today e s id limit same.0 within) (quota_respected today id limit es s' same.1)
