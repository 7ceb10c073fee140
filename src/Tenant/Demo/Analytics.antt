-- ===== src/Tenant/Demo/Analytics.antt =====
-- `get_usage_analytics` of tenant/demo_manager.py: the usage of a demo account, counted from its log.
use vela_flow_public.Prelude.{
  ℕ, ◌+◌, ◌≡◌, ◌∙◌, sym, ap, refl, String, Bool, true, false, Option, none, some, List, [], ◌∷◌,
  ◌++◌, str_eq, eq_iff, eq_refl, ltb, arith, if◌then◌else◌, length, length-append,
}
use vela_flow_public.Dict.{Dict, lookup, insert, lookup-insert}
use vela_flow_public.Tenant.{Tenant}
use vela_flow_public.Tenant.Demo.{Event, error, event_type, Store, Logged, log_event, lines_of}

-- the result of `get_usage_analytics`
pub record Analytics : Type 0 where
  pub is_demo : Bool
  pub created_by : String
  pub expires_at : Option ℕ
  pub total_events : ℕ
  pub event_types : Dict ℕ
  pub errors : List Logged
  pub last_activity : Option ℕ

abbrev pub count_of : String → Dict ℕ → ℕ
count_of key counts = elim (lookup key counts) [ none ↦ 0 | some n ↦ n ]

abbrev pub is_error : Event → Bool
is_error (error kind detail context) = true
is_error e = false

abbrev pub later_of : ℕ → Option ℕ → Option ℕ
later_of at none = some at
later_of at (some old) = if ltb old at then some at else some old

-- the body of its loop, and the loop
unfoldable pub count_event : Logged → Analytics → Analytics
count_event l a = record a {
  event_types =
      insert (event_type l.event) (count_of (event_type l.event) a.event_types + 1) a.event_types;
  errors = if is_error l.event then a.errors ++ l ∷ [] else a.errors;
  last_activity = later_of l.timestamp a.last_activity;
}

unfoldable pub count_events : List Logged → Analytics → Analytics
count_events [] a = a
count_events (l ∷ ls) a = count_events ls (count_event l a)

-- the lines that can be opened
unfoldable pub unseal_all : {L : Type 0} → (L → Option Logged) → List L → List Logged
unseal_all unseal [] = []
unseal_all unseal (line ∷ lines) =
    let rest = unseal_all unseal lines in elim (unseal line) [ none ↦ rest | some l ↦ l ∷ rest ]

-- the dict before the loop
abbrev pub blank : Option Tenant → ℕ → Analytics
blank none n = record {
  is_demo = false;
  created_by = "";
  expires_at = none;
  total_events = n;
  event_types = [];
  errors = [];
  last_activity = none;
}
blank (some t) n = record {
  is_demo = t.is_demo;
  created_by = t.demo_created_by;
  expires_at = t.demo_expires_at;
  total_events = n;
  event_types = [];
  errors = [];
  last_activity = none;
}

module _ {L : Type 0} (unseal : String → L → Option Logged) where
  abbrev pub load_events : String → Store L → List Logged
  load_events id s = unseal_all (unseal id) (lines_of id s)

  unfoldable pub get_usage_analytics : String → Store L → Analytics
  get_usage_analytics id s =
      let events = load_events id s in
      count_events events (blank (lookup id s.manager.tenants) (length events))

count_events-append :
    (ls : List Logged) (l : Logged) (a : Analytics)
    → count_events (ls ++ l ∷ []) a ≡ count_event l (count_events ls a)
unfolding count_events
count_events-append [] l a = refl
count_events-append (m ∷ ls) l a = count_events-append ls l (count_event m a)

count_events-total :
    (ls : List Logged) (a : Analytics) (n : ℕ)
    → count_events ls (record a { total_events = n })
      ≡ record (count_events ls a) { total_events = n }
unfolding count_events count_event
count_events-total [] a n = refl
count_events-total (l ∷ ls) a n = count_events-total ls (count_event l a) n

unseal_all-append :
    {L : Type 0} (unseal : L → Option Logged) (ls : List L) (x : L) (l : Logged)
    → unseal x ≡ some l
    → unseal_all unseal (ls ++ x ∷ []) ≡ unseal_all unseal ls ++ l ∷ []
unfolding unseal_all
unseal_all-append unseal [] x l h = ground (arith, h)
unseal_all-append unseal (m ∷ ls) x l h = ground (arith, h, unseal_all-append unseal ls x l h)

-- the analytics of a log with one event more
abbrev counted : Logged → Analytics → Analytics
counted l a = record (count_event l a) { total_events = a.total_events + 1 }

abbrev of_events : Option Tenant → List Logged → Analytics
of_events t ls = count_events ls (blank t (length ls))

blank-total : (t : Option Tenant) (n m : ℕ) → blank t n ≡ record (blank t m) { total_events = n }
blank-total none n m = refl
blank-total (some t) n m = refl

total_kept :
    (t : Option Tenant) (ls : List Logged) (n : ℕ) → (count_events ls (blank t n)).total_events ≡ n
total_kept t ls n =
    ap (λ a. (count_events ls a).total_events) (blank-total t n n)
    ∙ ap (λ a. a.total_events) (count_events-total ls (blank t n) n)

of_events-append :
    (t : Option Tenant) (ls : List Logged) (l : Logged)
    → of_events t (ls ++ l ∷ []) ≡ counted l (of_events t ls)
unfolding count_event
of_events-append t ls l =
    let n = length ls in
    let longer : length (ls ++ l ∷ []) ≡ n + 1 = length-append ls (l ∷ []) in
    count_events-append ls l (blank t (length (ls ++ l ∷ [])))
    ∙ ap (λ k. count_event l (count_events ls (blank t k))) longer
    ∙ ap (λ a. count_event l (count_events ls a)) (blank-total t (n + 1) n)
    ∙ ap (count_event l) (count_events-total ls (blank t n) (n + 1))
    ∙ ap (λ k. record (count_event l (of_events t ls)) { total_events = k + 1 })
        (sym (total_kept t ls n))

module _ {L : Type 0} (seal : String → Logged → L) (unseal : String → L → Option Logged) where
  lines-log :
      (id : String) (e : Event) (now : ℕ) (s : Store L)
      → lines_of id (log_event seal id e now s)
        ≡ lines_of id s ++ seal id (record { event = e; timestamp = now }) ∷ []
  unfolding log_event
  lines-log id e now s = ground (
    arith,
    lookup-insert id id (lines_of id s ++ seal id (record { event = e; timestamp = now }) ∷ [])
        s.events,
    eq_refl id,
  )

  lines-other :
      (id other : String) (e : Event) (now : ℕ) (s : Store L)
      → str_eq id other ≡ false
      → lines_of other (log_event seal id e now s) ≡ lines_of other s
  unfolding log_event
  lines-other id other e now s differ = ground (
    arith,
    lookup-insert id other (lines_of id s ++ seal id (record { event = e; timestamp = now }) ∷ [])
        s.events,
    differ,
  )

  tenants-log :
      (id : String) (e : Event) (now : ℕ) (s : Store L)
      → (log_event seal id e now s).manager ≡ s.manager
  unfolding log_event
  tenants-log id e now s = refl

  by_events :
      (id : String) (s : Store L)
      → get_usage_analytics unseal id s
        ≡ of_events (lookup id s.manager.tenants) (load_events unseal id s)
  unfolding get_usage_analytics
  by_events id s = refl

  usage-log :
      (id : String) (e : Event) (now : ℕ) (s : Store L)
      → ((l : Logged) → unseal id (seal id l) ≡ some l)
      → get_usage_analytics unseal id (log_event seal id e now s)
        ≡ counted (record { event = e; timestamp = now }) (get_usage_analytics unseal id s)
  usage-log id e now s opens =
      let l : Logged = record { event = e; timestamp = now } in
      let s' = log_event seal id e now s in
      let t = lookup id s.manager.tenants in
      by_events id s'
      ∙ ap (λ m. of_events (lookup id m.tenants) (load_events unseal id s'))
          (tenants-log id e now s)
      ∙ ap (of_events t) (
          ap (unseal_all (unseal id)) (lines-log id e now s)
          ∙ unseal_all-append (unseal id) (lines_of id s) (seal id l) l (opens l))
      ∙ of_events-append t (load_events unseal id s) l
      ∙ ap (counted l) (sym (by_events id s))

  -- Where a line that was sealed for a tenant opens for it, an event that is logged for the tenant is
  -- counted once in the total and once under its own kind, errors are collected in their order, and
  -- the last activity is the latest time. The counts of the other kinds and the analytics of another
  -- tenant are as they were.
  pub event_counted :
      (id other kind : String) (e : Event) (now : ℕ) (s : Store L)
      → ((l : Logged) → unseal id (seal id l) ≡ some l)
      → str_eq id other ≡ false
      → let a = get_usage_analytics unseal id s in
        let a' = get_usage_analytics unseal id (log_event seal id e now s) in
        (a'.total_events ≡ a.total_events + 1)
        × (count_of kind a'.event_types
            ≡ count_of kind a.event_types + (if str_eq (event_type e) kind then 1 else 0))
        × (a'.errors ≡ (
            if is_error e
            then a.errors ++ record { event = e; timestamp = now } ∷ []
            else a.errors))
        × (a'.last_activity ≡ later_of now a.last_activity)
        × (get_usage_analytics unseal other (log_event seal id e now s)
            ≡ get_usage_analytics unseal other s)
  unfolding count_event
  event_counted id other kind e now s opens differ =
      let l : Logged = record { event = e; timestamp = now } in
      let a = get_usage_analytics unseal id s in
      let same = usage-log id e now s opens in
      let s' = log_event seal id e now s in
      let key = event_type e in
      (
        ap (λ b. b.total_events) same,
        ap (λ b. count_of kind b.event_types) same
            ∙ ground (
              arith,
              lookup-insert key kind (count_of key a.event_types + 1) a.event_types,
              eq_iff key kind,
            ),
        ap (λ b. b.errors) same,
        ap (λ b. b.last_activity) same,
        by_events other s'
            ∙ ap (λ m. of_events (lookup other m.tenants) (load_events unseal other s'))
                (tenants-log id e now s)
            ∙ ap (λ ls. of_events (lookup other s.manager.tenants) (unseal_all (unseal other) ls))
                (lines-other id other e now s differ)
            ∙ sym (by_events other s),
      )
