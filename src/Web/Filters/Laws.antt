-- ===== src/Web/Filters/Laws.antt =====
-- The counts and the severity filter of web/lib/filters.js.
use shore_sentinel_app.Base.{
  ℕ, ◌+◌, ◌≤◌, String, Bool, true, false, not, ◌&&◌, ◌≡◌, refl, sym, subst, ◌⊎◌, inl, inr, List, [],
  ◌∷◌, length, one_of, str_eq, eq_iff, ltb, Bool-cases, arith, if◌then◌else◌,
}
use shore_sentinel_app.Value.{Value, str, get, or_falsy}
use shore_sentinel_app.Runtime.{Runtime, text_from}
use shore_sentinel_app.Web.Filters.{
  severity_levels, index_of, normalize_severity, run_severity, SeverityCounts, StatusCounts,
  count_severity, count_status, count_severities, count_statuses, no_severities, no_statuses,
  summarize_runs, is_set, keeps_run, excludes, environment_of, too_old, parse_time_range_param,
  or_text,
}

abbrev pub severity_total : SeverityCounts → ℕ
severity_total c = c.critical + c.high + c.medium + c.low + c.informational

abbrev pub status_total : StatusCounts → ℕ
status_total c = c.completed + c.running + c.leased + c.pending

one_of-cases :
    (x : String) (xs : List String) (s : String)
    → one_of (x ∷ xs) s ≡ true
    → (s ≡ x) ⊎ (one_of xs s ≡ true)
one_of-cases x xs s h = elim (Bool-cases (str_eq s x)) [
  | inl e ↦ inl ((eq_iff s x).0 e)
  | inr e ↦ inr (rw e at h)
]

-- To hold of every level is to hold of the five.
pub every_level :
    (P : String → Type 0)
    → P "critical"
    → P "high"
    → P "medium"
    → P "low"
    → P "informational"
    → (s : String) → one_of severity_levels s ≡ true
    → P s
every_level P c h m l i s e =
    elim (one_of-cases "critical" ("high" ∷ "medium" ∷ "low" ∷ "informational" ∷ []) s e) [
      | inl x ↦ subst P (sym x) c
      | inr e1 ↦ elim (one_of-cases "high" ("medium" ∷ "low" ∷ "informational" ∷ []) s e1) [
        | inl x ↦ subst P (sym x) h
        | inr e2 ↦ elim (one_of-cases "medium" ("low" ∷ "informational" ∷ []) s e2) [
          | inl x ↦ subst P (sym x) m
          | inr e3 ↦ elim (one_of-cases "low" ("informational" ∷ []) s e3) [
            | inl x ↦ subst P (sym x) l
            | inr e4 ↦ elim (one_of-cases "informational" [] s e4) [
              | inl x ↦ subst P (sym x) i
              | inr never ↦ cc never
            ]
          ]
        ]
      ]
    ]

level_or :
    (v : String)
    → one_of severity_levels (if one_of severity_levels v then v else "informational") ≡ true
level_or v = elim (Bool-cases (one_of severity_levels v)) [
  | inl known ↦ rw known known
  | inr other ↦ rw other
]

normalize_severity-level :
    (rt : Runtime) (v : Value) → one_of severity_levels (normalize_severity rt v) ≡ true
unfolding normalize_severity
normalize_severity-level rt v = level_or (rt.to_lower (text_from rt (or_text v "")))

count_severity-total :
    (c : SeverityCounts) (s : String)
    → one_of severity_levels s ≡ true
    → severity_total (count_severity s c) ≡ severity_total c + 1
count_severity-total c =
    every_level (λ s. severity_total (count_severity s c) ≡ severity_total c + 1) (omega arith)
      (omega arith) (omega arith) (omega arith) (omega arith)

count_severities-total :
    (rt : Runtime) (runs : List Value) (c : SeverityCounts)
    → severity_total (count_severities rt runs c) ≡ severity_total c + length runs
unfolding count_severities run_severity
count_severities-total rt [] c = omega arith
count_severities-total rt (run ∷ runs) c =
    let v = or_falsy (get "highest_severity" run) (get "severity" run) in
    omega (
      arith,
      count_severities-total rt runs (count_severity (normalize_severity rt v) c),
      count_severity-total c (normalize_severity rt v) (normalize_severity-level rt v),
    )

count_status-total :
    (c : StatusCounts) (s : String) → status_total (count_status s c) ≤ status_total c + 1
count_status-total c s =
    let P : String → Type 0 = λ t. status_total (count_status t c) ≤ status_total c + 1 in
    elim (Bool-cases (str_eq s "completed")) [
      | inl e ↦ subst P (sym ((eq_iff s "completed").0 e)) (omega arith)
      | inr e1 ↦ elim (Bool-cases (str_eq s "running")) [
        | inl e ↦ subst P (sym ((eq_iff s "running").0 e)) (omega arith)
        | inr e2 ↦ elim (Bool-cases (str_eq s "leased")) [
          | inl e ↦ subst P (sym ((eq_iff s "leased").0 e)) (omega arith)
          | inr e3 ↦ elim (Bool-cases (str_eq s "pending")) [
            | inl e ↦ subst P (sym ((eq_iff s "pending").0 e)) (omega arith)
            | inr e4 ↦ rw (e1, e2, e3, e4) (omega arith)
          ]
        ]
      ]
    ]

count_statuses-total :
    (rt : Runtime) (runs : List Value) (c : StatusCounts)
    → status_total (count_statuses rt runs c) ≤ status_total c + length runs
unfolding count_statuses
count_statuses-total rt [] c = omega arith
count_statuses-total rt (run ∷ runs) c =
    let s = text_from rt (get "status" run) in
    omega (arith, count_statuses-total rt runs (count_status s c), count_status-total c s)

-- The summary counts every run under exactly one severity, and under at most one state.
pub summarize_runs_total :
    (rt : Runtime) (runs : List Value) (counts : Value)
    → (severity_total (summarize_runs rt runs counts).severity_counts ≡ length runs)
      × (status_total (summarize_runs rt runs counts).status_counts ≤ length runs)
unfolding summarize_runs
summarize_runs_total rt runs counts = (
  omega (arith, count_severities-total rt runs no_severities),
  omega (arith, count_statuses-total rt runs no_statuses),
)

and_mono :
    (a b c c' d : Bool) (h : c ≡ true → c' ≡ true)
    → (a && b && c && d) ≡ true
    → (a && b && c' && d) ≡ true
and_mono true true true c' true h e = rw (h refl)
and_mono true true true c' false h e = cc e
and_mono true true false c' d h e = cc e
and_mono true false c c' d h e = cc e
and_mono false b c c' d h e = cc e

allow_mono :
    (i j r : ℕ) (p q : Bool)
    → i ≤ j
    → p ≡ true
    → not (p && ltb i r) ≡ true
    → not (q && ltb j r) ≡ true
allow_mono i j r p q lower chosen kept = ground arith

-- A run that passes a severity filter passes every filter for a severity that is no higher.
pub keeps_run_monotone :
    (rt : Runtime) (now : ℕ) (run_status a b env time_range run : Value)
    (lower : index_of severity_levels (normalize_severity rt a)
      ≤ index_of severity_levels (normalize_severity rt b))
    (chosen : is_set a "All severities" ≡ true)
    (kept : keeps_run rt now run_status a env time_range run ≡ true)
    → keeps_run rt now run_status b env time_range run ≡ true
unfolding keeps_run
keeps_run_monotone rt now run_status a b env time_range run lower chosen kept =
    let level = index_of severity_levels (run_severity rt run) in
    let i = index_of severity_levels (normalize_severity rt a) in
    let j = index_of severity_levels (normalize_severity rt b) in
    and_mono (not (excludes run_status "All statuses" (str (text_from rt (get "status" run)))))
      (not (excludes env "All environments" (environment_of rt run)))
      (not (is_set a "All severities" && ltb i level))
      (not (is_set b "All severities" && ltb j level))
      (not (
        too_old rt now (parse_time_range_param time_range) (get "completed_at" run)
          (get "created_at" run)))
      (allow_mono i j level (is_set a "All severities") (is_set b "All severities") lower chosen)
      kept
