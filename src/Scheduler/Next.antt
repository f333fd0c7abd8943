-- ===== src/Scheduler/Next.antt =====
-- `find_next_task` goes round the table: it picks the ready task that comes next.
use native.Mathlib.Decide.{ℕ_discrete}
use littlevisor.Base.{
  ℕ, zero, suc, ◌+◌, ◌-◌, ◌≤◌, ◌<◌, ◌≡◌, refl, sym, ap, ◌∙◌, ◌≢◌, ◌⊎◌, inl, inr, true, false,
  Option, none, some, List, ltb, ◌==◌, if◌then◌else◌, arith, Bool-cases, ==_iff,
}
use littlevisor.Scheduler.{Task, is_ready, first_ready, find_next_task, max_number_of_tasks}

-- What a search over the tasks from `from` up to `to` answers.
abbrev First : List Task → ℕ → ℕ → Option ℕ → Type 0
First tasks from to none = (n : ℕ) → from ≤ n → n < to → is_ready tasks n ≡ false
First tasks from to (some r) =
    (from ≤ r)
    × (r < to)
    × (is_ready tasks r ≡ true)
    × ((n : ℕ) → from ≤ n → n < r → is_ready tasks n ≡ false)

module _ (tasks : List Task) where
  one_more :
      (from to : ℕ) (r : Option ℕ)
      → is_ready tasks from ≡ false
      → First tasks (from + 1) to r
      → First tasks from to r
  one_more from to none h f = λ n lo hi. elim (Bool-cases (n == from)) [
    | inl e ↦ ap (is_ready tasks) ((==_iff n from).0 e) ∙ h
    | inr e ↦ f n (ground arith) hi
  ]
  one_more from to (some r) h (a, b, c, d) = (
    omega arith,
    b,
    c,
    λ n lo hi. elim (Bool-cases (n == from)) [
      | inl e ↦ ap (is_ready tasks) ((==_iff n from).0 e) ∙ h
      | inr e ↦ d n (ground arith) hi
    ],
  )

  first_ready-First :
      (left from to : ℕ) → from + left ≡ to → First tasks from to (first_ready tasks left from)
  unfolding first_ready
  first_ready-First zero from to e = λ n lo hi. absurd (omega arith)
  first_ready-First (suc left) from to e = elim (Bool-cases (is_ready tasks from)) [
    | inl yes_ready ↦
        rw yes_ready (omega arith, omega arith, yes_ready, λ n lo hi. absurd (omega arith))
    | inr not_ready ↦ rw not_ready (
        one_more from to (first_ready tasks left (from + 1)) not_ready
          (first_ready-First left (from + 1) to (omega arith)))
  ]

-- How far task `n` is from task `curr`, going up and round past the idle task.
abbrev pub ahead : ℕ → ℕ → ℕ
ahead curr n = if ltb curr n then n - curr else n + max_number_of_tasks - curr

-- A task that may be picked: not the idle task, not the current one, and ready.
pub record Candidate (tasks : List Task) (curr n : ℕ) : Type 0 where
  pub not_idle : 1 ≤ n
  pub within : n < max_number_of_tasks
  pub other : n ≢ curr
  pub ready : is_ready tasks n ≡ true

-- What picking `r` means.
abbrev pub Picked : List Task → ℕ → ℕ → Type 0
Picked tasks curr r =
    (Candidate tasks curr r × ((n : ℕ) → Candidate tasks curr n → ahead curr r ≤ ahead curr n))
    ⊎ ((r ≡ 0) × ((n : ℕ) → ¬ Candidate tasks curr n))

-- For a current task below 100, `find_next_task` picks the ready task, other than the idle and the
-- current one, that comes next going round the table, and the idle task if there is none.
pub find_next_task-Picked :
    (tasks : List Task) (curr : ℕ)
    → curr < max_number_of_tasks
    → Picked tasks curr (find_next_task tasks curr)
unfolding find_next_task
find_next_task-Picked tasks curr h =
    above (first_ready tasks (100 - (curr + 1)) (curr + 1))
      (first_ready-First tasks (100 - (curr + 1)) (curr + 1) 100 (omega arith))
  where
    below :
        (a : Option ℕ)
        → First tasks (curr + 1) 100 none
        → First tasks 1 (1 + (curr - 1)) a
        → Picked tasks curr (elim a [ some n ↦ n | none ↦ 0 ])
    below none up f = inr (
      refl,
      λ n c. elim (Bool-cases (ltb n curr)) [
        | inl p ↦ ground (arith, f n c.not_idle, c.ready, c.not_idle)
        | inr p ↦ ground (arith, up n, c.ready, c.within, c.other)
      ],
    )
    below (some r) up (a, b, c, d) = inl (
      record { not_idle = a; within = omega arith; other = omega arith; ready = c },
      λ n k. elim (Bool-cases (ltb curr n)) [
        | inl p ↦ absurd (ground (arith, up n, k.ready, k.within))
        | inr p ↦ elim (Bool-cases (ltb n r)) [
          | inl q ↦ absurd (ground (arith, d n k.not_idle, k.ready))
          | inr q ↦ ground (arith, k.not_idle, k.other)
        ]
      ],
    )

    above :
        (a : Option ℕ)
        → First tasks (curr + 1) 100 a
        → Picked tasks curr (elim a [
          | some n ↦ n
          | none ↦ elim (first_ready tasks (curr - 1) 1) [ some n ↦ n | none ↦ 0 ]
        ])
    above (some r) (a, b, c, d) = inl (
      record { not_idle = omega arith; within = b; other = omega arith; ready = c },
      λ n k. elim (Bool-cases (ltb curr n)) [
        | inl p ↦ elim (Bool-cases (ltb n r)) [
          | inl q ↦ absurd (ground (arith, d n, k.ready))
          | inr q ↦ ground arith
        ]
        | inr p ↦ ground (arith, k.not_idle)
      ],
    )
    above none up =
        below (first_ready tasks (curr - 1) 1) up
          (first_ready-First tasks (curr - 1) 1 (1 + (curr - 1)) refl)

-- The current task after `k` switches, while the table stays as it is.
pub turns : ℕ → List Task → ℕ → ℕ
turns zero tasks curr = curr
turns (suc k) tasks curr = turns k tasks (find_next_task tasks curr)

-- Each switch that does not yet pick `n` brings it nearer.
nearer :
    (curr r n : ℕ)
    → curr < max_number_of_tasks
    → n < max_number_of_tasks
    → r < max_number_of_tasks
    → r ≢ n
    → ahead curr r ≤ ahead curr n
    → ahead r n < ahead curr n
nearer curr r n hc hn hr ne le = ground arith

turns_reach :
    (d : ℕ) (tasks : List Task) (curr n : ℕ)
    → curr < max_number_of_tasks
    → 1 ≤ n
    → n < max_number_of_tasks
    → is_ready tasks n ≡ true
    → (n ≡ curr) ⊎ (ahead curr n ≤ d)
    → (k : ℕ) × (k ≤ d) × (turns k tasks curr ≡ n)
unfolding turns
turns_reach d tasks curr n hc h1 h2 ready (inl e) = (0, omega arith, sym e)
turns_reach zero tasks curr n hc h1 h2 ready (inr near) = absurd (ground arith)
turns_reach (suc d) tasks curr n hc h1 h2 ready (inr near) = elim (ℕ_discrete n curr) [
  | yes e ↦ (0, omega arith, sym e)
  | no other ↦
      let c : Candidate tasks curr n = record {
        not_idle = h1;
        within = h2;
        other = other;
        ready = ready;
      } in
      elim (find_next_task-Picked tasks curr hc) [
        | inl (r, nearest) ↦
            let next = find_next_task tasks curr in
            let (k, small, e) =
              turns_reach d tasks next n r.within h1 h2 ready (elim (ℕ_discrete n next) [
                | yes e ↦ inl e
                | no ne ↦ inr (
                    omega (
                      arith,
                      near,
                      nearer curr next n hc h2 r.within (λ e. ne (sym e)) (nearest n c),
                    ))
              ]) in
            (suc k, omega arith, e)
        | inr (_, nothing) ↦ absurd (nothing n c)
      ]
]

-- No ready task starves: if the table does not change, then from any current task each ready task
-- other than the idle one runs after at most 99 switches.
pub no_starvation :
    (tasks : List Task) (curr n : ℕ)
    → curr < max_number_of_tasks
    → 1 ≤ n
    → n < max_number_of_tasks
    → is_ready tasks n ≡ true
    → (k : ℕ) × (k ≤ 99) × (turns k tasks curr ≡ n)
no_starvation tasks curr n hc h1 h2 ready = elim (ℕ_discrete n curr) [
  | yes e ↦ turns_reach 99 tasks curr n hc h1 h2 ready (inl e)
  | no ne ↦ turns_reach 99 tasks curr n hc h1 h2 ready (inr (ground arith))
]
