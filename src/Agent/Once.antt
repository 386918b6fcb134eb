-- ===== src/Agent/Once.antt =====
-- A task runs once.
use excubra.Prelude.{
  ◌+◌, ◌≤◌, ◌<◌, ◌≡◌, ◌⊎◌, inl, inr, refl, sym, ap, subst, String, true, false, ◌||◌, List, [], ◌∷◌,
  ◌++◌, arith, eq_iff, eq_refl, map, str_eq, ltb, length, length-append, length-take_le, take,
  contains, add, All, Once, Bool-cases,
}
use excubra.Agent.Tasks.{
  Task, Memory, max_tasks, max_done_tasks, save_tasks, choose_fresh, start_tasks,
}

abbrev pub task_id : Task → String
task_id t = t.id

-- The task has been run, or has no id.
abbrev pub Known : Memory → Task → Type 0
Known m t = (str_eq t.id "" || contains t.id m.done_set) ≡ true

contains-add :
    (k x : String) (xs : List String) → contains k (add x xs) ≡ (str_eq x k || contains k xs)
contains-add k x xs = ground (arith, eq_iff x k)

-- After the loop the ids of before are known, those of the tasks too, and the fresh ones were not
-- known and are different.
Chosen : Memory → List Task → Memory × List Task → Type 0
Chosen m ts r =
    ((k : String) → contains k m.done_set ≡ true → contains k r.0.done_set ≡ true)
    × All (Known r.0) ts
    × ((k : String)
        → contains k (map task_id r.1) ≡ true
        → (contains k m.done_set ≡ false) × (str_eq k "" ≡ false))
    × Once (map task_id r.1)
    × (length r.0.done ≤ length m.done + length ts)

choose_fresh-Chosen : (m : Memory) (ts : List Task) → Chosen m ts (choose_fresh m ts)
unfolding choose_fresh Chosen
choose_fresh-Chosen m [] = (λ k h. h, tt, λ k h. cc h, tt, omega arith)
choose_fresh-Chosen m (t ∷ ts) = elim (Bool-cases (str_eq t.id "" || contains t.id m.done_set)) [
  | inl old ↦
      let (grows, known, new, once, size) = choose_fresh-Chosen m ts in
      let same : choose_fresh m (t ∷ ts) ≡ choose_fresh m ts = rw (old, choose_fresh) refl in
      subst (Chosen m (t ∷ ts)) (sym same)
        (grows, (ground (arith, grows t.id, old), known), new, once, omega (arith, size))
  | inr fresh ↦
      let m1 : Memory = record m { done_set = add t.id m.done_set; done = m.done ++ (t.id ∷ []) } in
      let rest = choose_fresh m1 ts in
      let (grows, known, new, once, size) = choose_fresh-Chosen m1 ts in
      let same : choose_fresh m (t ∷ ts) ≡ (rest.0, t ∷ rest.1) = rw (fresh, choose_fresh) refl in
      let added = λ (k : String). contains-add k t.id m.done_set in
      let mine : contains t.id (map task_id rest.1) ≡ false =
        elim (Bool-cases (contains t.id (map task_id rest.1))) [
          | inr no_match ↦ no_match
          | inl again ↦ absurd (ground (arith, (new t.id again).0, added t.id, eq_refl t.id))
        ] in
      subst (Chosen m (t ∷ ts)) (sym same) (
        λ k h. grows k (ground (arith, added k, h)),
        (ground (arith, grows t.id (ground (arith, added t.id, eq_refl t.id))), known),
        λ k h. elim (Bool-cases (str_eq t.id k)) [
          | inl here ↦
              let name = (eq_iff t.id k).0 here in
              rw (← name) (ground (arith, fresh), ground (arith, fresh))
          | inr there ↦
              let later = new k (ground (arith, there, h)) in
              (ground (arith, later.0, added k), later.1)
        ],
        (mine, once),
        omega (arith, size, length-append m.done (t.id ∷ [])),
      )
]

choose_fresh-none : (m : Memory) (ts : List Task) → All (Known m) ts → choose_fresh m ts ≡ (m, [])
unfolding choose_fresh
choose_fresh-none m [] a = refl
choose_fresh-none m (t ∷ ts) a = rw (a.0, choose_fresh) (choose_fresh-none m ts a.1)

All-fresh :
    (m : Memory) (ts : List Task)
    → ((k : String) → contains k (map task_id ts) ≡ true → contains k m.done_set ≡ false)
    → All (λ (t : Task). contains t.id m.done_set ≡ false) ts
All-fresh m [] f = tt
All-fresh m (t ∷ ts) f =
    (f t.id (ground (arith, eq_refl t.id)), All-fresh m ts (λ k h. f k (ground (arith, h))))

-- The tasks that are run had not been run, as far as the agent remembers, and each is started once. A configuration that is pulled again
-- starts none of its tasks again, unless more than 196 ids were remembered at first, so that old ones may have made room.
pub start_tasks-Once :
    (m : Memory) (tasks : List Task)
    → Once (map task_id (start_tasks m tasks).1)
      × All (λ (t : Task). contains t.id m.done_set ≡ false) (start_tasks m tasks).1
      × ((196 < length m.done) ⊎ ((start_tasks (start_tasks m tasks).0 tasks).1 ≡ []))
unfolding start_tasks save_tasks Chosen
start_tasks-Once m tasks =
    let ts = take max_tasks tasks in
    let r = choose_fresh m ts in
    let (grows, known, new, once, size) = choose_fresh-Chosen m ts in
    (
      once,
      All-fresh m r.1 (λ k h. (new k h).0),
      elim (Bool-cases (ltb 196 (length m.done))) [
        | inl many ↦ inl (ground arith)
        | inr few ↦
            let short : ltb max_done_tasks (length r.0.done) ≡ false =
              ground (arith, size, few, length-take_le max_tasks tasks) in
            inr (elim (Bool-cases (ltb 0 (length r.1))) [
              | inr none_fresh ↦
                  rw none_fresh
                    (ap (λ (x : Memory × List Task). x.1) (choose_fresh-none r.0 ts known))
              | inl some_fresh ↦
                  let kept : All (Known (save_tasks r.0)) ts = rw short known in
                  rw some_fresh (
                    ap (λ (x : Memory × List Task). x.1)
                      (choose_fresh-none (save_tasks r.0) ts kept))
            ])
      ],
    )
