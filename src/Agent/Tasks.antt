-- ===== src/Agent/Tasks.antt =====
-- loop.go: the tasks of the server, `startTasks`, `addTaskResult`, `takeTaskResults`,
-- `putTaskResults` and `saveTasks`.
use excubra.Prelude.{
  ℕ, ◌-◌, String, Bool, ◌||◌, List, [], ◌∷◌, ◌++◌, ltb, ◌==◌, if◌then◌else◌, length, take, drop,
  str_eq, contains, add,
}
use excubra.GoTime.{Time}

abbrev pub max_tasks : ℕ
max_tasks = 4

abbrev pub max_done_tasks : ℕ
max_done_tasks = 200

pub record Task : Type 0 where
  pub id : String
  pub kind : String
  pub issued_at : Time

pub record TaskResult : Type 0 where
  pub id : String
  pub kind : String
  pub ok : Bool
  pub detail : String
  pub finished_at : Time

-- `saved` is what the file holds: the ids and the results.
pub record Memory : Type 0 where
  pub done : List String
  pub done_set : List String
  pub results : List TaskResult
  pub saved : List String × List TaskResult

-- The newest ids, as many as are remembered.
abbrev pub newest : List String → List String
newest ids = if ltb max_done_tasks (length ids) then drop (length ids - max_done_tasks) ids else ids

abbrev pub set_of : List String → List String
set_of [] = []
set_of (id ∷ ids) = add id (set_of ids)

unfoldable pub save_tasks : Memory → Memory
save_tasks m = record m {
  saved = (newest m.done, m.results);
  done = newest m.done;
  done_set = if ltb max_done_tasks (length m.done) then set_of (newest m.done) else m.done_set;
}

-- The loop over the tasks: those to run, and the memory of them.
unfoldable pub choose_fresh : Memory → List Task → Memory × List Task
choose_fresh m [] = (m, [])
choose_fresh m (t ∷ ts) =
    let skip = choose_fresh m ts in
    let (m1, fresh) =
      choose_fresh (record m { done_set = add t.id m.done_set; done = m.done ++ (t.id ∷ []) }) ts in
    if str_eq t.id "" || contains t.id m.done_set then skip else (m1, t ∷ fresh)

-- The memory, and the tasks that are run, each in the background.
unfoldable pub start_tasks : Memory → List Task → Memory × List Task
start_tasks m tasks =
    let (m1, fresh) = choose_fresh m (take max_tasks tasks) in
    (if ltb 0 (length fresh) then save_tasks m1 else m1, fresh)

unfoldable pub add_task_result : Memory → TaskResult → Memory
add_task_result m r = save_tasks (record m { results = m.results ++ (r ∷ []) })

unfoldable pub take_task_results : Memory → List TaskResult × Memory
take_task_results m = (m.results, record m { results = [] })

unfoldable pub put_task_results : Memory → List TaskResult → Memory
put_task_results m rs = if length rs == 0 then m else record m { results = rs ++ m.results }
