-- ===== src/Spu/Stages.antt =====
-- spu/src/spu_taskmanager.c: the four stages and the pipeline. A DMA transfer is done when it is
-- issued.
use speutils_debs.Base.{
  ℕ, zero, suc, ◌+◌, ◌-◌, ◌%◌, ◌^◌, true, false, Option, none, some, List, [], ◌∷◌, ltb, leb, ◌==◌,
  if◌then◌else◌, get_elem?, length, set, u32, Outcome, ok, fault, out_of_fuel, deref, ◌>>=◌, ◌>>◌,
}
use speutils_debs.Messages
use speutils_debs.LinkedList.{LinkedList, list_first_entry, list_next_entry}
use speutils_debs.Fifo.Port.{Ack, Slot}
use speutils_debs.Spu.State.{
  stages, PipeEntry, Program, Manager, View, increment, in_tasks_remaining,
}

-- check_tasks
unfoldable pub check_tasks : View → Manager → Manager
check_tasks v m = if v.line.state == 0 then m else record m { front = v.line.count }

-- (cycle + k) % STAGES
unfoldable pub context : Manager → ℕ → ℕ
context m k = u32 (m.cycle + k) % stages

unfoldable pub entry_at : Manager → ℕ → Outcome PipeEntry
entry_at m k = deref (get_elem? m.pipe (context m k))

unfoldable pub set_entry : Manager → ℕ → PipeEntry → Manager
set_entry m k e = record m { pipe = set m.pipe (context m k) e }

-- stage1
unfoldable pub stage1 : View → Manager → Outcome Manager
stage1 v before =
    let m = check_tasks v before in
    if in_tasks_remaining m
    then (do
      e ← entry_at m 0
      task ← deref (get_elem? v.tasks m.in_back)
      let in_back = increment m.in_back m.max_entries
      ok (record (set_entry m 0 (record e { task = task; active = true; entry = in_back })) {
        in_back = in_back;
      }))
    else ok m

-- A store into a heap block of `block` bytes.
unfoldable pub store_field : (block offset width : ℕ) → Outcome (Unit {0})
store_field block offset width = if leb (offset + width) block then ok tt else fault

-- The case REGISTER_PROGRAM of stage2. The block has sizeof(program) bytes, the size of a pointer of
-- the SPE, and gets the fields `size`, `id`, `LS` and `EA`; nothing keeps its address.
unfoldable pub register_program : Outcome (Unit {0})
unfolding store_field
register_program = do store_field 4 16 4; store_field 4 4 4; store_field 4 0 4; store_field 4 8 8

-- The first entry of `programs`. The `current` of the list is set anew by each search, so that it is not
-- kept from one to the next.
unfoldable pub first_program : Manager → Outcome (Program × LinkedList)
first_program m = do
  list ← deref m.programs
  (entry, l) ← list_first_entry list m.heap
  prog ← deref (m.program entry)
  ok (prog, l)

-- The default case of stage2: a wrong first entry makes it follow the variable `program`, which has
-- no value. A program that is found is left as it is: `prog->LS == memalign(…)` compares.
unfoldable pub fetch_program : ℕ → Manager → Outcome (Unit {0})
fetch_program command m = do
  (prog, l) ← first_program m
  if prog.id == command then ok tt else fault

-- stage2
unfoldable pub stage2 : Manager → Outcome Manager
stage2 m = do
  e ← entry_at m 1
  if e.active
      then (do
        command ← deref (get_elem? e.task 0)
        if command == Messages.register_program
            then (do register_program; ok m)
            else if command == Messages.add
            then ok m
            else (do fetch_program command m; ok m))
      else ok m

-- The loop of the case ADD of stage3: for (i = 0 ; i < task[2] ; i++) res += task[3] + i + task[4];
unfoldable pub add_loop : (rounds i res a b : ℕ) → ℕ
add_loop zero i res a b = res
add_loop (suc rounds) i res a b = add_loop rounds (i + 1) (u32 (res + (a + i + b))) a b

-- The rounds of that loop: `task[2]` is an int.
unfoldable pub rounds_of : ℕ → ℕ
rounds_of word = if ltb word (2 ^ 31) then word else 0

unfoldable pub add_task : ℕ → Slot → Outcome ℕ
add_task res task = do
  adds ← deref (get_elem? task 2)
  a ← deref (get_elem? task 3)
  b ← deref (get_elem? task 4)
  ok (add_loop (rounds_of adds) 0 res a b)

-- The search of stage3 through `programs`; `none` is a missing program.
unfoldable pub search_program : ℕ → ℕ → Program → LinkedList → Manager → Outcome (Option Program)
search_program zero command prog list m = out_of_fuel
search_program (suc fuel) command prog list m = if prog.id == command then ok (some prog) else do
  (entry, l) ← list_next_entry list m.heap
  let found = deref (m.program entry)
  if entry == 0 then ok none else (found >>= λ next. search_program fuel command next l m)

-- The default case of stage3; a call of a program that is not in the local store is a jump through a
-- null pointer.
unfoldable pub run_program : ℕ → View → ℕ → PipeEntry → Manager → Outcome Ack
run_program fuel v command e m = do
  (first, l) ← first_program m
  found ← search_program fuel command first l m
  elim found [
    | none ↦ ok e.ack
    | some prog ↦ if prog.ls == 0 then fault else ok (v.execute prog.ls e.task e.ack)
  ]

-- stage3; `fuel` is for the search.
unfoldable pub stage3 : ℕ → View → Manager → Outcome Manager
stage3 fuel v m = do
  e ← entry_at m 2
  if e.active
      then (do
        command ← deref (get_elem? e.task 0)
        if command == Messages.add
            then (do
              res ← add_task v.res e.task
              ok (set_entry m 2 (record e { ack = record (e.ack) { retval = res } })))
            else if command == Messages.noop
            then ok m
            else (do
              ack ← run_program fuel v command e m
              ok (set_entry m 2 (record e { ack = ack }))))
      else ok m

-- stage4. A transfer to an acknowledgement outside the memory of the queue is a fault.
unfoldable pub stage4 : Manager → Outcome Manager
stage4 m = do
  e ← entry_at m 3
  if e.active
      then (if ltb e.entry (length m.acks)
          then ok (record (set_entry m 3 (record e { active = false })) {
            out_back = increment m.out_back m.max_entries;
            acks = set m.acks e.entry e.ack;
          })
          else fault)
      else ok m

-- The body of the loop of pipeline behind stage1.
unfoldable pub later_stages : ℕ → View → Manager → Outcome Manager
later_stages fuel v one = do
  two ← stage2 one
  three ← stage3 fuel v two
  four ← stage4 three
  ok (record four { cycle = u32 (four.cycle + 2 ^ 32 - 1) })

-- The body of the loop of pipeline.
unfoldable pub pass : ℕ → View → Manager → Outcome Manager
pass fuel v m = do one ← stage1 v m; later_stages fuel v one

-- pipeline; the views are those of its rounds.
unfoldable pub pipeline : ℕ → List View → Manager → Outcome Manager
pipeline fuel [] m = out_of_fuel
pipeline fuel (v ∷ later) m = do
  done ← pass fuel v m
  let rest = pipeline fuel later done
  if done.front == done.out_back then ok done else rest
