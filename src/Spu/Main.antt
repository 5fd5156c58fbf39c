-- ===== src/Spu/Main.antt =====
-- spu/src/spu_taskmanager.c: the loop of main.
use speutils_debs.Base.{
  ℕ, ◌≡◌, refl, List, [], ◌∷◌, if◌then◌else◌, ◌==◌, Outcome, ok, fault, exited, out_of_fuel, ◌>>=◌,
  >>=_assoc, >>=_under, sym, ◌∙◌,
}
use speutils_debs.Messages
use speutils_debs.Spu.State.{Manager, View}
use speutils_debs.Spu.Stages.{pipeline}

-- enum states, of which main uses WAIT and SNOOZE
pub data State : Type 0 where
  wait : State
  fetch : State
  store : State
  work : State
  snooze : State

-- The variables of main: current_state, current_task, and the task manager's.
pub record Control : Type 0 where
  pub state : State
  pub task : ℕ
  pub manager : Manager

-- The initial values of the two static variables, and the assignment current_state=WAIT.
unfoldable pub start_control : Manager → Control
start_control m = record { state = wait; task = 0; manager = m }

-- The switch of the loop, with the views of the rounds of pipeline. A message and a stop of the SPE in
-- the state SNOOZE leave the variables alone.
unfoldable pub switch : ℕ → List View → State → Manager → Outcome Manager
switch fuel views wait m = pipeline fuel views m
switch fuel views fetch m = ok m
switch fuel views store m = ok m
switch fuel views work m = ok m
switch fuel views snooze m = ok m

-- The body of the loop.
unfoldable pub main_round : ℕ → List View → Control → Outcome Control
main_round fuel views c = do m ← switch fuel views c.state c.manager; ok (record c { manager = m })

-- while (current_task != 0xCAFEBABE), with the views of each call of pipeline
unfoldable pub main_loop : ℕ → List (List View) → Control → Outcome Control
main_loop fuel [] c = out_of_fuel
main_loop fuel (views ∷ later) c = do
  next ← main_round fuel views c
  let rest = main_loop fuel later next
  if next.task == Messages.stop then ok next else rest

-- Calls of pipeline, one behind the other.
unfoldable pub pipelines : ℕ → List (List View) → Manager → Outcome Manager
pipelines fuel [] m = ok m
pipelines fuel (views ∷ later) m = do n ← pipeline fuel views m; pipelines fuel later n

-- The rest of the loop behind a call of pipeline.
unfoldable rest_of : ℕ → List (List View) → Outcome Manager → Outcome Control
rest_of fuel later first = do
  m ← first
  let rest = main_loop fuel later (start_control m)
  if (start_control m).task == Messages.stop then ok (start_control m) else rest

main_loop-rest_of :
    (fuel : ℕ) (views : List View) (later : List (List View)) (m : Manager)
    → main_loop fuel (views ∷ later) (start_control m) ≡ rest_of fuel later (pipeline fuel views m)
unfolding main_loop main_round start_control switch rest_of
main_loop-rest_of fuel views later m =
    sym (>>=_assoc (pipeline fuel views m) (λ n. ok (start_control n)) _)

rest_of-on :
    (fuel : ℕ) (later : List (List View)) (first : Outcome Manager)
    → rest_of fuel later first ≡ (first >>= λ n. main_loop fuel later (start_control n))
unfolding rest_of start_control
rest_of-on fuel later (ok m) = refl
rest_of-on fuel later fault = refl
rest_of-on fuel later out_of_fuel = refl
rest_of-on fuel later (exited status) = refl

-- The loop of main does nothing but call pipeline, and no number of calls brings it to its end: nothing
-- assigns current_task, whose first value is not 0xCAFEBABE. For any number of rounds, it goes on behind
-- them if all these calls of pipeline return, and otherwise ends as the first that does not, such as by
-- a fault.
pub main_loop-pipelines :
    (fuel : ℕ) (views : List (List View)) (m : Manager)
    → main_loop fuel views (start_control m) ≡ (pipelines fuel views m >>= λ n. out_of_fuel)
unfolding main_loop pipelines
main_loop-pipelines fuel [] m = refl
main_loop-pipelines fuel (views ∷ later) m =
    main_loop-rest_of fuel views later m
    ∙ rest_of-on fuel later (pipeline fuel views m)
    ∙ >>=_under (pipeline fuel views m) (λ n. pipelines fuel later n) (λ n. out_of_fuel)
        (main_loop-pipelines fuel later)
