-- ===== src/Sample/Mains.antt =====
-- example1.c and example2.c: main from the start of the thread to its end. Of the fields of sput that it
-- sets, the model has the type: the others are for the SPE program and the callback.
use speutils_debs.Base.{
  ℕ, ◌≡◌, ◌≢◌, refl, inl, inr, true, false, Option, List, [], ◌∷◌, ◌++◌, Bool-cases, length,
  if◌then◌else◌, ◌==◌, u32, Outcome, ok, fault, exited, ◌>>=◌,
}
use speutils_debs.Thread.{
  thread_loop, thread_run, Routine, spu_loop, spu_once, SpuThread, Spe, start_spu_thread,
}
use speutils_debs.Thread.Stop.{Held, freed, ended, free_events, stop_spu_thread, close-others}
use speutils_debs.Sample.{Question, ask_loop, action_loop}
use speutils_debs.Sample.Ends.{IsAsked, AllYes, ask_loop-words}
use speutils_debs.Sample.Actions.{IsLine, AllLines, actions, action_loop-actions}

-- What the system answers: pthread_create for each thread function, the address of sput.pipe, and the
-- descriptors that the thread has got when it has ended.
pub record Answers : Type 0 where
  pub spe : Spe
  pub create : Routine → ℕ
  pub array : ℕ
  pub epoll : ℕ
  pub read_end : ℕ
  pub write_end : ℕ

-- None of the descriptors is the number that sput.pipe is as an argument of close.
pub record IsApart (a : Answers) : Type 0 where
  pub epoll : a.epoll ≢ u32 a.array
  pub read_end : a.read_end ≢ u32 a.array
  pub write_end : a.write_end ≢ u32 a.array

abbrev stop : Answers → SpuThread → Outcome Held
stop a started = stop_spu_thread a.array (ended started a.epoll a.read_end a.write_end)

-- What is held of a looping thread at the end.
abbrev pub left : Answers → Held
left a = record {
  joined = true;
  registered = false;
  handler = false;
  context = false;
  events = freed;
  descriptors = a.epoll ∷ a.read_end ∷ a.write_end ∷ [];
}

-- main of example1.c: the words that the SPE was sent, and what is held of the thread. `sput` is what the
-- memory of the structure held.
unfoldable pub example1 : Answers → ℕ → SpuThread → List Question → Outcome (List ℕ × Held)
example1 a run sput questions = do
  started ← start_spu_thread a.spe a.create (record sput { kind = thread_run })
  sent ← ask_loop run questions
  held ← stop a started
  ok (sent, held)

-- main of example2.c, with the actions that the thread was sent. Each line is read behind the wait of
-- its round: a wait that does not end is the end of the list, without fuel.
unfoldable pub example2 : Answers → SpuThread → List (Option ℕ) → Outcome (List ℕ × Held)
example2 a sput lines = do
  started ← start_spu_thread a.spe a.create (record sput { kind = thread_loop })
  sent ← action_loop lines
  held ← stop a started
  ok (sent, held)

-- When, in some rounds, a word is received, a line that begins with y or Y is read and the mailbox gets
-- ready, and in the next round the same with another line: main of example1 ends the process with the
-- status of pthread_create if the thread cannot be created, and frees a pointer without a value
-- otherwise, whatever the memory of its thread structure held.
pub example1-frees :
    (a : Answers) (run : ℕ) (sput : SpuThread) (questions : List Question) (last : Question)
    (later : List Question)
    → AllYes questions
    → IsAsked false last
    → example1 a run sput (questions ++ last ∷ later)
      ≡ (if a.create spu_once == 0 then fault else exited (a.create spu_once))
unfolding example1 start_spu_thread stop_spu_thread free_events
example1-frees a run sput questions last later all no_line =
    elim (Bool-cases (a.create spu_once == 0)) [
      | inl created ↦ rw created (rw (ask_loop-words run questions last later all no_line) refl)
      | inr failed ↦ rw failed refl
    ]

-- When some lines that begin with y or Y are read and then another one, and none of the descriptors is
-- the number of the address of the pipe: main of example2 ends the process with the status of
-- pthread_create if the thread cannot be created. Otherwise it returns, has sent THREAD_CONTINUE for
-- each of these lines and then THREAD_EXIT, and everything of the thread is released but its three
-- descriptors.
pub example2-returns :
    (a : Answers) (sput : SpuThread) (lines : List (Option ℕ)) (last : Option ℕ)
    (later : List (Option ℕ))
    → IsApart a
    → AllLines lines
    → IsLine false last
    → example2 a sput (lines ++ last ∷ later) ≡ (
        if a.create spu_loop == 0
        then ok (actions (length lines), left a)
        else exited (a.create spu_loop))
unfolding example2 start_spu_thread stop_spu_thread free_events
example2-returns a sput lines last later apart all no_line =
    elim (Bool-cases (a.create spu_loop == 0)) [
      | inl created ↦ rw created (
          rw (action_loop-actions lines last later all no_line) (
            rw
              (close-others (u32 a.array) a.epoll a.read_end a.write_end apart.epoll apart.read_end
                apart.write_end)
              refl))
      | inr failed ↦ rw failed refl
    ]
