-- ===== src/Sample/Wakeup.antt =====
-- example2.c and spu_loop_thread together: the condition variable and the pipe between them. The SPE
-- stops with a signal again and again, as spu_example2.c does; a wait on the condition variable ends by
-- a broadcast only.
use speutils_debs.Base.{ℕ, ◌≡◌, ◌≢◌, ◌↔◌, ◌⊎◌, refl, inl, inr, List, [], ◌∷◌, ◌++◌, arith}
use speutils_debs.Thread.{thread_exit, thread_continue, send_action}
pub mod Legal
pub mod Stuck

-- Where main is: before pthread_cond_wait, in it, before fgets, behind the loop.
pub data HostAt : Type 0 where
  arriving : HostAt
  waiting : HostAt
  asking : HostAt
  left_loop : HostAt

-- Where spu_loop_thread is: in spe_context_run, before the callback, before the action is read, at its
-- end.
pub data ThreadAt : Type 0 where
  running : ThreadAt
  calling : ThreadAt
  polling : ThreadAt
  exited : ThreadAt

-- With the actions that are in the pipe.
pub record Pair : Type 0 where
  pub host : HostAt
  pub thread : ThreadAt
  pub pipe : List ℕ

abbrev pub first : Pair
first = record { host = arriving; thread = running; pipe = [] }

-- pthread_cond_broadcast in the callback wakes main if it waits, and is lost otherwise.
abbrev pub woken : HostAt → HostAt
woken arriving = arriving
woken waiting = asking
woken asking = asking
woken left_loop = left_loop

pub data Step (s t : Pair) : Type 0 where
  -- spe_context_run returns.
  stops : s.thread ≡ running → t ≡ record s { thread = calling } → Step s t
  -- The callback.
  broadcasts :
      s.thread ≡ calling → t ≡ record s { thread = polling; host = woken s.host } → Step s t
  -- The action is read from the pipe.
  goes_on :
      (later : List ℕ) (action : ℕ)
      → s.thread ≡ polling
      → s.pipe ≡ action ∷ later
      → action ≢ thread_exit
      → t ≡ record s { thread = running; pipe = later }
      → Step s t
  exits :
      (later : List ℕ)
      → s.thread ≡ polling
      → s.pipe ≡ thread_exit ∷ later
      → t ≡ record s { thread = exited; pipe = later }
      → Step s t
  -- pthread_cond_wait begins.
  waits : s.host ≡ arriving → t ≡ record s { host = waiting } → Step s t
  -- A line with y, and another one.
  agrees :
      s.host ≡ asking
      → t ≡ record s { host = arriving; pipe = s.pipe ++ send_action thread_continue }
      → Step s t
  refuses :
      s.host ≡ asking
      → t ≡ record s { host = left_loop; pipe = s.pipe ++ send_action thread_exit }
      → Step s t

pub data Reach (s : Pair) : Pair → Type 0 where
  here : Reach s s
  go : {t u : Pair} → Reach s t → Step t u → Reach s u

-- The thread is behind its callback and waits for an action, but main waits for the next callback.
abbrev pub lost : Pair
lost = record { host = waiting; thread = polling; pipe = [] }

abbrev pub over : Pair
over = record { host = left_loop; thread = exited; pipe = [] }
