-- ===== src/Thread.antt =====
-- src/spethread.c and include/speutils/spethread.h: the host thread that runs an SPE context. What
-- libspe2, epoll and pthreads answer are arguments.
use speutils_debs.Base.{
  ℕ, zero, suc, ◌+◌, ◌/◌, ◌%◌, Bool, true, false, ◌&&◌, Option, none, some, List, [], ◌∷◌,
  if◌then◌else◌, ◌==◌, Outcome, ok, out_of_fuel, exited, ◌>>=◌, ◌>>◌,
}
use speutils_debs.Messages
pub mod Serve
pub mod Stop
mod Examples

-- enum actions and enum thread_type
abbrev pub thread_exit : ℕ
thread_exit = 0

abbrev pub thread_continue : ℕ
thread_continue = 1

abbrev pub thread_loop : ℕ
thread_loop = 0

abbrev pub thread_run : ℕ
thread_run = 1

-- The two thread functions.
pub data Routine : Type 0 where
  spu_loop : Routine
  spu_once : Routine

-- The fields of struct spu_thread_s that start_spu_thread sets or reads.
pub record SpuThread : Type 0 where
  pub kind : ℕ
  pub runflags : ℕ
  pub entry : ℕ
  pub createflags : ℕ
  pub events : ℕ
  pub has_pipe : Bool
  pub thread_id : ℕ

-- The constants of libspe2.
pub record Spe : Type 0 where
  pub default_entry : ℕ
  pub events_enable : ℕ
  pub mailbox_and_stopped : ℕ
  pub stop_and_signal : ℕ

-- start_spu_thread; `create` is what pthread_create answers for a thread function.
unfoldable pub start_spu_thread : Spe → (Routine → ℕ) → SpuThread → Outcome SpuThread
start_spu_thread spe create spu =
    let looping = spu.kind == thread_loop in
    let id = create (if looping then spu_loop else spu_once) in
    let started = record spu {
      runflags = 0;
      entry = spe.default_entry;
      createflags = spe.events_enable;
      events = spe.mailbox_and_stopped;
      has_pipe = if looping then true else spu.has_pipe;
      thread_id = id;
    } in
    if id == 0 then ok started else exited id

-- How a thread function ends: each way prints its own message, then calls pthread_exit.
pub data Ending : Type 0 where
  load_error : Ending
  run_error : Ending
  epoll_error : Ending
  success : Ending

-- spu_thread; the arguments say whether the program was loaded and whether it ran.
unfoldable pub spu_thread : (loaded ran : Bool) → Ending
spu_thread loaded ran = if loaded then (if ran then success else run_error) else load_error

-- spe_stop_info_t
pub record StopInfo : Type 0 where
  pub reason : ℕ
  pub signal_code : ℕ

-- What one round of the loop meets: the answer of spe_context_run, `none` for a negative one; the word
-- that is read from the mailbox; the descriptors that each epoll_wait reports; the action that is read
-- from the pipe.
pub record Turn : Type 0 where
  pub run : Option StopInfo
  pub mail : ℕ
  pub polls : List (List ℕ)
  pub action : ℕ

-- a & b, as a condition, on the lowest bits
unfoldable pub share_bit : (bits : ℕ) → ℕ → ℕ → Bool
share_bit zero a b = false
share_bit (suc bits) a b =
    if (a % 2 == 1) && (b % 2 == 1) then true else share_bit bits (a / 2) (b / 2)

-- The argument of the callback.
unfoldable pub callback_value : StopInfo → ℕ → ℕ
callback_value info mail =
    if share_bit 32 info.signal_code Messages.read_mbox then mail else info.signal_code

-- for (i = 0 ; i < res ; i++ ) if ( spu->events[i].data.fd == spu->pipe[0] ) …
unfoldable pub reports : ℕ → List ℕ → Bool
reports fd [] = false
reports fd (event ∷ later) = if event == fd then true else reports fd later

-- while (waiting) …
unfoldable pub await_action : ℕ → List (List ℕ) → Outcome (Unit {0})
await_action fd [] = out_of_fuel
await_action fd (events ∷ later) =
    let rest = await_action fd later in if reports fd events then ok tt else rest

-- The loop of spu_loop_thread: the values that the callback gets, and the end.
unfoldable pub serve : Spe → ℕ → List Turn → Outcome (List ℕ × Ending)
serve spe fd [] = out_of_fuel
serve spe fd (t ∷ later) =
    let rest = serve spe fd later in
    elim t.run [
      | none ↦ ok ([], run_error)
      | some info ↦
          if info.reason == spe.stop_and_signal
          then (do
            await_action fd t.polls
            let value = callback_value info t.mail
            if t.action == thread_exit
                then ok (value ∷ [], success)
                else (do (values, ending) ← rest; ok (value ∷ values, ending)))
          else ok ([], success)
    ]

-- spu_loop_thread
unfoldable pub spu_loop_thread :
    Spe → (added loaded : Bool) → ℕ → List Turn → Outcome (List ℕ × Ending)
spu_loop_thread spe added loaded fd turns =
    if added
    then if loaded then serve spe fd turns else ok ([], load_error)
    else ok ([], epoll_error)

-- send_action: what is written to the pipe
unfoldable pub send_action : ℕ → List ℕ
send_action action = action ∷ []
