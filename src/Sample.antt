-- ===== src/Sample.antt =====
-- The programs of example: example1.c with spu_example1.c, and the loop of example2.c.
use speutils_debs.Base.{
  ℕ, zero, suc, ◌+◌, ◌%◌, ◌^◌, Bool, true, false, Option, none, some, List, [], ◌∷◌, ◌++◌, ◌==◌,
  if◌then◌else◌, u32, Outcome, ok, fault, out_of_fuel, deref, ◌>>=◌,
}
use speutils_debs.Messages
use speutils_debs.Message.{Wait, recieve_message_int, send_message}
use speutils_debs.Mailbox.{send_message_int, wait_for_message_poll}
use speutils_debs.Thread.{thread_exit, thread_continue, send_action}
pub mod Ends
pub mod Actions
pub mod Wakeup
pub mod Mains
mod Examples

-- (cptr[0] == 'y' ) || ( cptr[0] == 'Y')
unfoldable pub is_yes : ℕ → Bool
is_yes c = if c == 121 then true else c == 89

-- What a round of the host's loop meets: the waits and the word for recieve_message_int, the first
-- character of the line that fgets reads, `none` at the end of the input, and the statuses for
-- send_message.
pub record Question : Type 0 where
  pub waits : List Wait
  pub mail : ℕ
  pub line : Option ℕ
  pub statuses : List ℕ

-- The loop of main in example1.c: the words that the SPE is sent. The headers do not define RUN.
unfoldable pub ask_loop : ℕ → List Question → Outcome (List ℕ)
ask_loop run [] = out_of_fuel
ask_loop run (q ∷ later) = do
  let rest = ask_loop run later
  msg ← recieve_message_int q.waits q.mail
  c ← deref q.line
  if is_yes c
      then (do sent ← send_message q.statuses run; more ← rest; ok (sent ++ more))
      else send_message q.statuses Messages.stop

-- What a round of the SPE's loop meets: the statuses for send_message_int and for
-- wait_for_message_poll, and the word in the mailbox.
pub record Poll : Type 0 where
  pub outs : List ℕ
  pub ins : List ℕ
  pub mail : ℕ

-- The loop of main in spu_example1.c: what ex1->myint is at its end. `address` is where the parameter of
-- send_message_int lies, and `ready` is RDY.
unfoldable pub count_loop : (address ready : ℕ) → List Poll → ℕ → Outcome ℕ
count_loop address ready [] myint = out_of_fuel
count_loop address ready (p ∷ later) myint = do
  let rest = count_loop address ready later (u32 (myint + 1))
  written ← send_message_int p.outs address ready
  msg ← wait_for_message_poll p.ins p.mail
  if msg == Messages.stop then ok myint else rest

-- The loop of main in example2.c: the actions that it writes to the thread's pipe. Each line is read
-- behind the wait of its round, and the list ends before a wait that does not end.
unfoldable pub action_loop : List (Option ℕ) → Outcome (List ℕ)
action_loop [] = out_of_fuel
action_loop (line ∷ later) = do
  let rest = action_loop later
  c ← deref line
  if is_yes c
      then (do actions ← rest; ok (send_action thread_continue ++ actions))
      else ok (send_action thread_exit)

-- The loop of main in spu_example2.c, which has no end: the values of ex2->myint, a uint8_t, that it
-- prints before each of the stops of as many rounds.
unfoldable pub counter_loop : (rounds myint : ℕ) → List ℕ
counter_loop zero myint = []
counter_loop (suc rounds) myint = myint ∷ counter_loop rounds ((myint + 1) % 2 ^ 8)
