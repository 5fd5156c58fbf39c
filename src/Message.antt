-- ===== src/Message.antt =====
-- src/spemessage.c: single words through the mailboxes of an SPE. What libspe2 answers to each call
-- is a list in the order of the calls.
use speutils_debs.Base.{
  ℕ, zero, suc, Bool, true, false, List, [], ◌∷◌, ◌&&◌, if◌then◌else◌, ◌==◌, Outcome, ok,
  out_of_fuel, ◌>>=◌,
}
use speutils_debs.Messages
pub mod Retry
mod Examples

-- One spe_event_wait: whether its result is positive, and whether spu->event.events then has the bit
-- SPE_EVENT_OUT_INTR_MBOX.
pub record Wait : Type 0 where
  pub positive : Bool
  pub mailbox : Bool

-- The condition of the else branch.
unfoldable pub is_hit : Wait → Bool
is_hit w = w.positive && w.mailbox

-- while(retries) …: what `retries` is behind the loop
unfoldable pub count_retries : ℕ → List Wait → Outcome ℕ
count_retries zero waits = ok 0
count_retries (suc retries) [] = out_of_fuel
count_retries (suc retries) (w ∷ later) =
    let rest = count_retries retries later in if is_hit w then ok (suc retries) else rest

-- recieve_message_int; `mail` is what spe_out_intr_mbox_read stores.
unfoldable pub recieve_message_int : List Wait → ℕ → Outcome ℕ
recieve_message_int waits mail = do
  retries ← count_retries 10 waits
  ok (if retries == 0 then Messages.stop else mail)

-- send_message: the statuses of the mailbox, then the words that the SPE is given.
unfoldable pub send_message : List ℕ → ℕ → Outcome (List ℕ)
send_message [] message = out_of_fuel
send_message (status ∷ later) message =
    let rest = send_message later message in if status == 0 then rest else ok (message ∷ [])
