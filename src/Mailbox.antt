-- ===== src/Mailbox.antt =====
-- include/speutils/spu_message.h: single words on the SPE's side of its mailboxes. What the channels
-- answer to each call is a list in the order of the calls.
use speutils_debs.Base.{ℕ, List, [], ◌∷◌, ◌==◌, if◌then◌else◌, u32, Outcome, ok, out_of_fuel}
pub mod Trip
mod Examples

-- send_message: the words that are written. `address` is where the parameter `message` lies, and what
-- `&message` stands for.
unfoldable pub send_message : List ℕ → (address message : ℕ) → Outcome (List ℕ)
send_message [] address message = out_of_fuel
send_message (status ∷ later) address message =
    let rest = send_message later address message in
    if status == 0 then rest else ok (u32 address ∷ [])

-- send_message_int
unfoldable pub send_message_int : List ℕ → (address message : ℕ) → Outcome (List ℕ)
send_message_int [] address message = out_of_fuel
send_message_int (status ∷ later) address message =
    let rest = send_message_int later address message in
    if status == 0 then rest else ok (u32 address ∷ [])

-- wait_for_message_poll; `mail` is what spu_read_in_mbox returns.
unfoldable pub wait_for_message_poll : List ℕ → ℕ → Outcome ℕ
wait_for_message_poll [] mail = out_of_fuel
wait_for_message_poll (status ∷ later) mail =
    let rest = wait_for_message_poll later mail in if status == 0 then rest else ok mail

-- check_for_message
unfoldable pub check_for_message : ℕ → ℕ
check_for_message status = status
