-- ===== src/Fifo/Collect.antt =====
-- fifothread: the host thread that takes acknowledged slots back.
use speutils_debs.Base.{
  ℕ, zero, suc, List, [], ◌∷◌, if◌then◌else◌, ◌==◌, get_elem?, set, Outcome, ok, out_of_fuel, deref,
  ◌>>=◌,
}
use speutils_debs.Messages
use speutils_debs.Ring.{inc_back, get_back}
use speutils_debs.Fifo.Port.{Ack, Port, Host}
pub mod Release

-- while (ack[0] != ACK_CLEAR) { … } on one queue
unfoldable pub collect_port : ℕ → Port → Outcome Port
collect_port zero p = out_of_fuel
collect_port (suc fuel) p = do
  let back = get_back p.ring
  ack ← deref (get_elem? p.acks back)
  let cleared = set p.acks back (record ack { task_id = Messages.ack_clear })
  let rest = collect_port fuel (record p { acks = cleared; ring = inc_back p.ring })
  if ack.task_id == Messages.ack_clear then ok p else rest

collect_ports : ℕ → List Port → Outcome (List Port)
collect_ports fuel [] = ok []
collect_ports fuel (p ∷ ps) = do q ← collect_port fuel p; qs ← collect_ports fuel ps; ok (q ∷ qs)

-- One round of the endless loop: every queue in turn.
unfoldable pub fifothread_round : ℕ → Host → Outcome Host
unfolding collect_ports
fifothread_round fuel host = do
  ports ← collect_ports fuel host.ports
  ok (record host { ports = ports })
