-- ===== src/Fifo/Submit.antt =====
-- fifoBegin, fifoAdd, send_front, fifoKick, fifoNoop, fifo_addition, fifoRegisterProgram.
use speutils_debs.Base.{
  ℕ, zero, suc, ◌+◌, ◌/◌, ◌^◌, Bool, true, false, Option, none, some, List, [], ◌∷◌, if◌then◌else◌,
  ◌==◌, u32, Outcome, ok, fault, out_of_fuel, deref, ◌>>=◌,
}
use speutils_debs.Messages
use speutils_debs.Ring.{inc_front, get_front}
use speutils_debs.Fifo.Port.{Port, Atomic, Host, port, set_port, put, open_slot, put_next}
use speutils_debs.Fifo.Select.{select_fifo}
pub mod Task
pub mod Kick
pub mod Overrun

-- if (!hostfifo.isKicked[spe]) ringIncFront(hostfifo.ringCTX[spe]);
unfoldable pub skip_unkicked : Port → Port
skip_unkicked p = if p.is_kicked then p else record p { ring = inc_front p.ring }

-- What fifoBegin does to the port that it has selected.
unfoldable pub begin_port : ℕ → ℕ → Port → Outcome Port
begin_port command handle p = do
  q ← put_next command (open_slot (skip_unkicked p))
  put_next handle q

-- fifoBegin; `fuel` is for the loop of selectfifo.
unfoldable pub fifo_begin : ℕ → ℕ → ℕ → Host → Outcome (ℕ × Host)
fifo_begin fuel command handle host = do
  (spe, chosen) ← select_fifo fuel host
  p ← port chosen spe
  q ← begin_port command handle p
  ok (spe, set_port chosen spe q)

-- fifoAdd: an argument for which the slot has no room is dropped.
unfoldable pub add_port : ℕ → Port → Outcome Port
add_port arg p = if u32 (p.entry_count + 1) == Messages.task_words then ok p else put_next arg p

unfoldable pub fifo_add : ℕ → ℕ → Host → Outcome Host
fifo_add spe arg host = do p ← port host spe; q ← add_port arg p; ok (set_port host spe q)

-- send_front. `stored` lists what each __stwcx returns, until one succeeds: then the front of the
-- ring has become the `count` of the shared line. Its `state` is set on every try.
unfoldable pub send_front : List Bool → Port → Outcome Port
send_front [] p = out_of_fuel
send_front (stored ∷ later) p =
    let message = get_front p.ring in
    let state = if p.atomic.state == 1 then p.atomic.state else 1 in
    let retry = send_front later (record p { atomic = record (p.atomic) { state = state } }) in
    if stored then ok (record p { atomic = record { count = message; state = state } }) else retry

unfoldable pub kick_port : List Bool → Port → Outcome Port
kick_port stored p = do
  q ← send_front stored p
  ok (record q { is_kicked = true; ring = inc_front q.ring })

-- fifoKick
unfoldable pub fifo_kick : List Bool → ℕ → Host → Outcome Host
fifo_kick stored spe host = do p ← port host spe; q ← kick_port stored p; ok (set_port host spe q)

abbrev pub internal_handle : ℕ
internal_handle = 0x1ee7C0DE

-- fifoNoop
unfoldable pub fifo_noop : ℕ → List Bool → Host → Outcome Host
fifo_noop fuel stored host = do
  (spe, begun) ← fifo_begin fuel Messages.noop internal_handle host
  fifo_kick stored spe begun

-- fifo_addition
unfoldable pub fifo_addition : ℕ → List Bool → ℕ → Host → Outcome Host
fifo_addition fuel stored adds host = do
  (spe, begun) ← fifo_begin fuel Messages.add internal_handle host
  one ← fifo_add spe adds begun
  two ← fifo_add spe 0x01 one
  three ← fifo_add spe 0x02 two
  fifo_kick stored spe three

-- The body of the loop of fifoRegisterProgram.
unfoldable pub register_port : List Bool → ℕ → ℕ → Port → Outcome Port
register_port stored addr size p = do
  a ← put_next Messages.register_program (open_slot p)
  b ← put_next size a
  c ← put_next (addr / 2 ^ 32) b
  d ← put_next addr c
  kick_port stored d

register_ports : List Bool → ℕ → ℕ → List Port → Outcome (List Port)
register_ports stored addr size [] = ok []
register_ports stored addr size (p ∷ ps) = do
  q ← register_port stored addr size p
  qs ← register_ports stored addr size ps
  ok (q ∷ qs)

-- fifoRegisterProgram: every queue gets the task; the result is the lower half of the address.
unfoldable pub fifo_register_program : List Bool → ℕ → ℕ → Host → Outcome (ℕ × Host)
unfolding register_ports
fifo_register_program stored addr size host = do
  ports ← register_ports stored addr size host.ports
  ok (u32 addr, record host { ports = ports })
