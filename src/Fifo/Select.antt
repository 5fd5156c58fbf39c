-- ===== src/Fifo/Select.antt =====
-- selectfifo: the next SPE, in turn, whose queue has a free slot.
use speutils_debs.Base.{
  ℕ, zero, suc, ◌+◌, Bool, List, leb, if◌then◌else◌, get_elem?, Outcome, ok, out_of_fuel, deref,
  ◌>>=◌,
}
use speutils_debs.Ring.{has_free}
use speutils_debs.Fifo.Port.{Port, Host}
pub mod Turn

-- current_spe++; if ( current_spe >= hostfifo.spes ) current_spe=0;
unfoldable pub advance : ℕ → ℕ → ℕ
advance spes current = if leb spes (current + 1) then 0 else current + 1

-- while(!ringHasFree(hostfifo.ringCTX[current_spe])) …
unfoldable pub select_from : ℕ → ℕ → List Port → ℕ → Outcome ℕ
select_from zero spes ports current = out_of_fuel
select_from (suc fuel) spes ports current = do
  p ← deref (get_elem? ports current)
  let rest = select_from fuel spes ports (advance spes current)
  if has_free p.ring then ok current else rest

-- Every value of `scheme` takes the same branch of the switch. The result is the new current_spe,
-- which is also returned.
unfoldable pub select_fifo : ℕ → Host → Outcome (ℕ × Host)
select_fifo fuel host = do
  spe ← select_from fuel host.spes host.ports (advance host.spes host.current_spe)
  ok (spe, record host { current_spe = spe })
