-- ===== src/Fifo/Examples/Hosts.antt =====
-- spefifo.c: a host with two queues, one of which is full.
use mathlib.Core.Path.{subst}
use speutils_debs.Base.{
  ℕ, zero, suc, ◌≡◌, refl, ◌↔◌, true, false, some, [], ◌∷◌, arith, get_elem?, inl, inr,
}
use speutils_debs.Messages
use speutils_debs.Fifo.Port.{Port, Host}
use speutils_debs.Fifo.Submit.{fifo_addition, internal_handle}
use speutils_debs.Fifo.Drained.{fifo_is_empty, NoneUsed, fifo_is_empty-NoneUsed}
use speutils_debs.Fifo.Tasks.Turns.{IsOpen, IsHost, Given, fifo_addition-Given}
use speutils_debs.Fifo.Examples.{
  empty, busy, full, busy-IsSettled, full-IsSettled, busy-free, slots_four,
}

abbrev host : Host
host = record { spes = 2; scheme = 0; ports = full ∷ busy ∷ []; current_spe = 1 }

full-IsOpen : IsOpen full
full-IsOpen = record { settled = full-IsSettled; kicked = refl; slots = slots_four }

busy-IsOpen : IsOpen busy
busy-IsOpen = record { settled = busy-IsSettled; kicked = refl; slots = slots_four }

host-IsOpen : (i : ℕ) (p : Port) → get_elem? host.ports i ≡ some p → IsOpen p
host-IsOpen zero p h = let same : full ≡ p = cc in subst IsOpen same full-IsOpen
host-IsOpen (suc zero) p h = let same : busy ≡ p = cc in subst IsOpen same busy-IsOpen
host-IsOpen (suc (suc i)) p h = absurd (cc)

host-IsHost : IsHost host
host-IsHost = record { all_spes = refl; current_in = omega arith; ready = host-IsOpen }

fifo_addition-Given_example :
    Given host
      (false ∷ true ∷ [])
      Messages.add
      internal_handle
      (9 ∷ 1 ∷ 2 ∷ [])
      (fifo_addition 2 (false ∷ true ∷ []) 9 host)
fifo_addition-Given_example =
    fifo_addition-Given (false ∷ true ∷ []) host 1 9 (inr (inl refl)) host-IsHost (omega arith)
      (busy, refl, busy-free)

abbrev idle_host : Host
idle_host = record host { ports = empty ∷ empty ∷ [] }

fifo_is_empty-NoneUsed_example : (fifo_is_empty host ≡ true) ↔ NoneUsed (full ∷ busy ∷ [])
fifo_is_empty-NoneUsed_example =
    fifo_is_empty-NoneUsed host (full-IsSettled.valid, (busy-IsSettled.valid, tt))
