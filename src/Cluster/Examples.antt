-- ===== src/Cluster/Examples.antt =====
-- Two queues of four slots with their SPEs: the second queue gets a task, and its SPE fetches it.
use speutils_debs.Base.{
  ℕ, zero, suc, ◌≡◌, refl, inl, inr, true, false, none, some, [], ◌∷◌, arith, get_elem?, replicate,
  ok,
}
use mathlib.Core.Path.{subst}
use speutils_debs.Messages
use speutils_debs.Ring.{has_free, inc_front, get_front}
use speutils_debs.Thread.{Spe, SpuThread}
use speutils_debs.Fifo.Port.{Port, Host, port, set_port, open_slot, put, put_next}
use speutils_debs.Fifo.Drained.{fifo_is_empty}
use speutils_debs.Fifo.Init.{Blocks, fifo_init}
use speutils_debs.Fifo.Select.{advance, select_from, select_fifo}
use speutils_debs.Fifo.Submit.{
  internal_handle, begin_port, add_port, skip_unkicked, send_front, kick_port, fifo_begin, fifo_add,
  fifo_kick, fifo_addition,
}
use speutils_debs.Fifo.Tasks.Turns.{IsHost, Given}
use speutils_debs.System.Start.{IsStart}
use speutils_debs.System.Examples.{
  adding, port0, port1, held, first, first-IsStart, third, second-third,
}
use speutils_debs.Cluster.{
  Cluster, view, put_view, Toils, toils_at, adds, toils, Course, begins, moves,
}
use speutils_debs.Cluster.Views.{IsFirst, Passed, Course-view}
use speutils_debs.Cluster.Drains.{Course-drains}
use speutils_debs.Cluster.Start.{Local, boot, fifo_init-IsFirst}

abbrev both : Cluster
both = record {
  host = record { spes = 2; scheme = 0; ports = port0 ∷ port0 ∷ []; current_spe = 0 };
  managers = λ i. first.manager;
  fetched = λ i. false;
}

both-IsStart : (i : ℕ) (p : Port) → get_elem? both.host.ports i ≡ some p → IsStart 4 (view both p i)
both-IsStart zero p at =
    let same : port0 ≡ p = cc in subst (λ q. IsStart 4 (view both q 0)) same first-IsStart
both-IsStart (suc zero) p at =
    let same : port0 ≡ p = cc in subst (λ q. IsStart 4 (view both q 1)) same first-IsStart
both-IsStart (suc (suc i)) p at = absurd (cc)

both-IsFirst : IsFirst 4 both
both-IsFirst = record { all_spes = refl; current_in = omega arith; starts = both-IsStart }

abbrev given : Host
given = record { spes = 2; scheme = 0; ports = port0 ∷ port1 ∷ []; current_spe = 1 }

both-given : fifo_addition 2 (false ∷ true ∷ []) 5 both.host ≡ ok given
unfolding fifo_addition fifo_begin fifo_add fifo_kick select_fifo select_from advance port set_port
    has_free begin_port add_port skip_unkicked send_front kick_port open_slot put put_next inc_front
    get_front
both-given = refl

abbrev fetching : Cluster
fetching = put_view (record both { host = given }) 1 third

both-fetching : Course both fetching
unfolding has_free
both-fetching =
    moves
      (moves begins (
        adds (false ∷ true ∷ []) 5 0 given (inr (inl refl)) (omega arith) (port0, refl, refl)
          both-given refl))
      (toils (toils_at 1 port1 third refl second-third refl))

Course-view_example : Passed both 1 (view fetching port1 1) × IsHost fetching.host
Course-view_example = Course-view 4 both fetching 1 port1 both-IsFirst both-fetching refl

Course-drains_example :
    (u : Cluster) × Toils fetching u
    × (fifo_is_empty u.host ≡ true)
    × Given u.host
        (true ∷ [])
        Messages.add
        internal_handle
        (7 ∷ 1 ∷ 2 ∷ [])
        (fifo_addition u.host.spes (true ∷ []) 7 u.host)
Course-drains_example =
    Course-drains 4 7 (true ∷ []) both fetching both-IsFirst both-fetching (omega arith) (inl refl)

abbrev spe : Spe
spe = record { default_entry = 1; events_enable = 2; mailbox_and_stopped = 3; stop_and_signal = 4 }

abbrev thread : SpuThread
thread = record {
  kind = 9;
  runflags = 9;
  entry = 9;
  createflags = 9;
  events = 9;
  has_pipe = false;
  thread_id = 9;
}

abbrev blocks : ℕ → Blocks
blocks i = record {
  tasks = replicate 4 adding;
  acks = replicate 4 (record { task_id = i; retval = i; callback = i });
}

abbrev local : ℕ → Local
local i = record { held = held; heap = λ p. none; program = λ p. none }

fifo_init-IsFirst_example :
    (host : Host) × (fifo_init spe (λ r. 0) (λ i. blocks i) thread 512 2 0 ≡ ok host)
    × IsFirst 4 (boot host local)
fifo_init-IsFirst_example =
    fifo_init-IsFirst spe (λ r. 0) thread 512 refl (omega arith) (omega arith) blocks local 2 0
      (λ i. refl) (λ i. first-IsStart.tasks) (λ i j e. absurd (omega (arith, e))) (omega arith)
      (omega arith)
