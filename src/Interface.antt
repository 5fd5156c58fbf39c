-- ===== src/Interface.antt =====
-- tst/task_iface.c: the test that fills the queues and waits until they are empty.
use mathlib.Core.Path.{subst}
use speutils_debs.Base.{
  ℕ, zero, suc, ◌+◌, ◌-◌, ◌*◌, ◌/◌, ◌^◌, ◌≤◌, ◌<◌, ◌≡◌, refl, sym, ap, ◌∙◌, Bool, true, false, some,
  List, [], ◌∷◌, arith, get_elem?, get_or, length, ltb, ◌==◌, if◌then◌else◌, u32, Outcome, ok,
  out_of_fuel, ◌>>=◌, ◌>>◌, >>=_inverse,
}
use speutils_debs.Messages
use speutils_debs.Thread.{Spe, Routine, SpuThread, start_spu_thread, thread_loop, spu_loop}
use speutils_debs.Ring.{init_context}
use speutils_debs.Ring.Count.{used}
use speutils_debs.Ring.Pending.{pending, window}
use speutils_debs.Fifo.Port.{Slot, Port, Host}
use speutils_debs.Fifo.Init.{Blocks, clear_acks, init_port, init_ports, fifo_init}
use speutils_debs.Fifo.Init.Ready.{IsReady, AllReady, fifo_init-AllReady}
use speutils_debs.Fifo.Submit.Kick.{SomeStored}
use speutils_debs.Fifo.Submit.Task.{HasSlot}
use speutils_debs.Fifo.Tasks.Turns.{IsHost, IsOpen}
use speutils_debs.Fifo.Tasks.Repeat.{
  noop_loop, addition_loop, total, room, occupied, Grown, loops-Grown,
}
use speutils_debs.Fifo.Drained.{fifo_is_empty}
pub mod Start
pub mod Fits
pub mod Ends
mod Examples

-- What the program is called with: the numbers that atoi gives for the words of the command line.
pub record Options : Type 0 where
  pub spes : ℕ
  pub ops : ℕ
  pub kind : ℕ
  pub arg : ℕ

-- The variables of main with their defaults, and if (narg >= 2) spes=atoi(argc[1]); …
unfoldable pub options_of : List ℕ → Options
options_of words = record {
  spes = get_or words 0 1;
  ops = get_or words 1 1;
  kind = get_or words 2 0;
  arg = get_or words 3 1000;
}

-- i < spes*ops, for an int
unfoldable pub rounds : Options → ℕ
rounds o = let n = u32 (o.spes * o.ops) in if ltb n (2 ^ 31) then n else 0

-- switch(type)
unfoldable pub submit_all : ℕ → (ℕ → List Bool) → Options → Host → Outcome Host
submit_all fuel tries o host =
    if o.kind == 0
    then noop_loop (rounds o) 0 fuel tries host
    else if o.kind == 1
    then addition_loop (rounds o) 0 fuel o.arg tries host
    else ok host

-- while(!fifoIsEmpty()); on what it sees in each round
unfoldable pub await_empty : List Host → Outcome (Unit {0})
await_empty [] = out_of_fuel
await_empty (host ∷ later) =
    let rest = await_empty later in if fifo_is_empty host then ok tt else rest

module _ (spe : Spe) (create : Routine → ℕ) (spu : SpuThread) (blocks : ℕ → Blocks)
    (tries : ℕ → List Bool) where
  -- main up to its last loop
  unfoldable pub fill_queues : Options → Outcome Host
  fill_queues o = do
    host ← fifo_init spe create blocks spu (128 * 128) o.spes Messages.round_robin
    submit_all o.spes tries o host

  -- main; `seen` says what the last loop sees on the host that it starts with.
  unfoldable pub task_iface : (Host → List Host) → Options → Outcome (Unit {0})
  task_iface seen o = do host ← fill_queues o; await_empty (seen host)
