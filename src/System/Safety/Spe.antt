-- ===== src/System/Safety/Spe.antt =====
-- The turns of the SPE return and keep the invariant.
use mathlib.Core.Path.{subst}
use speutils_debs.Base.{
  ℕ, ◌+◌, ◌^◌, ◌<◌, ◌≡◌, refl, sym, ap, true, false, not, ◌==◌, List, some, arith, get_elem?, ok,
  set, if◌then◌else◌,
}
use speutils_debs.Fifo.Port.{Ack}
use speutils_debs.Spu.State.{PipeEntry, Manager, View}
use speutils_debs.Spu.Stages.{stage1, later_stages}
use speutils_debs.Spu.Retire.{idle, IsAdd}
use speutils_debs.System.{System, shared}
use speutils_debs.System.Invariant.{Counts, HostSide, Tasks, IsSystem, load}
use speutils_debs.Spu.Drain.Flight.{bit}
use speutils_debs.System.Moves.Spe.{counts_fetched, fetch-Fetched}
use speutils_debs.System.Moves.Later.{counts_finished, finish-Finished}
use speutils_debs.System.Safety.{Stands, SpuSide-other}

module _ (size : ℕ) (c : Counts) (s : System) (i : IsSystem size c s) where
  -- stage1 returns, and keeps the invariant.
  pub fetch-IsSystem :
      (v : View)
      → v.line ≡ s.port.atomic
      → v.tasks ≡ s.port.tasks
      → s.fetched ≡ false
      → (m : Manager) × (f0 : PipeEntry) × (stage1 v (shared s) ≡ ok m)
        × (j : IsSystem size (counts_fetched c f0) (record s { manager = m; fetched = true }))
        × (f0.active ≡ not (c.fetched == c.submitted))
        × (load j + bit f0.active ≡ load i)
        × (Stands j f0 i.e1 i.e2 i.e3
            × (f0.active ≡ true → get_elem? v.tasks s.manager.in_back ≡ some f0.task))
  fetch-IsSystem v line tasks early =
      let spu =
        SpuSide-other size c c.collected c.submitted s.manager s.port.acks i.e0 i.e1 i.e2 i.e3
          (λ e. e) i.spu in
      let (m, f0, (runs, spu', ordered, acks, active, holds)) =
        fetch-Fetched size c s.port v (shared s) i.e0 i.e1 i.e2 i.e3 i.ordered i.host line spu
          (i.turn early) (subst (Tasks size c.fetched c.submitted) (sym tasks) i.tasks) in
      (
        m,
        f0,
        runs,
        record {
          ordered = ordered;
          host = host_again f0 i.host;
          tasks = record {
            holds = i.tasks.holds;
            adding = λ k from to. i.tasks.adding k (omega (arith, from)) to;
          };
          acks = i.acks;
          e0 = f0;
          e1 = i.e1;
          e2 = i.e2;
          e3 = i.e3;
          spu = spu';
          turn = λ late. absurd (cc);
        },
        active,
        omega (arith, ap bit (i.turn early), ordered.fs),
        ((refl, refl, refl, refl), holds),
      )
    where
      host_again :
          (f0 : PipeEntry) → HostSide size c s.port → HostSide size (counts_fetched c f0) s.port
      host_again f0 h = record {
        size_is = h.size_is;
        back = h.back;
        front = h.front;
        kicked = h.kicked;
        line = h.line;
      }

  -- The other stages return, and keep the invariant.
  pub finish-IsSystem :
      (fuel : ℕ) (v : View)
      → v.res < 2 ^ 32
      → (m : Manager) × (w2 : PipeEntry) × (later_stages fuel v (shared s) ≡ ok m)
        × (j : IsSystem size
            (counts_finished c i.e3)
            (record s { port = record (s.port) { acks = m.acks }; manager = m; fetched = false }))
        × (load j + bit i.e0.active + bit i.e1.active + bit i.e2.active + bit i.e3.active ≡ load i)
        × (Stands j (idle i.e3) i.e0 i.e1 w2
            × (w2.active ≡ i.e2.active)
            × (w2.task ≡ i.e2.task)
            × (i.e2.active ≡ true → IsAdd v.res i.e2.task w2.ack.retval)
            × (m.acks ≡ (if i.e3.active then set s.port.acks i.e3.entry i.e3.ack else s.port.acks)))
  finish-IsSystem fuel v small =
      let spu =
        SpuSide-other size c c.collected c.submitted s.manager s.port.acks i.e0 i.e1 i.e2 i.e3
          (λ e. e) i.spu in
      let (m, w2, (runs, spu', ordered, acks, active, task, adds, left)) =
        finish-Finished size c fuel v (shared s) i.e0 i.e1 i.e2 i.e3 i.ordered spu i.acks small in
      (
        m,
        w2,
        runs,
        record {
          ordered = ordered;
          host = host_again m.acks i.host;
          tasks = i.tasks;
          acks = acks;
          e0 = idle i.e3;
          e1 = i.e0;
          e2 = i.e1;
          e3 = w2;
          spu = spu';
          turn = λ late. refl;
        },
        omega (arith, ap bit active),
        ((refl, refl, refl, refl), active, task, adds, left),
      )
    where
      host_again :
          (acks : List Ack)
          → HostSide size c s.port
          → HostSide size (counts_finished c i.e3) (record (s.port) { acks = acks })
      host_again acks h = record {
        size_is = h.size_is;
        back = h.back;
        front = h.front;
        kicked = h.kicked;
        line = h.line;
      }
