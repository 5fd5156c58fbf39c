-- ===== src/System/Answers.antt =====
-- Every turn keeps which task is where.
use mathlib.Core.Path.{subst}
use speutils_debs.Base.{
  ℕ, suc, ◌^◌, ◌<◌, ◌≡◌, ◌≢◌, refl, sym, ap, ◌∙◌, Bool, true, false, some, List, [], ◌∷◌, arith,
  get_elem?, ok, set, get_elem?-lt,
}
use speutils_debs.Messages
use speutils_debs.Ring.{has_free, get_back, get_front}
use speutils_debs.Fifo.Port.{Ack, Slot, Port}
use speutils_debs.Fifo.Submit.{internal_handle}
use speutils_debs.Fifo.Submit.Task.{written}
use speutils_debs.Fifo.Submit.Kick.{SomeStored, submit_port, submit_port-Submitted}
use speutils_debs.Fifo.Collect.Release.{release}
use speutils_debs.Spu.State.{PipeEntry, Manager, View}
use speutils_debs.Spu.Stages.{stage1, later_stages}
use speutils_debs.Spu.Retire.{idle}
use speutils_debs.Spu.Drain.Flight.{bit}
use speutils_debs.System.{System, shared}
use speutils_debs.System.Invariant.{Counts, IsSystem}
use speutils_debs.System.Moves.Host.{one_more, one_back, front-HasSlot}
use speutils_debs.System.Moves.Spe.{counts_fetched}
use speutils_debs.System.Moves.Later.{counts_finished}
use speutils_debs.System.Safety.{Stands}
use speutils_debs.System.Safety.Host.{submit-Stands, collect-Stands}
use speutils_debs.System.Safety.Spe.{fetch-IsSystem, finish-IsSystem}
use speutils_debs.System.Start.{no_counts}
use speutils_debs.System.Carries.{
  IsTask, Carried, submit-Carried, collect-Carried, fetch-Carried, finish-Carried,
}

-- The invariant of the system, and where its tasks are.
pub record Answering (P : ℕ → Type 0) (a : ℕ → ℕ) (size : ℕ) (c : Counts) (s : System)
    : Type 0 where
  pub sys : IsSystem size c s
  pub carried : Carried P a size c s.port.tasks s.port.acks sys.e0 sys.e1 sys.e2 sys.e3

-- The same for entries that are equal to those of the invariant.
Stands-Answering :
    (P : ℕ → Type 0) (a : ℕ → ℕ) (size : ℕ) (c : Counts) (s : System) (j : IsSystem size c s)
    {e0 e1 e2 e3 : PipeEntry}
    → Stands j e0 e1 e2 e3
    → Carried P a size c s.port.tasks s.port.acks e0 e1 e2 e3
    → Answering P a size c s
Stands-Answering P a size c s j (q0, q1, q2, q3) h = record {
  sys = j;
  carried = rw (q0, q1, q2, q3) h;
}

written-IsTask :
    (adds : ℕ) (slot new : Slot)
    → ((i : ℕ)
        → get_elem? new i ≡ written 0 (Messages.add ∷ internal_handle ∷ adds ∷ 1 ∷ 2 ∷ []) slot i)
    → IsTask new adds
written-IsTask adds slot new words = record { third = words 2; fourth = words 3; fifth = words 4 }

module _ (P : ℕ → Type 0) (a : ℕ → ℕ) (size : ℕ) (c : Counts) (s : System)
    (k : Answering P a size c s) where
  pub submit-Answering :
      (stored : List Bool) (adds : ℕ) (q : Port)
      → SomeStored stored
      → has_free s.port.ring ≡ true
      → submit_port stored Messages.add internal_handle (adds ∷ 1 ∷ 2 ∷ []) s.port ≡ ok q
      → adds ≡ a (suc c.submitted)
      → Answering P a size (one_more size c s.port k.sys.ordered k.sys.host) (record s { port = q })
  submit-Answering stored adds q tries free runs own =
      let (slot, has) = front-HasSlot size c s.port k.sys.ordered k.sys.host k.sys.tasks in
      let (made, made_runs, left) =
        submit_port-Submitted stored Messages.add internal_handle (adds ∷ 1 ∷ 2 ∷ []) s.port slot
          tries k.sys.host.kicked has in
      let same : made ≡ q = cc in
      let (new, tasks, _, words) = left.4 in
      let (j, stands) = submit-Stands size c s k.sys stored adds q tries free runs in
      let kept : Carried P a size (one_more size c s.port k.sys.ordered k.sys.host)
          (set s.port.tasks (get_front s.port.ring) new) s.port.acks k.sys.e0 k.sys.e1 k.sys.e2
          k.sys.e3 =
        submit-Carried P a size c s.port.tasks s.port.acks k.sys.e0 k.sys.e1 k.sys.e2 k.sys.e3
          k.sys.ordered k.carried (get_front s.port.ring) new (unfold get_front in k.sys.host.front)
          (get_elem?-lt s.port.tasks (get_front s.port.ring) has.0)
          (subst (IsTask new) own (written-IsTask adds slot new words)) in
      let tasks' : q.tasks ≡ set s.port.tasks (get_front s.port.ring) new =
        ap (λ (p : Port). p.tasks) (sym same) ∙ tasks in
      let acks' : q.acks ≡ s.port.acks = ap (λ (p : Port). p.acks) (sym same) ∙ left.3 in
      Stands-Answering P a size _ (record s { port = q }) j stands (rw (tasks', acks') kept)

  pub collect-Answering :
      (ack : Ack)
      → get_elem? s.port.acks (get_back s.port.ring) ≡ some ack
      → ack.task_id ≢ Messages.ack_clear
      → Answering P a size
          (one_back size c s.port k.sys.ordered k.sys.host)
          (record s { port = release s.port ack })
  unfolding release
  collect-Answering ack holds ne =
      let (j, stands) = collect-Stands size c s k.sys ack holds ne in
      Stands-Answering P a size _ _ j stands (
        collect-Carried P a size c s.port.tasks s.port.acks k.sys.e0 k.sys.e1 k.sys.e2 k.sys.e3
          k.sys.ordered k.carried s.port.ring.back (record ack { task_id = Messages.ack_clear })
          k.sys.host.back)

  pub fetch-Answering :
      (v : View) (m : Manager)
      → v.line ≡ s.port.atomic
      → v.tasks ≡ s.port.tasks
      → s.fetched ≡ false
      → stage1 v (shared s) ≡ ok m
      → (d : Counts) × Answering P a size d (record s { manager = m; fetched = true })
        × (d.submitted ≡ c.submitted)
        × (d.collected ≡ c.collected)
  fetch-Answering v m line tasks early runs =
      let (made, f0, made_runs, j, active, _, (stands, holds)) =
        fetch-IsSystem size c s k.sys v line tasks early in
      let same : made ≡ m = cc in
      (
        counts_fetched c f0,
        subst
            (λ g.
              Answering P a size (counts_fetched c f0) (record s { manager = g; fetched = true }))
            same
            (Stands-Answering P a size _ _ j stands (
              fetch-Carried P a size c s.port.tasks s.port.acks k.sys.e0 k.sys.e1 k.sys.e2 k.sys.e3
                k.sys.ordered k.carried f0 s.manager.in_back (k.sys.turn early) k.sys.spu.fetch
                j.ordered.fs
                (λ on. ap (λ l. get_elem? l s.manager.in_back) (sym tasks) ∙ holds on))),
        refl,
        refl,
      )

  pub finish-Answering :
      (fuel : ℕ) (v : View) (m : Manager)
      → v.res < 2 ^ 32
      → P v.res
      → later_stages fuel v (shared s) ≡ ok m
      → (d : Counts) × Answering P a size d
          (record s { port = record (s.port) { acks = m.acks }; manager = m; fetched = false })
        × (d.submitted ≡ c.submitted)
        × (d.collected ≡ c.collected)
  finish-Answering fuel v m small own runs =
      let (made, w2, made_runs, j, _, (stands, active, task, adds, left)) =
        finish-IsSystem size c s k.sys fuel v small in
      let same : made ≡ m = cc in
      (
        counts_finished c k.sys.e3,
        subst
            (λ (g : Manager).
              Answering P a size (counts_finished c k.sys.e3) (record s {
                port = record (s.port) { acks = g.acks };
                manager = g;
                fetched = false;
              }))
            same
            (Stands-Answering P a size _ _ j stands (
              finish-Carried P a size c s.port.tasks s.port.acks k.sys.e0 k.sys.e1 k.sys.e2 k.sys.e3
                k.sys.ordered k.carried (idle k.sys.e3) w2 v.res made.acks refl own k.sys.spu.flight
                active adds left k.sys.spu.entry3.entry k.sys.acks.room)),
        refl,
        refl,
      )

pub start-Carried :
    (P : ℕ → Type 0) (a : ℕ → ℕ) (size : ℕ) (s : System) (i : IsSystem size no_counts s)
    → Carried P a size no_counts s.port.tasks s.port.acks i.e0 i.e1 i.e2 i.e3
start-Carried P a size s i = record {
  slots = λ k some_k le. absurd (omega (arith, some_k, le));
  entry0 = λ on. absurd (omega (arith, ap bit on, i.spu.flight));
  entry1 = λ on. absurd (omega (arith, ap bit on, i.spu.flight));
  entry2 = λ on. absurd (omega (arith, ap bit on, i.spu.flight));
  done3 = λ on. absurd (omega (arith, ap bit on, i.spu.flight));
  answers = λ n far le. absurd (omega (arith, far, le));
}
