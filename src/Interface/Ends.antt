-- ===== src/Interface/Ends.antt =====
-- tst/task_iface.c with the SPEs that it starts: how it ends.
use speutils_debs.Base.{
  ℕ, ◌*◌, ◌≤◌, ◌<◌, ◌≡◌, ◌≢◌, refl, sym, ap, ◌∙◌, Bool, true, List, [], ◌∷◌, ◌++◌, arith, length,
  ok, inl, inr, Bool-cases,
}
use native.Mathlib.Nat.{mul-le-mul_left}
use speutils_debs.Messages
use speutils_debs.Thread.{Spe, Routine, SpuThread, spu_loop}
use speutils_debs.Fifo.Port.{Host}
use speutils_debs.Fifo.Drained.{fifo_is_empty}
use speutils_debs.Fifo.Init.{Blocks, fifo_init}
use speutils_debs.Fifo.Submit.Kick.{SomeStored}
use speutils_debs.Fifo.Tasks.Repeat.{addition_loop, total, room}
use speutils_debs.System.Invariant.{Tasks}
use speutils_debs.Cluster.{Cluster, Toils, Course, begins}
use speutils_debs.Cluster.Views.{IsFirst}
use speutils_debs.Cluster.Drains.{Course-drains}
use speutils_debs.Cluster.Start.{Local, boot, fifo_init-IsFirst}
use speutils_debs.Fifo.Init.Ready.{fifo_init-AllReady}
use speutils_debs.Interface.Start.{ok-injective, AllReady-total}
use speutils_debs.Cluster.Loop.{addition_loop-Course}
use speutils_debs.Interface.{Options, rounds, submit_all, await_empty, fill_queues, task_iface}

await_empty-last :
    (earlier : List Host) (last : Host)
    → fifo_is_empty last ≡ true
    → await_empty (earlier ++ last ∷ []) ≡ ok tt
unfolding await_empty
await_empty-last [] last e = rw e refl
await_empty-last (host ∷ earlier) last e = elim (Bool-cases (fifo_is_empty host)) [
  | inl empty ↦ rw empty refl
  | inr more ↦ rw more (await_empty-last earlier last e)
]

module _ (spe : Spe) (create : Routine → ℕ) (spu : SpuThread) (blocks : ℕ → Blocks)
    (tries : ℕ → List Bool) (local : ℕ → Local) (starts : create spu_loop ≡ 0)
    (acks_room : (i : ℕ) → length (blocks i).acks ≡ 128)
    (tasks : (i : ℕ) → Tasks 128 0 0 (blocks i).tasks)
    (unclear : (i j : ℕ) → ((local i).held j).ack.task_id ≢ Messages.ack_clear)
    (answers : (i : ℕ) → SomeStored (tries i)) where
  -- The host that fifoInit leaves has room for 127 tasks for each SPE.
  started :
      (spes : ℕ)
      → 0 < spes
      → spes ≤ Messages.max_spes
      → (host : Host) × (fifo_init spe create blocks spu (128 * 128) spes Messages.round_robin
          ≡ ok host)
        × IsFirst 128 (boot host local)
        × (host.spes ≡ spes)
        × (total room host.ports ≡ spes * 127)
  started spes some_spe few =
      let (host, runs, is) =
        fifo_init-IsFirst spe create spu (128 * 128) starts (omega arith) (omega arith) blocks local
          spes Messages.round_robin acks_room tasks unclear some_spe few in
      let (other, other_runs, all_spes, len, all) =
        fifo_init-AllReady spe create spu (128 * 128) starts (omega arith) (omega arith) blocks spes
          Messages.round_robin acks_room few in
      let same : other ≡ host = ok-injective (sym other_runs ∙ runs) in
      let free = (AllReady-total 128 other.ports all).0 in
      (
        host,
        runs,
        is,
        ap (λ (h : Host). h.spes) (sym same) ∙ all_spes,
        ap (λ (h : Host). total room h.ports) (sym same) ∙ free ∙ ap (λ n. n * 127) len,
      )

  -- With threads that start, blocks of 128 acknowledgements and 128 slots of 32 words, the last of which
  -- happens to hold a task that adds, local stores whose acknowledgements happen not to be clear, a
  -- conditional store that succeeds in each call, 1 to MAX_SPES SPEs, the type 1 and at most 127
  -- operations for each SPE, the test can end: fifoInit and the loop of additions return, the latter by
  -- turns of the host alone, turns of the SPEs, which have got max_entries from the host, and of
  -- fifothread lead from there to a state in which all queues are empty, and whatever the last loop has
  -- seen before, it ends when it sees that state.
  pub task_iface-ends :
      (o : Options) (earlier : List Host)
      → 0 < o.spes
      → o.spes ≤ Messages.max_spes
      → o.ops ≤ 127
      → o.kind ≡ 1
      → (first filled : Host) × (u : Cluster) × (fifo_init spe create blocks spu
            (128 * 128)
            o.spes
            Messages.round_robin
          ≡ ok first)
        × (fill_queues spe create spu blocks tries o ≡ ok filled)
        × Course (boot first local) (record (boot first local) { host = filled })
        × Toils (record (boot first local) { host = filled }) u
        × (task_iface spe create spu blocks tries (λ host. earlier ++ u.host ∷ []) o ≡ ok tt)
  unfolding fill_queues task_iface submit_all rounds boot
  task_iface-ends o earlier some_spe few short adds =
      let (first, runs, is, all_spes, free) = started o.spes some_spe few in
      let product : o.spes * o.ops ≤ o.spes * 127 = mul-le-mul_left o.spes short in
      let all_rounds : rounds o ≡ o.spes * o.ops = ground (arith, product, few) in
      let loop =
        addition_loop-Course tries answers 128 (boot first local) is (rounds o) 0 o.arg begins
          (omega (arith, all_rounds, product, free)) in
      let (u, ways, empty, _) =
        Course-drains 128 0 (tries 0) (boot first local) _ is loop.course (omega arith)
          (answers 0) in
      let fills : fill_queues spe create spu blocks tries o ≡ ok loop.after = rw runs (
        rw adds (
          ap (λ fuel. addition_loop (rounds o) 0 fuel o.arg tries first) (sym all_spes)
          ∙ loop.returns)) in
      (
        first,
        loop.after,
        u,
        runs,
        fills,
        loop.course,
        ways,
        rw fills (await_empty-last earlier u.host empty),
      )
