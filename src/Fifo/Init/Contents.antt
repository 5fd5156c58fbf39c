-- ===== src/Fifo/Init/Contents.antt =====
-- fifoInit: the task memory of the queues that it makes, and one queue of them.
use mathlib.Core.Path.{subst}
use speutils_debs.Base.{
  ℕ, zero, suc, ◌+◌, ◌/◌, ◌≤◌, ◌≡◌, sym, ap, ◌∙◌, true, some, List, [], ◌∷◌, arith, get_elem?, leb,
  ok, deref, >>=_inverse,
}
use speutils_debs.Messages
use speutils_debs.Thread.{Spe, Routine, SpuThread, start_spu_thread, thread_loop}
use speutils_debs.Ring.{init_context}
use speutils_debs.Fifo.Port.{Port, Host}
use speutils_debs.Fifo.Init.{
  Blocks, Allocated, clear_acks, allocate_fifo, init_port, init_ports, fifo_init,
}
use speutils_debs.Fifo.Init.Ready.{IsReady, AllReady}

allocate_fifo-tasks :
    (b : Blocks) (entries : ℕ) {fifo : Allocated}
    → allocate_fifo b entries ≡ ok fifo
    → fifo.tasks ≡ b.tasks
unfolding allocate_fifo
allocate_fifo-tasks b entries e =
    let (acks, _, e1) = >>=_inverse (clear_acks entries 0 b.acks) _ e in cc

module _ (spe : Spe) (create : Routine → ℕ) (spu : SpuThread) (blocks : ℕ → Blocks) where
  init_port-tasks :
      (b : Blocks) (size i : ℕ) {p : Port}
      → init_port spe create b spu size i ≡ ok p
      → p.tasks ≡ b.tasks
  unfolding init_port
  init_port-tasks b size i e =
      let (fifo, allocates, e1) = >>=_inverse (allocate_fifo b (size / Messages.task_size)) _ e in
      let own = allocate_fifo-tasks b (size / Messages.task_size) allocates in
      let (made, _, e2) = >>=_inverse (init_context true (size / Messages.task_size)) _ e1 in
      let (ring, _, e3) = >>=_inverse (deref made) _ e2 in
      let (_, _, e4) =
        >>=_inverse (start_spu_thread spe create (record spu { kind = thread_loop })) _ e3 in
      cc

  init_ports-tasks :
      (size n i k : ℕ) {ps : List Port} {p : Port}
      → init_ports spe create blocks spu size n i ≡ ok ps
      → get_elem? ps k ≡ some p
      → p.tasks ≡ (blocks (i + k)).tasks
  unfolding init_ports
  init_ports-tasks size zero i k {ps} e at = absurd (no_port k ps (cc) at)
    where
      no_port : (k : ℕ) (ps : List Port) {p : Port} → [] ≡ ps → get_elem? ps k ≡ some p → ⊥
      no_port k [] n at = cc
      no_port k (q ∷ ps) n at = cc
  init_ports-tasks size (suc n) i zero {ps} {p} e at =
      let (first, one, e1) = >>=_inverse (init_port spe create (blocks i) spu size i) _ e in
      let (later, rest, e2) = >>=_inverse (init_ports spe create blocks spu size n (i + 1)) _ e1 in
      let made : first ∷ later ≡ ps = cc in
      let same : some first ≡ some p = ap (λ l. get_elem? l 0) made ∙ at in
      let own = init_port-tasks (blocks i) size i one in
      let there : (blocks i).tasks ≡ (blocks (i + 0)).tasks =
        ap (λ j. (blocks j).tasks) (omega arith) in
      cc
  init_ports-tasks size (suc n) i (suc k) {ps} {p} e at =
      let (first, one, e1) = >>=_inverse (init_port spe create (blocks i) spu size i) _ e in
      let (later, rest, e2) = >>=_inverse (init_ports spe create blocks spu size n (i + 1)) _ e1 in
      let made : first ∷ later ≡ ps = cc in
      init_ports-tasks size n (i + 1) k rest (ap (λ l. get_elem? l (suc k)) made ∙ at)
      ∙ ap (λ j. (blocks j).tasks) (omega arith)

  pub fifo_init-tasks :
      (size spes scheme : ℕ) {host : Host}
      → fifo_init spe create blocks spu size spes scheme ≡ ok host
      → spes ≤ Messages.max_spes
      → (host.current_spe ≡ 0)
        × ((i : ℕ) (p : Port) → get_elem? host.ports i ≡ some p → p.tasks ≡ (blocks i).tasks)
  unfolding fifo_init
  fifo_init-tasks size spes scheme {host} e few =
      let small : leb spes Messages.max_spes ≡ true = ground (arith, few) in
      let (ps, runs, made) =
        >>=_inverse (init_ports spe create blocks spu size spes 0) _ (rw small at e) in
      let built : record { spes = spes; scheme = scheme; ports = ps; current_spe = 0 } ≡ host =
        cc in
      (
        sym (ap (λ (h : Host). h.current_spe) built),
        λ i p at.
            init_ports-tasks size spes 0 i runs (ap (λ (h : Host). get_elem? h.ports i) built ∙ at)
            ∙ ap (λ j. (blocks j).tasks) (omega arith),
      )

pub AllReady-at :
    (entries : ℕ) (ps : List Port) (i : ℕ) {p : Port}
    → AllReady entries ps
    → get_elem? ps i ≡ some p
    → IsReady entries p
AllReady-at entries [] i all e = absurd (cc)
AllReady-at entries (q ∷ ps) zero {p} all e =
    let same : some q ≡ some p = e in let here : q ≡ p = cc in subst (IsReady entries) here all.0
AllReady-at entries (q ∷ ps) (suc i) all e = AllReady-at entries ps i all.1 e
