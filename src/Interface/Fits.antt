-- ===== src/Interface/Fits.antt =====
-- tst/task_iface.c: the queues that it fills.
use mathlib.Core.Path.{subst}
use native.Mathlib.Decide.{ℕ_discrete}
use native.Mathlib.Nat.{mul-le-mul_left}
use speutils_debs.Base.{
  ℕ, ◌*◌, ◌≤◌, ◌<◌, ◌≡◌, sym, ap, ◌∙◌, Bool, some, List, arith, get_elem?, length, ok,
}
use speutils_debs.Messages
use speutils_debs.Thread.{Spe, Routine, SpuThread, spu_loop}
use speutils_debs.Ring.Count.{used}
use speutils_debs.Fifo.Port.{Slot, Host}
use speutils_debs.Fifo.Init.{Blocks, fifo_init}
use speutils_debs.Fifo.Init.Ready.{fifo_init-AllReady}
use speutils_debs.Fifo.Submit.Kick.{SomeStored}
use speutils_debs.Fifo.Tasks.Turns.{IsHost}
use speutils_debs.Fifo.Tasks.Repeat.{total, room, occupied, Grown, loops-Grown}
use speutils_debs.Fifo.Tasks.Even.{IsEven}
use speutils_debs.Fifo.Tasks.Even.Loops.{
  AllHave, Dealt, Dealt-AllHave, noop_loop-Dealt, addition_loop-Dealt,
}
use speutils_debs.Interface.{Options, rounds, submit_all, fill_queues}
use speutils_debs.Fifo.Init.Contents.{fifo_init-tasks, AllReady-at}
use speutils_debs.Interface.Start.{window-empty, AllReady-total, ok-injective, share-none}

module _ (spe : Spe) (create : Routine → ℕ) (spu : SpuThread) (blocks : ℕ → Blocks)
    (tries : ℕ → List Bool) (starts : create spu_loop ≡ 0)
    (acks_room : (i : ℕ) → length (blocks i).acks ≡ 128)
    (slots : (i j : ℕ)
      → j < 128
      → (slot : Slot) × (get_elem? (blocks i).tasks j ≡ some slot) × (length slot ≡ 32))
    (answers : (i : ℕ) → SomeStored (tries i)) where
  -- The host that fifoInit leaves.
  Ready : ℕ → Host → Type 0
  Ready spes host =
      IsHost host
      × (host.spes ≡ spes)
      × (total room host.ports ≡ spes * 127)
      × (total occupied host.ports ≡ 0)
      × IsEven 128 0 0 host

  init-Ready :
      (spes : ℕ)
      → 0 < spes
      → spes ≤ Messages.max_spes
      → (host : Host) × (fifo_init spe create blocks spu (128 * 128) spes Messages.round_robin
          ≡ ok host)
        × Ready spes host
  unfolding Ready
  init-Ready spes some_spe few =
      let (host, runs, all_spes, len, all) =
        fifo_init-AllReady spe create spu (128 * 128) starts (omega arith) (omega arith) blocks spes
          Messages.round_robin acks_room few in
      let (first, tasks) =
        fifo_init-tasks spe create spu blocks (128 * 128) spes Messages.round_robin runs few in
      let (free, none_used) = AllReady-total 128 host.ports all in
      (
        host,
        runs,
        (
          record {
            all_spes = all_spes ∙ sym len;
            current_in = omega (arith, first, all_spes, some_spe);
            ready = λ i p at.
                let r = AllReady-at 128 host.ports i all at in
                record {
                  settled = r.settled;
                  kicked = r.kicked;
                  slots = λ j lt.
                      let (slot, holds, len) = slots i j (omega (arith, lt, r.size)) in
                      (slot, (ap (λ l. get_elem? l j) (tasks i p at) ∙ holds, len));
                };
          },
          all_spes,
          free ∙ ap (λ n. n * 127) len,
          none_used,
          record {
            current = first;
            sizes = λ i p at. (AllReady-at 128 host.ports i all at).size;
            shares = λ i p at.
                let r = AllReady-at 128 host.ports i all at in
                window-empty p.ring.size p.ring.back (used p.ring) r.empty ∙ sym (share-none i);
          },
        ),
      )

  submit_all-Grown :
      (o : Options) (host : Host)
      → IsHost host
      → o.kind < 2
      → rounds o ≤ total room host.ports
      → Grown host (rounds o) (submit_all host.spes tries o host)
  unfolding submit_all rounds
  submit_all-Grown o host is low le =
      let (noops, adds) = loops-Grown tries answers (rounds o) o.arg host is le in
      elim (ℕ_discrete o.kind 0) [
        | yes noop_kind ↦ rw noop_kind noops
        | no other ↦ let adds_kind : o.kind ≡ 1 = omega (arith, low, other) in rw adds_kind adds
      ]

  submit_all-Dealt :
      (o : Options) (host : Host)
      → IsHost host
      → IsEven 128 0 0 host
      → o.kind < 2
      → rounds o ≤ 127 * host.spes
      → Dealt 128 0 0 host (rounds o) (submit_all host.spes tries o host)
  unfolding submit_all rounds
  submit_all-Dealt o host is even low le = elim (ℕ_discrete o.kind 0) [
    | yes noop_kind ↦
        rw noop_kind
          (noop_loop-Dealt tries answers 128 (rounds o) 0 0 0 host is even (omega (arith, le)))
    | no other ↦
        let adds_kind : o.kind ≡ 1 = omega (arith, low, other) in
        rw adds_kind (
          addition_loop-Dealt tries answers 128 (rounds o) 0 o.arg 0 0 host is even
            (omega (arith, le)))
  ]

  -- With threads that start, blocks of 128 acknowledgements and 128 slots of 32 words, a conditional
  -- store that succeeds in each call, 1 to MAX_SPES SPEs, a type 0 or 1 and at most 127 operations for
  -- each SPE, the test submits all its tasks, although no SPE has answered: fifoInit and the loop return,
  -- and the queues are in order and hold one slot for each of the tasks, dealt out evenly: every queue
  -- holds as many as there are operations for each SPE.
  pub fill_queues-fits :
      (o : Options)
      → 0 < o.spes
      → o.spes ≤ Messages.max_spes
      → o.ops ≤ 127
      → o.kind < 2
      → (host : Host) × (fill_queues spe create spu blocks tries o ≡ ok host)
        × IsHost host
        × (total occupied host.ports ≡ o.spes * o.ops)
        × AllHave o.ops host
  unfolding fill_queues Ready rounds
  fill_queues-fits o some_spe few short low =
      let (host, runs, (is, all_spes, free, none_used, even)) = init-Ready o.spes some_spe few in
      let product : o.spes * o.ops ≤ o.spes * 127 = mul-le-mul_left o.spes short in
      let all_rounds : rounds o ≡ o.spes * o.ops = ground (arith, product, few) in
      let g = submit_all-Grown o host is low (omega (arith, all_rounds, product, free)) in
      let d =
        submit_all-Dealt o host is even low (rw all_spes (omega (arith, all_rounds, product))) in
      let same : d.after ≡ g.after = ok-injective (sym d.returns ∙ g.returns) in
      let each : rounds o ≡ o.ops * host.spes = rw all_spes (omega (arith, all_rounds)) in
      (
        g.after,
        rw runs (ap (λ fuel. submit_all fuel tries o host) (sym all_spes) ∙ g.returns),
        g.kept,
        g.more ∙ omega (arith, none_used, all_rounds),
        subst (AllHave o.ops) same (Dealt-AllHave d each),
      )
