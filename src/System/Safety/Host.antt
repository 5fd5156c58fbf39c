-- ===== src/System/Safety/Host.antt =====
-- The turns of the host and of fifothread keep the invariant.
use mathlib.Core.Path.{subst}
use speutils_debs.Base.{ℕ, suc, ◌≡◌, ◌≢◌, refl, sym, Bool, true, List, [], ◌∷◌, some, get_elem?, ok}
use speutils_debs.Messages
use speutils_debs.Ring.{has_free, get_back}
use speutils_debs.Fifo.Port.{Ack, Port}
use speutils_debs.Fifo.Submit.{internal_handle}
use speutils_debs.Fifo.Submit.Kick.{SomeStored, submit_port, submit_port-Submitted}
use speutils_debs.Fifo.Collect.Release.{release}
use speutils_debs.System.{System}
use speutils_debs.System.Invariant.{Counts, Acks, IsSystem}
use speutils_debs.System.Moves.Host.{
  one_more, submit-Ordered, front-HasSlot, Submitted-HostSide, Submitted-Tasks, one_back,
  answered-lt, release-Ordered, release-HostSide, release-Acks,
}
use speutils_debs.System.Safety.{Stands, SpuSide-other}

module _ (size : ℕ) (c : Counts) (s : System) (i : IsSystem size c s) where
  -- A turn of the host keeps the invariant, and the entries of the pipeline.
  pub submit-Stands :
      (stored : List Bool) (adds : ℕ) (q : Port)
      → SomeStored stored
      → has_free s.port.ring ≡ true
      → submit_port stored Messages.add internal_handle (adds ∷ 1 ∷ 2 ∷ []) s.port ≡ ok q
      → (j : IsSystem size (one_more size c s.port i.ordered i.host) (record s { port = q }))
        × Stands j i.e0 i.e1 i.e2 i.e3
  submit-Stands stored adds q tries free runs =
      let (slot, has) = front-HasSlot size c s.port i.ordered i.host i.tasks in
      let (made, made_runs, left) =
        submit_port-Submitted stored Messages.add internal_handle (adds ∷ 1 ∷ 2 ∷ []) s.port slot
          tries i.host.kicked has in
      let same : made ≡ q = cc in
      subst
        (λ r.
          (j : IsSystem size (one_more size c s.port i.ordered i.host) (record s { port = r }))
          × Stands j i.e0 i.e1 i.e2 i.e3)
        same
        (
          record {
            ordered = submit-Ordered size c s.port i.ordered i.host free;
            host = Submitted-HostSide size c s.port i.ordered i.host stored adds slot made left has;
            tasks =
                Submitted-Tasks size c s.port i.ordered i.host stored adds slot made left has
                  (submit-Ordered size c s.port i.ordered i.host free) i.tasks;
            acks = subst (Acks size c.collected c.acked) (sym left.3) i.acks;
            e0 = i.e0;
            e1 = i.e1;
            e2 = i.e2;
            e3 = i.e3;
            spu =
                SpuSide-other size c c.collected (suc c.submitted) s.manager s.manager.acks i.e0
                  i.e1 i.e2 i.e3 (λ e. absurd (cc)) i.spu;
            turn = i.turn;
          },
          (refl, refl, refl, refl),
        )

  pub submit-IsSystem :
      (stored : List Bool) (adds : ℕ) (q : Port)
      → SomeStored stored
      → has_free s.port.ring ≡ true
      → submit_port stored Messages.add internal_handle (adds ∷ 1 ∷ 2 ∷ []) s.port ≡ ok q
      → IsSystem size (one_more size c s.port i.ordered i.host) (record s { port = q })
  submit-IsSystem stored adds q tries free runs = (submit-Stands stored adds q tries free runs).0

  -- So does a turn of fifothread.
  pub collect-Stands :
      (ack : Ack)
      → get_elem? s.port.acks (get_back s.port.ring) ≡ some ack
      → ack.task_id ≢ Messages.ack_clear
      → (j : IsSystem size
          (one_back size c s.port i.ordered i.host)
          (record s { port = release s.port ack }))
        × Stands j i.e0 i.e1 i.e2 i.e3
  collect-Stands ack holds ne =
      let lt = answered-lt size c s.port i.ordered i.host ack i.acks holds ne in
      (
        record {
          ordered = release-Ordered size c s.port i.ordered i.host lt;
          host = release-HostSide size c s.port i.ordered i.host ack;
          tasks = unfold release in i.tasks;
          acks = release-Acks size c s.port i.ordered i.host ack lt i.acks holds;
          e0 = i.e0;
          e1 = i.e1;
          e2 = i.e2;
          e3 = i.e3;
          spu =
              SpuSide-other size c (suc c.collected) c.submitted s.manager s.manager.acks i.e0 i.e1
                i.e2 i.e3 (λ e. e) i.spu;
          turn = i.turn;
        },
        (refl, refl, refl, refl),
      )

  pub collect-IsSystem :
      (ack : Ack)
      → get_elem? s.port.acks (get_back s.port.ring) ≡ some ack
      → ack.task_id ≢ Messages.ack_clear
      → IsSystem size
          (one_back size c s.port i.ordered i.host)
          (record s { port = release s.port ack })
  collect-IsSystem ack holds ne = (collect-Stands ack holds ne).0
