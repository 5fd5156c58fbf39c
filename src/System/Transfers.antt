-- ===== src/System/Transfers.antt =====
-- Where the transfers of the SPE lie, in every state that is reached.
use speutils_debs.Base.{
  ℕ, suc, ap, refl, ◌+◌, ◌*◌, ◌<◌, ◌≡◌, ◌∙◌, inl, inr, true, Option, none, some, List, [], ◌∷◌,
  ◌++◌, arith, if◌then◌else◌, get_elem?, Bool-cases,
}
use speutils_debs.Dma.{Call, atomic_get, dma_get, dma_put, dma_wait_tag}
use speutils_debs.Spu.State.{PipeEntry, Manager, View, in_tasks_remaining}
use speutils_debs.Spu.Stages.{check_tasks, context}
use speutils_debs.Spu.Transfers.{
  Layout, fetch_calls, stage1_calls, stage2_calls, stage4_calls, later_calls, AllAt, ack_size,
}
use speutils_debs.System.{System, Reach}
use speutils_debs.System.Place.{place, place-lt}
use speutils_debs.System.Invariant.{Counts, IsSystem}
use speutils_debs.System.Start.{IsStart}
use speutils_debs.System.Abstract.{events, tally, Reach-IsHistory}
use speutils_debs.Messages
use speutils_debs.Spu.Drain.Flight.{bit}

-- The calls of the SPE's next turn.
unfoldable pub turn_calls : Layout → View → System → List Call
turn_calls l v s = if s.fetched then later_calls l s.manager else stage1_calls l v s.manager

module _ (l : Layout) (read write : ℕ) where
  AllAt-append :
      (cs ds : List Call)
      → AllAt l read write cs
      → AllAt l read write ds
      → AllAt l read write (cs ++ ds)
  AllAt-append [] ds a b = b
  AllAt-append (c ∷ cs) ds a b = (a.0, AllAt-append cs ds a.1 b)

  stage2-AllAt : (e : Option PipeEntry) → AllAt l read write (stage2_calls e)
  unfolding stage2_calls dma_wait_tag
  stage2-AllAt none = tt
  stage2-AllAt (some e) = elim (Bool-cases e.active) [
    | inl on ↦ rw on (tt, (tt, tt))
    | inr off ↦ rw off tt
  ]

  stage4-AllAt :
      (e : PipeEntry)
      → e.id < 4
      → (e.active ≡ true → e.entry ≡ write)
      → AllAt l read write (stage4_calls l (some e))
  unfolding stage4_calls dma_put
  stage4-AllAt e tag own = elim (Bool-cases e.active) [
    | inl on ↦ rw on ((ap (λ n. l.ack_fifo + n * ack_size) (own on), refl, refl, tag), tt)
    | inr off ↦ rw off tt
  ]

  fetch-AllAt :
      (m : Manager) (e : PipeEntry)
      → e.id < 4
      → m.in_back ≡ read
      → AllAt l read write (fetch_calls l m (some e))
  unfolding fetch_calls dma_get
  fetch-AllAt m e tag own =
      ((ap (λ n. l.task_fifo + n * Messages.task_size) own, refl, refl, tag), tt)

check_tasks-in_back : (v : View) (m : Manager) → (check_tasks v m).in_back ≡ m.in_back
unfolding check_tasks
check_tasks-in_back v m = ground arith

module _ (l : Layout) (size : ℕ) (c : Counts) (s : System) (i : IsSystem size c s) where
  abbrev next_read : ℕ
  next_read = place size c.fetched

  abbrev next_write : ℕ
  next_write = place size (suc c.acked)

  in_size : (n : ℕ) → place size n < size
  in_size n =
      place-lt size (omega (arith, i.ordered.ca, i.ordered.af, i.ordered.fs, i.ordered.room)) n

  later-AllAt : AllAt l next_read next_write (later_calls l s.manager)
  unfolding later_calls
  later-AllAt =
      let oldest = get_elem? s.manager.pipe (context s.manager 3) in
      AllAt-append l next_read next_write _ (stage4_calls l oldest)
        (stage2-AllAt l next_read next_write (get_elem? s.manager.pipe (context s.manager 1)))
        (rw i.spu.at3 (
          stage4-AllAt l next_read next_write i.e3 i.spu.entry3.tag
            (λ on. i.spu.entry3.entry on ∙ ap (place size) (omega (arith, ap bit on)))))

  stage1-AllAt : (v : View) → AllAt l next_read next_write (stage1_calls l v s.manager)
  unfolding stage1_calls atomic_get
  stage1-AllAt v =
      let now = check_tasks v s.manager in
      let own : now.in_back ≡ next_read = check_tasks-in_back v s.manager ∙ i.spu.fetch in
      (
        tt,
        (
          tt,
          elim (Bool-cases (in_tasks_remaining now)) [
            | inl more ↦
                rw more
                  (rw i.spu.at0 (fetch-AllAt l next_read next_write now i.e0 i.spu.entry0.tag own))
            | inr none_left ↦ rw none_left tt
          ],
        ),
      )

-- In every state that a queue and its SPE reach from a start (IsStart), with the numbers of the tasks
-- that are fetched and acknowledged so far, and whatever the shared line holds: every transfer of the
-- SPE's next turn reads exactly the slot at the place of the first number into the task buffer of an
-- entry of the pipeline, or writes the acknowledgement buffer of an entry to exactly the place behind
-- that of the second number, under the number of the entry, below 4, as its tag. Both places are within
-- the queue.
pub Reach-AllAt :
    (l : Layout) (size : ℕ) (v : View) (s t : System)
    → IsStart size s
    → (r : Reach s t)
    → let c = tally (events r) in
      AllAt l (place size c.fetched) (place size (suc c.acked)) (turn_calls l v t)
      × (place size c.fetched < size)
      × (place size (suc c.acked) < size)
unfolding turn_calls
Reach-AllAt l size v s t st r =
    let c = tally (events r) in
    let i = (Reach-IsHistory size s t st r).1 in
    (
      elim (Bool-cases t.fetched) [
        | inl late ↦ rw late (later-AllAt l size c t i)
        | inr early ↦ rw early (stage1-AllAt l size c t i v)
      ],
      in_size l size c t i c.fetched,
      in_size l size c t i (suc c.acked),
    )
