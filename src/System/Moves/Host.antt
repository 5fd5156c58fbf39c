-- ===== src/System/Moves/Host.antt =====
-- The turns of the host: a task is submitted, and an acknowledged slot is taken back.
use mathlib.Core.Path.{subst}
use native.Mathlib.Decide.{ℕ_discrete}
use speutils_debs.Base.{
  ℕ, suc, ◌+◌, ◌<◌, ◌≡◌, ◌≢◌, refl, sym, ap, ◌∙◌, inr, Bool, true, List, [], ◌∷◌, some, arith,
  get_elem?, set, length, get_elem?-set_self, get_elem?-set_ne, get_elem?-lt, length-set, u32,
}
use speutils_debs.Messages
use speutils_debs.Ring.{has_free, inc_front, inc_back, get_front, get_back, RingContext}
use speutils_debs.Fifo.Port.{Ack, Atomic, Slot, Port}
use speutils_debs.Fifo.Submit.{internal_handle}
use speutils_debs.Fifo.Submit.Task.{HasSlot, written}
use speutils_debs.Fifo.Submit.Kick.{Submitted}
use speutils_debs.Fifo.Collect.Release.{release}
use speutils_debs.System.Place.{place, place-ne, place-lt, place-suc, place-period, place-ne}
use speutils_debs.System.Invariant.{IsAdding, Counts, Ordered, HostSide, Tasks, Acks}

module _ (size : ℕ) (c : Counts) (p : Port) (o : Ordered size c) (h : HostSide size c p) where
  some_slot : 0 < size
  some_slot = omega (arith, o.ca, o.af, o.fs, o.room)

  -- A free slot in the ring is room for one more number.
  room-free : has_free p.ring ≡ true → suc c.submitted < c.collected + size
  unfolding has_free
  room-free free = elim (ℕ_discrete (suc c.submitted) (c.collected + size)) [
    | yes full ↦
        let around : place size (suc (suc c.submitted)) ≡ place size (suc c.collected) =
          ap (λ n. place size (suc n)) full
          ∙ ap (place size) (omega arith)
          ∙ place-period size some_slot (suc c.collected) in
        let step = place-suc size some_slot (suc c.submitted) in
        let below = place-lt size some_slot (suc c.submitted) in
        absurd (ground (arith, free, h.size_is, h.back, h.front, around, step, below, o.word))
    | no less ↦ omega (arith, o.room)
  ]

  front-next : place size (suc (suc c.submitted)) ≡ (inc_front p.ring).front
  unfolding inc_front
  front-next =
      let below = place-lt size some_slot (suc c.submitted) in
      place-suc size some_slot (suc c.submitted) ∙ ground (arith, h.size_is, h.front, below, o.word)

  back-next : place size (suc (suc c.collected)) ≡ (inc_back p.ring).back
  unfolding inc_back
  back-next =
      let below = place-lt size some_slot (suc c.collected) in
      place-suc size some_slot (suc c.collected) ∙ ground (arith, h.size_is, h.back, below, o.word)

new-IsAdding :
    (adds : ℕ) (slot new : Slot)
    → ((i : ℕ)
        → get_elem? new i ≡ written 0 (Messages.add ∷ internal_handle ∷ adds ∷ 1 ∷ 2 ∷ []) slot i)
    → IsAdding new
new-IsAdding adds slot new words = record {
  command = words 0;
  adds = u32 adds;
  third = words 2;
  a = 1;
  fourth = words 3;
  b = 2;
  fifth = words 4;
}

Tasks-set :
    (size fetched submitted : ℕ) (tasks : List Slot) (new : Slot)
    → 0 < size
    → suc submitted < fetched + size
    → Tasks size fetched submitted tasks
    → place size (suc submitted) < length tasks
    → length new ≡ 32
    → IsAdding new
    → Tasks size fetched (suc submitted) (set tasks (place size (suc submitted)) new)
Tasks-set size fetched submitted tasks new slots room ts lt len adding =
    let i = place size (suc submitted) in
    record {
      holds = λ j below. elim (ℕ_discrete i j) [
        | yes at ↦ (
          new,
          subst (λ k. get_elem? (set tasks i new) k ≡ some new) at
              (get_elem?-set_self tasks i new lt),
          len,
        )
        | no away ↦
            let (slot, holds, four) = ts.holds j below in
            (slot, get_elem?-set_ne tasks i j new away ∙ holds, four)
      ];
      adding = λ k from to. elim (ℕ_discrete k (suc submitted)) [
        | yes last ↦ (
          new,
          ap (λ n. get_elem? (set tasks i new) (place size n)) last
              ∙ get_elem?-set_self tasks i new lt,
          adding,
        )
        | no earlier ↦
            let (slot, holds, add) = ts.adding k from (omega (arith, to, earlier)) in
            let apart =
              place-ne size slots k (suc submitted) (omega (arith, to, earlier))
                (omega (arith, room, from)) in
            (slot, get_elem?-set_ne tasks i (place size k) new (λ q. apart (sym q)) ∙ holds, add)
      ];
    }

-- A submitted task.
module _ (size : ℕ) (c : Counts) (p : Port) (o : Ordered size c) (h : HostSide size c p) where
  abbrev pub one_more : Counts
  one_more = record c { submitted = suc c.submitted }

  pub submit-Ordered : has_free p.ring ≡ true → Ordered size one_more
  submit-Ordered free = record {
    ca = o.ca;
    af = o.af;
    fs = omega (arith, o.fs);
    room = room-free size c p o h free;
    word = o.word;
  }

  pub front-HasSlot :
      (ts : Tasks size c.fetched c.submitted p.tasks)
      → (slot : Slot) × HasSlot p (get_front p.ring) slot
  unfolding get_front
  front-HasSlot ts =
      let below = place-lt size (some_slot size c p o h) (suc c.submitted) in
      let (slot, holds, four) = ts.holds p.ring.front (subst (λ n. n < size) (sym h.front) below) in
      (slot, (holds, four))

  module _ (stored : List Bool) (adds : ℕ) (slot : Slot) (q : Port)
      (left : Submitted Messages.add internal_handle (adds ∷ 1 ∷ 2 ∷ []) p slot q)
      (has : HasSlot p (get_front p.ring) slot) where
    pub Submitted-HostSide : HostSide size one_more q
    unfolding get_front inc_front
    Submitted-HostSide = record {
      size_is = ap (λ (r : RingContext). r.size) left.0 ∙ h.size_is;
      back = ap (λ (r : RingContext). r.back) left.0 ∙ h.back;
      front = ap (λ (r : RingContext). r.front) left.0 ∙ sym (front-next size c p o h);
      kicked = left.2;
      line = inr (
        omega arith,
        ap (λ (a : Atomic). a.state) left.1,
        ap (λ (a : Atomic). a.count) left.1 ∙ h.front,
      );
    }

    pub Submitted-Tasks :
        Ordered size one_more
        → Tasks size c.fetched c.submitted p.tasks
        → Tasks size c.fetched (suc c.submitted) q.tasks
    unfolding get_front
    Submitted-Tasks more ts =
        let (new, tasks, (_, len), words) = left.4 in
        let inside : place size (suc c.submitted) < length p.tasks =
          subst (λ n. n < length p.tasks) h.front (get_elem?-lt p.tasks (get_front p.ring) has.0) in
        subst (Tasks size c.fetched (suc c.submitted))
          (sym (tasks ∙ ap (λ n. set p.tasks n new) h.front))
          (Tasks-set size c.fetched c.submitted p.tasks new (some_slot size c p o h)
            (omega (arith, more.room, o.ca, o.af)) ts inside len (new-IsAdding adds slot new words))

-- The numbers after an acknowledgement is taken back.
module _ (size : ℕ) (c : Counts) (p : Port) (o : Ordered size c) (h : HostSide size c p) where
  abbrev pub one_back : Counts
  one_back = record c { collected = suc c.collected }

  -- The slot at the back has an acknowledgement only for a task that is acknowledged.
  pub answered-lt :
      (ack : Ack)
      → Acks size c.collected c.acked p.acks
      → get_elem? p.acks (get_back p.ring) ≡ some ack
      → ack.task_id ≢ Messages.ack_clear
      → c.collected < c.acked
  unfolding get_back
  answered-lt ack acks holds ne = elim (ℕ_discrete c.collected c.acked) [
    | yes none_left ↦
        let (a, clear_at, clear) =
          acks.clear_acks (suc c.collected) (omega (arith, none_left))
            (omega (arith, some_slot size c p o h)) in
        absurd (ground (arith, holds, clear_at, clear, h.back, ne))
    | no some_left ↦ omega (arith, o.ca)
  ]

  pub release-Ordered : c.collected < c.acked → Ordered size one_back
  release-Ordered lt = record {
    ca = lt;
    af = o.af;
    fs = o.fs;
    room = omega (arith, o.room);
    word = o.word;
  }

  pub release-HostSide : (ack : Ack) → HostSide size one_back (release p ack)
  unfolding release inc_back
  release-HostSide ack = record {
    size_is = h.size_is;
    back = sym (back-next size c p o h);
    front = h.front;
    kicked = h.kicked;
    line = h.line;
  }

  pub release-Acks :
      (ack : Ack)
      → c.collected < c.acked
      → Acks size c.collected c.acked p.acks
      → get_elem? p.acks (get_back p.ring) ≡ some ack
      → Acks size (suc c.collected) c.acked (release p ack).acks
  unfolding release get_back
  release-Acks ack lt acks holds =
      let cleared : Ack = record ack { task_id = Messages.ack_clear } in
      let inside = get_elem?-lt p.acks p.ring.back holds in
      let apart = λ (n : ℕ) (far : suc c.collected < n) (near : n < suc c.collected + size).
        λ (q : p.ring.back ≡ place size n).
          place-ne size (some_slot size c p o h) (suc c.collected) n far near (sym h.back ∙ q) in
      record {
        room = length-set p.acks p.ring.back cleared ∙ acks.room;
        set_acks = λ n far le.
            let (a, at, ne) = acks.set_acks n (omega (arith, far)) le in
            (
              a,
              get_elem?-set_ne p.acks p.ring.back (place size n) cleared
                    (apart n far (omega (arith, o.ca, o.af, o.fs, o.room, le)))
                  ∙ at,
              ne,
            );
        clear_acks = λ n far le. elim (ℕ_discrete n (suc c.collected + size)) [
          | yes around ↦
              let same : p.ring.back ≡ place size n =
                h.back
                ∙ sym (place-period size (some_slot size c p o h) (suc c.collected))
                ∙ ap (place size) (sym around) in
              (
                cleared,
                ap (get_elem? (set p.acks p.ring.back cleared)) (sym same)
                    ∙ get_elem?-set_self p.acks p.ring.back cleared inside,
                refl,
              )
          | no short ↦
              let (a, at, clear) = acks.clear_acks n far (omega (arith, le, short)) in
              (
                a,
                get_elem?-set_ne p.acks p.ring.back (place size n) cleared
                      (apart n (omega (arith, far, lt)) (omega (arith, le, short)))
                    ∙ at,
                clear,
              )
        ];
      }
