-- ===== src/Fifo/Collect/Release.antt =====
-- fifothread: its inner loop, on a queue in order.
use speutils_debs.Base.{
  ℕ, zero, suc, ◌<◌, ◌≡◌, ◌≢◌, refl, sym, ap, ◌∙◌, inl, inr, true, false, some, List, [], ◌∷◌, ◌++◌,
  arith, ◌==◌, get_elem?, set, length, Outcome, ok, Bool-cases, ==_iff, get_elem?-IsSome,
  length-set, get_elem?-set_self, get_elem?-set_ne, get_elem?-lt,
}
use native.Mathlib.Decide.{ℕ_discrete}
use mathlib.Core.Path.{subst}
use speutils_debs.Messages
use speutils_debs.Ring.{inc_back, get_back, has_remaining}
use speutils_debs.Ring.Count.{IsValid, used, inc_back-used, has_remaining-used, inc_back-IsValid}
use speutils_debs.Ring.Pending.{pending, window, Avoids, inc_back-pending}
use speutils_debs.Fifo.Port.{Ack, Port}
use speutils_debs.Fifo.Collect.{collect_port}

-- The acknowledgement memory has an entry for each slot, and a slot that is not occupied has a clear
-- one.
pub record IsSettled (p : Port) : Type 0 where
  pub valid : IsValid p.ring
  pub room : length p.acks ≡ p.ring.size
  pub clear :
      (i : ℕ) (a : Ack)
      → get_elem? p.acks i ≡ some a
      → Avoids i (pending p.ring)
      → a.task_id ≡ Messages.ack_clear

-- All these slots have an acknowledgement that is not clear.
abbrev pub Answered : List Ack → List ℕ → Type 0
Answered acks [] = Unit
Answered acks (i ∷ is) =
    ((a : Ack) × (get_elem? acks i ≡ some a) × (a.task_id ≢ Messages.ack_clear)) × Answered acks is

-- The oldest slot of these, if there is one, has a clear acknowledgement.
abbrev pub Unanswered : List Ack → List ℕ → Type 0
Unanswered acks [] = Unit
Unanswered acks (i ∷ is) =
    (a : Ack) × (get_elem? acks i ≡ some a) × (a.task_id ≡ Messages.ack_clear)

-- One round of the loop.
unfoldable pub release : Port → Ack → Port
release p ack = record p {
  acks = set p.acks p.ring.back (record ack { task_id = Messages.ack_clear });
  ring = inc_back p.ring;
}

-- It keeps the invariant.
release-IsSettled :
    (p : Port) (ack : Ack)
    → IsSettled p
    → get_elem? p.acks p.ring.back ≡ some ack
    → has_remaining p.ring ≡ true
    → IsSettled (release p ack)
unfolding release get_back
release-IsSettled p ack s holds more = record {
  valid = inc_back-IsValid s.valid;
  room = length-set p.acks _ _ ∙ s.room ∙ sym (inc_back-used s.valid more).3;
  clear = λ i a e out. elim (ℕ_discrete i p.ring.back) [
    | yes here ↦
        let same : get_elem? (set p.acks p.ring.back cleared) p.ring.back ≡ some a =
          ap (get_elem? (set p.acks p.ring.back cleared)) (sym here) ∙ e in
        let new = get_elem?-set_self p.acks p.ring.back cleared (get_elem?-lt p.acks _ holds) in
        ground (arith, same, new)
    | no away ↦
        s.clear i a (sym (get_elem?-set_ne p.acks p.ring.back i cleared (λ q. away (sym q))) ∙ e)
          (subst (Avoids i) (sym (inc_back-pending s.valid more)) (away, out))
  ];
}
  where
    cleared : Ack
    cleared = record ack { task_id = Messages.ack_clear }

-- What a round has cleared is not answered any more, so the slots that are answered behind it were
-- answered before it.
Answered-set :
    (acks : List Ack) (b : ℕ) (c : Ack) (is : List ℕ)
    → c.task_id ≡ Messages.ack_clear
    → b < length acks
    → Answered (set acks b c) is
    → Answered acks is
Answered-set acks b c [] e lt done = tt
Answered-set acks b c (i ∷ is) e lt ((a, holds, ne), done) =
    ((a, before, ne), Answered-set acks b c is e lt done)
  where
    before : get_elem? acks i ≡ some a
    before = elim (ℕ_discrete i b) [
      | yes here ↦
          let new = get_elem?-set_self acks b c lt in
          let same : get_elem? (set acks b c) b ≡ some a =
            ap (get_elem? (set acks b c)) (sym here) ∙ holds in
          absurd (ground (arith, same, new))
      | no away ↦ sym (get_elem?-set_ne acks b i c (λ q. away (sym q))) ∙ holds
    ]

none_pending : (p : Port) → IsSettled p → has_remaining p.ring ≡ false → pending p.ring ≡ []
none_pending p s e =
    unfold window in ap (window p.ring.size p.ring.back) (has_remaining-used s.valid e)

abbrev pub Collected : Port → Outcome Port → Type 0
Collected p out =
    (q : Port) × (done : List ℕ) × (out ≡ ok q)
    × IsSettled q
    × (pending p.ring ≡ done ++ pending q.ring)
    × Answered p.acks done
    × Unanswered q.acks (pending q.ring)

-- The loop stops: the oldest occupied slot is not answered, or no slot is occupied.
stops-Unanswered :
    (p : Port) (ack : Ack)
    → IsSettled p
    → get_elem? p.acks p.ring.back ≡ some ack
    → ack.task_id ≡ Messages.ack_clear
    → Unanswered p.acks (pending p.ring)
unfolding get_back
stops-Unanswered p ack s holds clear = elim (Bool-cases (has_remaining p.ring)) [
  | inl more ↦ subst (Unanswered p.acks) (sym (inc_back-pending s.valid more)) (ack, holds, clear)
  | inr done ↦ subst (Unanswered p.acks) (sym (none_pending p s done)) tt
]

-- The loop goes on: the oldest slot is occupied, since the others are clear.
answered-has_remaining :
    (p : Port) (ack : Ack)
    → IsSettled p
    → get_elem? p.acks p.ring.back ≡ some ack
    → ack.task_id ≢ Messages.ack_clear
    → has_remaining p.ring ≡ true
answered-has_remaining p ack s holds answered = elim (Bool-cases (has_remaining p.ring)) [
  | inl more ↦ more
  | inr done ↦ absurd (
      answered (
        s.clear p.ring.back ack holds
          (subst (Avoids p.ring.back) (sym (none_pending p s done)) tt)))
]

-- On a queue whose rings and acknowledgements are in order, the inner loop of fifothread stops within
-- one test more than the slots that are occupied. It takes back, oldest first, exactly the slots that
-- are answered up to the first one that is not, and leaves the queue in order.
pub collect_port-release :
    (fuel : ℕ) (p : Port) → IsSettled p → used p.ring < fuel → Collected p (collect_port fuel p)
unfolding collect_port get_back release
collect_port-release zero p s lt = absurd (omega arith)
collect_port-release (suc fuel) p s lt =
    let (ack, holds) = get_elem?-IsSome p.acks p.ring.back (omega (arith, s.valid, s.room)) in
    elim (Bool-cases (ack.task_id == Messages.ack_clear)) [
      | inl clear ↦ (
        p,
        [],
        rw (holds, clear),
        s,
        refl,
        tt,
        stops-Unanswered p ack s holds ((==_iff _ _).0 clear),
      )
      | inr answered ↦
          let is_set : ack.task_id ≢ Messages.ack_clear = ground arith in
          let more = answered-has_remaining p ack s holds is_set in
          let s' = release-IsSettled p ack s holds more in
          let less : used (inc_back p.ring) < fuel =
            omega (arith, (inc_back-used s.valid more).1) in
          let (q, done, runs, settled, split, set, rest) =
            collect_port-release fuel (release p ack) s' less in
          (
            q,
            p.ring.back ∷ done,
            rw (holds, answered) runs,
            settled,
            inc_back-pending s.valid more ∙ ap (λ l. p.ring.back ∷ l) split,
            (
              (ack, holds, is_set),
              Answered-set p.acks p.ring.back _ done refl (get_elem?-lt p.acks _ holds) set,
            ),
            rest,
          )
    ]
