-- ===== src/Cluster/Drains.antt =====
-- The SPEs and fifothread empty all queues of the host.
use mathlib.Core.Path.{subst}
use native.Mathlib.Decide.{ℕ_discrete}
use speutils_debs.Base.{
  ℕ, zero, suc, ◌≤◌, ◌<◌, ◌≡◌, ◌≢◌, refl, sym, ap, ◌∙◌, Bool, true, false, some, List, [], ◌∷◌,
  arith, get_elem?, length, get_elem?-set_self, get_elem?-set_ne, get_elem?-lt, get_elem?-IsSome,
  length-set,
}
use speutils_debs.Messages
use speutils_debs.Ring.{RingContext, has_free, has_remaining}
use speutils_debs.Ring.Count.{IsValid, has_free-has_remaining_iff}
use speutils_debs.Fifo.Port.{Port}
use speutils_debs.Fifo.Drained.{fifo_is_empty, fifo_is_empty-all}
use speutils_debs.Fifo.Submit.{internal_handle, fifo_addition}
use speutils_debs.Fifo.Submit.Kick.{SomeStored}
use speutils_debs.Fifo.Tasks.Turns.{Given, fifo_addition-Given}
use speutils_debs.System.{System, Work, Works, stay, work}
use speutils_debs.System.Reachable.{IsSystem-IsValid}
use speutils_debs.Fifo.Select.Turn.{IsFree}
use speutils_debs.System.Drains.{Reach-drains}
use speutils_debs.Cluster.{
  Cluster, view, put_view, toils_at, toils, Toils, still, toil, Course, moves,
}
use speutils_debs.Cluster.Views.{
  IsFirst, Views, Course-Views, Views-IsHost, Passed-IsSystem, put_view-own,
}

Course-Toils : {s t u : Cluster} → Course s t → Toils t u → Course s u
Course-Toils c still = c
Course-Toils c (toil ws w) = moves (Course-Toils c ws) (toils w)

Toils-trans : {s t u : Cluster} → Toils s t → Toils t u → Toils s u
Toils-trans r still = r
Toils-trans r (toil ws w) = toil (Toils-trans r ws) w

-- Turns of one queue and its SPE, with all the others at rest.
record Lifted (t : Cluster) (i : ℕ) (u : System) : Type 0 where
  after : Cluster
  way : Toils t after
  len : length after.host.ports ≡ length t.host.ports
  own : get_elem? after.host.ports i ≡ some u.port
  seen : view after u.port i ≡ u
  others : (j : ℕ) → i ≢ j → get_elem? after.host.ports j ≡ get_elem? t.host.ports j

Works-Lifted :
    (t : Cluster) (i : ℕ) (p : Port) {u : System}
    → get_elem? t.host.ports i ≡ some p
    → Works (view t p i) u
    → Lifted t i u
Works-Lifted t i p at stay = record {
  after = t;
  way = still;
  len = refl;
  own = at;
  seen = refl;
  others = λ j ne. refl;
}
Works-Lifted t i p {u} at (work {t = mid} ws w) =
    let l = Works-Lifted t i p at ws in
    record {
      after = put_view l.after i u;
      way = toil l.way (toils_at i mid.port u l.own (subst (λ k. Work k u) (sym l.seen) w) refl);
      len = length-set l.after.host.ports i u.port ∙ l.len;
      own =
          get_elem?-set_self l.after.host.ports i u.port (get_elem?-lt l.after.host.ports i l.own);
      seen = put_view-own l.after i u;
      others = λ j ne. get_elem?-set_ne l.after.host.ports i j u.port ne ∙ l.others j ne;
    }

-- The queues below `n` are empty.
record Emptied (t : Cluster) (n : ℕ) : Type 0 where
  after : Cluster
  way : Toils t after
  len : length after.host.ports ≡ length t.host.ports
  empty :
      (j : ℕ) (p : Port)
      → j < n
      → get_elem? after.host.ports j ≡ some p
      → has_remaining p.ring ≡ false

Lifted-Emptied :
    {t : Cluster} {n : ℕ} {u : System} (e : Emptied t n)
    → Lifted e.after n u
    → has_remaining u.port.ring ≡ false
    → Emptied t (suc n)
Lifted-Emptied {n = n} {u = u} e l none_left = record {
  after = l.after;
  way = Toils-trans e.way l.way;
  len = l.len ∙ e.len;
  empty = λ j q lt holds. elim (ℕ_discrete n j) [
    | yes same ↦
        let own : some u.port ≡ some q =
          sym l.own ∙ ap (get_elem? l.after.host.ports) same ∙ holds in
        let port : u.port ≡ q = cc in ap (λ (r : Port). has_remaining r.ring) (sym port) ∙ none_left
    | no other ↦ e.empty j q (omega (arith, lt, other)) (sym (l.others j other) ∙ holds)
  ];
}

module _ (size : ℕ) (s : Cluster) (f : IsFirst size s) {t : Cluster} (c : Course s t) where
  drains-next :
      (n : ℕ) (e : Emptied t n) (p : Port)
      → get_elem? e.after.host.ports n ≡ some p
      → Emptied t (suc n)
  drains-next n e p at =
      let passed = Views.passed (Course-Views size s f (Course-Toils c e.way)) n p at in
      let (u, ways, empty) =
        Reach-drains size (view s passed.first n) (view e.after p n)
          (f.starts n passed.first passed.held) passed.way in
      Lifted-Emptied e (Works-Lifted e.after n p at ways) empty

  drains-below : (n : ℕ) → n ≤ length t.host.ports → Emptied t n
  drains-below zero le = record {
    after = t;
    way = still;
    len = refl;
    empty = λ j p lt at. absurd (omega (arith, lt));
  }
  drains-below (suc n) le =
      let e = drains-below n (omega (arith, le)) in
      let (p, at) = get_elem?-IsSome e.after.host.ports n (omega (arith, le, e.len)) in
      drains-next n e p at

empty_room :
    (size : ℕ) (ring : RingContext)
    → IsValid ring
    → ring.size ≡ size
    → 1 < size
    → has_remaining ring ≡ false
    → has_free ring ≡ true
empty_room size ring v same some_slot none_left =
    let (free, more) = has_free-has_remaining_iff v in
    free.1 (ground (arith, more, none_left, same, some_slot))

Views-IsFree :
    (size : ℕ) (s : Cluster) (f : IsFirst size s) {u : Cluster} (i : ℕ)
    → Views s u
    → 1 < size
    → i < u.host.spes
    → ((p : Port) → get_elem? u.host.ports i ≡ some p → has_remaining p.ring ≡ false)
    → IsFree u.host.ports i true
Views-IsFree size s f {u} i v some_slot lt none_left =
    let (p, at) = get_elem?-IsSome u.host.ports i (omega (arith, lt, v.all_spes)) in
    let (counts, is) = Passed-IsSystem size s f (v.passed i p at) in
    (
      p,
      at,
      empty_room size p.ring (IsSystem-IsValid size counts (view u p i) is) is.host.size_is
          some_slot (none_left p at),
    )

-- From every state that is reached from a start with all queues and SPEs (IsFirst), queues of more than one slot, turns of the SPEs and
-- of fifothread alone, without another task, can lead to a state in which fifoIsEmpty answers 1. As
-- soon as a conditional store succeeds, fifo_addition returns there, and gives its task to the first
-- queue in turn that has a free slot.
pub Course-drains :
    (size amount : ℕ) (stored : List Bool) (s t : Cluster)
    → IsFirst size s
    → Course s t
    → 1 < size
    → SomeStored stored
    → (u : Cluster) × Toils t u
      × (fifo_is_empty u.host ≡ true)
      × Given u.host stored Messages.add internal_handle
          (amount ∷ 1 ∷ 2 ∷ [])
          (fifo_addition u.host.spes stored amount u.host)
Course-drains size amount stored s t f c some_slot tries =
    let e = drains-below size s f c (length t.host.ports) (omega arith) in
    let v = Course-Views size s f (Course-Toils c e.way) in
    let none_left = λ (i : ℕ) (p : Port) (at : get_elem? e.after.host.ports i ≡ some p).
      e.empty i p (omega (arith, get_elem?-lt e.after.host.ports i at, e.len)) at in
    let current = e.after.host.current_spe in
    (
      e.after,
      e.way,
      fifo_is_empty-all e.after.host none_left,
      fifo_addition-Given stored e.after.host current amount tries (Views-IsHost size s f v)
          v.current_in (Views-IsFree size s f current v some_slot v.current_in (none_left current)),
    )
