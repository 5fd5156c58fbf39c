-- ===== src/System/Abstract.antt =====
-- What a queue and its SPE promise: a history of events, each of which follows the one before it.
use mathlib.Core.Path.{subst}
use mathlib.Core.Option.{Option, none, some}
use speutils_debs.Spu.Stages.{context, stage1, later_stages}
use speutils_debs.Base.{
  List, [], ◌∷◌, ◌^◌, Bool, if◌then◌else◌, get_elem?, ok, ℕ, suc, ◌+◌, ◌<◌, ◌≡◌, sym, ap, ◌∙◌, inl,
  inr, true, false, arith, Bool-cases, ◌==◌, not,
}
use speutils_debs.Spu.State.{PipeEntry, Manager, View}
use speutils_debs.Spu.Drain.Flight.{bit}
use speutils_debs.System.{
  System, shared, Reach, collects, fetches, finishes, submits, works, here, go,
}
use speutils_debs.System.Invariant.{Counts, IsSystem}
use speutils_debs.System.Moves.Host.{answered-lt, submit-Ordered}
use speutils_debs.System.Moves.Spe.{counts_fetched}
use speutils_debs.System.Moves.Later.{counts_finished}
use speutils_debs.System.Safety.Host.{submit-IsSystem, collect-IsSystem}
use speutils_debs.System.Safety.Spe.{fetch-IsSystem, finish-IsSystem}
use speutils_debs.System.Start.{IsStart, no_counts, start-IsSystem}

-- What a turn does. An SPE that finds no task to fetch, or has none to acknowledge, does nothing to the
-- queue.
pub data Event : Type 0 where
  submitted : Event
  fetched : Event
  none_fetched : Event
  acknowledged : Event
  none_acknowledged : Event
  collected : Event

unfoldable pub is_active : Option PipeEntry → Bool
is_active none = false
is_active (some e) = e.active

-- The events of a sequence of turns, the last one first: stage1 has fetched a task if its entry is
-- active behind it, and stage4 acknowledges one if its entry is active before.
unfoldable pub events : {s t : System} → Reach s t → List Event
unfolding is_active
events here = []
events (go r (submits stored adds q tries free runs e)) = submitted ∷ events r
events (go r (works (collects ack holds ne e))) = collected ∷ events r
events (go r (works (fetches v m line tasks early runs e))) =
    (if is_active (get_elem? m.pipe (context m 0)) then fetched else none_fetched) ∷ events r
events (go {t} r (works (finishes fuel v m small late runs e))) =
    (if is_active (get_elem? t.manager.pipe (context t.manager 3))
      then acknowledged
      else none_acknowledged)
    ∷ events r

-- The abstract queue: its state is the number of each of four events so far.
abbrev pub count : Event → Counts → Counts
count submitted c = record c { submitted = suc c.submitted }
count fetched c = record c { fetched = suc c.fetched }
count none_fetched c = c
count acknowledged c = record c { acked = suc c.acked }
count none_acknowledged c = c
count collected c = record c { collected = suc c.collected }

abbrev pub tally : List Event → Counts
tally [] = no_counts
tally (x ∷ earlier) = count x (tally earlier)

-- Its guards. It holds fewer tasks than it has slots, and the SPE finds none only if there is none.
abbrev pub Allows : ℕ → Event → Counts → Type 0
Allows size submitted c = suc c.submitted < c.collected + size
Allows size fetched c = c.fetched < c.submitted
Allows size none_fetched c = c.fetched ≡ c.submitted
Allows size acknowledged c = c.acked < c.fetched
Allows size none_acknowledged c = Unit
Allows size collected c = c.collected < c.acked

abbrev pub IsHistory : ℕ → List Event → Type 0
IsHistory size [] = Unit
IsHistory size (x ∷ earlier) = Allows size x (tally earlier) × IsHistory size earlier

fetched-Allows :
    (size : ℕ) (c : Counts) (s : System) (i : IsSystem size c s) (f0 : PipeEntry)
    → f0.active ≡ not (c.fetched == c.submitted)
    → let x = if f0.active then fetched else none_fetched in
      Allows size x c × (counts_fetched c f0 ≡ count x c)
fetched-Allows size c s i f0 active = elim (Bool-cases f0.active) [
  | inl on ↦
      let more : c.fetched < c.submitted = ground (arith, on, active, i.ordered.fs) in
      rw on (more, ap (λ n. record c { fetched = n }) (omega (arith, ap bit on)))
  | inr off ↦
      let none_left : c.fetched ≡ c.submitted = ground (arith, off, active) in
      rw off (none_left, ap (λ n. record c { fetched = n }) (omega (arith, ap bit off)))
]

finished-Allows :
    (size : ℕ) (c : Counts) (s : System) (i : IsSystem size c s)
    → let x = if i.e3.active then acknowledged else none_acknowledged in
      Allows size x c × (counts_finished c i.e3 ≡ count x c)
finished-Allows size c s i = elim (Bool-cases i.e3.active) [
  | inl on ↦
      let more : c.acked < c.fetched = omega (arith, ap bit on, i.spu.flight) in
      rw on (more, ap (λ n. record c { acked = n }) (omega (arith, ap bit on)))
  | inr off ↦ rw off (tt, ap (λ n. record c { acked = n }) (omega (arith, ap bit off)))
]

-- One more event, which the abstract queue allows.
More : ℕ → Event → Counts → System → Type 0
More size x c t = Allows size x c × IsSystem size (count x c) t

fetch-More :
    (size : ℕ) (c : Counts) (s : System) (i : IsSystem size c s) (v : View) (m : Manager)
    → v.line ≡ s.port.atomic
    → v.tasks ≡ s.port.tasks
    → s.fetched ≡ false
    → stage1 v (shared s) ≡ ok m
    → More size
        (if is_active (get_elem? m.pipe (context m 0)) then fetched else none_fetched)
        c
        (record s { manager = m; fetched = true })
unfolding More is_active
fetch-More size c s i v m line tasks early runs =
    let (made, f0, made_runs, j, active, _, (stands, _)) =
      fetch-IsSystem size c s i v line tasks early in
    let same : made ≡ m = cc in
    let front : get_elem? m.pipe (context m 0) ≡ some f0 =
      subst (λ g. get_elem? g.pipe (context g 0) ≡ some f0) same (j.spu.at0 ∙ ap some stands.0) in
    let (allowed, counted) = fetched-Allows size c s i f0 active in
    rw front (
      allowed,
      subst
          (λ g.
            IsSystem size (count (if f0.active then fetched else none_fetched) c)
              (record s { manager = g; fetched = true }))
          same
          (subst (λ d. IsSystem size d (record s { manager = made; fetched = true })) counted j),
    )

finish-More :
    (size : ℕ) (c : Counts) (s : System) (i : IsSystem size c s) (fuel : ℕ) (v : View) (m : Manager)
    → v.res < 2 ^ 32
    → later_stages fuel v (shared s) ≡ ok m
    → More size
        (if is_active (get_elem? s.manager.pipe (context s.manager 3))
          then acknowledged
          else none_acknowledged)
        c
        (record s { port = record (s.port) { acks = m.acks }; manager = m; fetched = false })
unfolding More is_active
finish-More size c s i fuel v m small runs =
    let (made, w2, made_runs, j, _, _) = finish-IsSystem size c s i fuel v small in
    let same : made ≡ m = cc in
    let (allowed, counted) = finished-Allows size c s i in
    let left : Manager → System =
      λ g. record s { port = record (s.port) { acks = g.acks }; manager = g; fetched = false } in
    rw i.spu.at3 (
      allowed,
      subst
          (λ g.
            IsSystem size (count (if i.e3.active then acknowledged else none_acknowledged) c)
              (left g))
          same (subst (λ d. IsSystem size d (left made)) counted j),
    )

-- The history up to a state.
History : ℕ → {s t : System} → Reach s t → Type 0
History size {t = t} r = IsHistory size (events r) × IsSystem size (tally (events r)) t

More-History :
    (size : ℕ) (earlier : List Event) (x : Event) {t u : System}
    → IsHistory size earlier
    → More size x (tally earlier) t
    → u ≡ t
    → IsHistory size (x ∷ earlier) × IsSystem size (tally (x ∷ earlier)) u
unfolding More
More-History size earlier x h (allowed, kept) e =
    ((allowed, h), subst (IsSystem size (count x (tally earlier))) (sym e) kept)

Reach-History :
    (size : ℕ) {s t : System} (r : Reach s t) → IsSystem size no_counts s → History size r
unfolding History events More
Reach-History size here i = (tt, i)
Reach-History size (go {t} r (submits stored adds q tries free runs e)) i =
    let (h, j) = Reach-History size r i in
    let o = submit-Ordered size (tally (events r)) t.port j.ordered j.host free in
    More-History size (events r) submitted h
      (o.room, submit-IsSystem size (tally (events r)) t j stored adds q tries free runs) e
Reach-History size (go {t} r (works (collects ack holds ne e))) i =
    let (h, j) = Reach-History size r i in
    let lt = answered-lt size (tally (events r)) t.port j.ordered j.host ack j.acks holds ne in
    More-History size (events r) collected h
      (lt, collect-IsSystem size (tally (events r)) t j ack holds ne) e
Reach-History size (go {t} r (works (fetches v m line tasks early runs e))) i =
    let (h, j) = Reach-History size r i in
    More-History size (events r) _ h
      (fetch-More size (tally (events r)) t j v m line tasks early runs) e
Reach-History size (go {t} r (works (finishes fuel v m small late runs e))) i =
    let (h, j) = Reach-History size r i in
    More-History size (events r) _ h (finish-More size (tally (events r)) t j fuel v m small runs) e

-- From a start (IsStart), the events of any turns of the host, fifothread and the SPE, in any order, are
-- a history of the abstract queue, whose state is the four numbers of the tasks that these events have
-- submitted, fetched, acknowledged and taken back so far. Each event meets its guard at its place in
-- the history: a task is submitted only if fewer tasks than there are slots are then not taken back,
-- fetched only if it is submitted, acknowledged only if it is fetched, and taken back only if it is
-- acknowledged; and stage1 fetches none only if every submitted task is fetched. The state that is
-- reached is that of these numbers (IsSystem).
pub Reach-IsHistory :
    (size : ℕ) (s t : System)
    → IsStart size s
    → (r : Reach s t) → IsHistory size (events r) × IsSystem size (tally (events r)) t
unfolding History
Reach-IsHistory size s t st r = Reach-History size r (start-IsSystem size s st)
