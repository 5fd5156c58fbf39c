-- ===== src/System/Drains.antt =====
-- Without further tasks, the SPE and fifothread can empty the queue from every state that is reached.
use speutils_debs.Base.{
  ℕ, zero, suc, ◌+◌, ◌-◌, ◌≤◌, ◌<◌, ◌≡◌, refl, ap, ◌∙◌, inl, inr, true, false, not, some, arith,
  get_elem?, Bool-cases, ◌==◌,
}
use native.Mathlib.Decide.{ℕ_discrete}
use speutils_debs.Ring.{has_remaining, get_back}
use speutils_debs.Ring.Count.{has_free-has_remaining_iff}
use speutils_debs.Fifo.Collect.Release.{release}
use speutils_debs.Spu.State.{View}
use speutils_debs.Spu.Drain.Flight.{bit}
use speutils_debs.System.{System, Works, Reach, collects, fetches, finishes, stay, work}
use speutils_debs.System.Invariant.{Counts, IsSystem, load}
use speutils_debs.System.Moves.Host.{one_back}
use speutils_debs.Spu.State.{PipeEntry}
use speutils_debs.System.Moves.Spe.{counts_fetched}
use speutils_debs.System.Safety.Host.{collect-IsSystem}
use speutils_debs.System.Safety.Spe.{fetch-IsSystem, finish-IsSystem}
use speutils_debs.System.Start.{IsStart}
use speutils_debs.System.Reachable.{Reach-IsSystem, used-counts, IsSystem-IsValid}

Works-trans : {s t u : System} → Works s t → Works t u → Works s u
Works-trans ws stay = ws
Works-trans ws (work more w) = work (Works-trans ws more) w

abbrev pub view_of : System → View
view_of s = record {
  line = s.port.atomic;
  tasks = s.port.tasks;
  res = 0;
  execute = λ ls task ack. ack;
}

-- What the SPE reaches from a state: less is left to do, and the same tasks are submitted.
record Later (size : ℕ) (c : Counts) (s : System) (bound : ℕ) : Type 0 where
  u : System
  way : Works s u
  d : Counts
  kept : IsSystem size d u
  early : u.fetched ≡ false
  less : load kept ≤ bound

module _ (size : ℕ) (c : Counts) (s : System) (i : IsSystem size c s) where
  finish-Later : s.fetched ≡ true → Later size c s (load i)
  finish-Later late =
      let (m, w2, runs, j, eq, _) = finish-IsSystem size c s i 0 (view_of s) (omega arith) in
      record {
        u = _;
        way = work stay (finishes 0 (view_of s) m (omega arith) late runs refl);
        d = _;
        kept = j;
        early = refl;
        less = omega (arith, eq);
      }

  -- If nothing is fetched, everything was, and some entry is active.
  fewer :
      (f0 : PipeEntry) {d : Counts} {t u : System} (j : IsSystem size (counts_fetched c f0) t)
      (k : IsSystem size d u)
      → 0 < load i
      → f0.active ≡ not (c.fetched == c.submitted)
      → load j + bit f0.active ≡ load i
      → load k + bit j.e0.active + bit j.e1.active + bit j.e2.active + bit j.e3.active ≡ load j
      → load k ≤ load i - 1
  fewer f0 j k busy active eq eq' = elim (Bool-cases f0.active) [
    | inl on ↦ omega (arith, ap bit on, eq, eq')
    | inr off ↦
        let all : c.fetched ≡ c.submitted = ground (arith, off, active) in
        omega (arith, ap bit off, all, eq, eq', busy)
  ]

  round-Later : s.fetched ≡ false → 0 < load i → Later size c s (load i - 1)
  round-Later early busy =
      let (m, f0, runs, j, active, eq, _) = fetch-IsSystem size c s i (view_of s) refl refl early in
      let t = record s { manager = m; fetched = true } in
      let (n, w2, runs', k, eq', _) = finish-IsSystem size _ t j 0 (view_of t) (omega arith) in
      record {
        u = _;
        way =
            work (work stay (fetches (view_of s) m refl refl early runs refl))
              (finishes 0 (view_of t) n (omega arith) refl runs' refl);
        d = _;
        kept = k;
        early = refl;
        less = fewer f0 j k busy active eq eq';
      }

-- Rounds of the SPE until every submitted task is acknowledged.
acknowledge :
    (size bound : ℕ) (c : Counts) (s : System) (i : IsSystem size c s)
    → s.fetched ≡ false
    → load i ≤ bound
    → Later size c s 0
acknowledge size zero c s i early le = record {
  u = s;
  way = stay;
  d = c;
  kept = i;
  early = early;
  less = le;
}
acknowledge size (suc bound) c s i early le = elim (ℕ_discrete (load i) 0) [
  | yes done ↦ record {
    u = s;
    way = stay;
    d = c;
    kept = i;
    early = early;
    less = omega (arith, done);
  }
  | no busy ↦
      let l = round-Later size c s i early (omega (arith, busy)) in
      let rest = acknowledge size bound l.d l.u l.kept l.early (omega (arith, l.less, le)) in
      record {
        u = rest.u;
        way = Works-trans l.way rest.way;
        d = rest.d;
        kept = rest.kept;
        early = rest.early;
        less = rest.less;
      }
]

all_acked :
    (size : ℕ) (c : Counts) (s : System) (i : IsSystem size c s)
    → load i ≤ 0
    → c.acked ≡ c.submitted
all_acked size c s i done = omega (arith, done, i.spu.flight, i.ordered.fs)

none_used :
    (size : ℕ) (c : Counts) (s : System) (i : IsSystem size c s)
    → c.submitted - c.collected ≡ 0
    → has_remaining s.port.ring ≡ false
none_used size c s i none_left = elim (Bool-cases (has_remaining s.port.ring)) [
  | inl more ↦
      let some_used = (has_free-has_remaining_iff (IsSystem-IsValid size c s i)).1.0 more in
      absurd (omega (arith, some_used, none_left, used-counts size c s i))
  | inr empty ↦ empty
]

-- Turns of fifothread until every acknowledged slot is taken back.
collect_all :
    (size left : ℕ) (c : Counts) (s : System) (i : IsSystem size c s)
    → c.acked ≡ c.submitted
    → c.submitted - c.collected ≡ left
    → (u : System) × Works s u × (has_remaining u.port.ring ≡ false)
collect_all size zero c s i all none_left = (s, stay, none_used size c s i none_left)
collect_all size (suc left) c s i all some_left =
    let (ack, at, ne) =
      i.acks.set_acks (suc c.collected) (omega arith) (omega (arith, all, some_left)) in
    let holds : get_elem? s.port.acks (get_back s.port.ring) ≡ some ack =
      unfold get_back in ap (get_elem? s.port.acks) i.host.back ∙ at in
    let t = record s { port = release s.port ack } in
    let j = collect-IsSystem size c s i ack holds ne in
    let (u, ways, empty) =
      collect_all size left (one_back size c s.port i.ordered i.host) t j all
        (omega (arith, some_left)) in
    (u, Works-trans (work stay (collects ack holds ne refl)) ways, empty)

Kept-drains :
    (size : ℕ) (c : Counts) (s : System) (i : IsSystem size c s)
    → s.fetched ≡ false
    → (u : System) × Works s u × (has_remaining u.port.ring ≡ false)
Kept-drains size c s i early =
    let l = acknowledge size (load i) c s i early (omega arith) in
    let all = all_acked size l.d l.u l.kept l.less in
    let (u, ways, empty) =
      collect_all size (l.d.submitted - l.d.collected) l.d l.u l.kept all refl in
    (u, Works-trans l.way ways, empty)

-- From every state that a queue and its SPE reach from a start (IsStart), turns of the SPE and of fifothread alone, without another task, can
-- lead to a state in which no slot of the queue is occupied.
pub Reach-drains :
    (size : ℕ) (s t : System)
    → IsStart size s
    → Reach s t
    → (u : System) × Works t u × (has_remaining u.port.ring ≡ false)
Reach-drains size s t st r =
    let (c, i) = Reach-IsSystem size s t st r in
    elim (Bool-cases t.fetched) [
      | inl late ↦
          let l = finish-Later size c t i late in
          let (u, ways, empty) = Kept-drains size l.d l.u l.kept l.early in
          (u, Works-trans l.way ways, empty)
      | inr early ↦ Kept-drains size c t i early
    ]
