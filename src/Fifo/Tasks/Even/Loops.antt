-- ===== src/Fifo/Tasks/Even/Loops.antt =====
-- tst/task_iface.c: what each queue holds behind its loops.
use mathlib.Core.Path.{subst}
use native.Mathlib.Decide.{ℕ_discrete}
use native.Mathlib.Nat.{mul-le-mul_right}
use speutils_debs.Base.{
  ℕ, zero, suc, ◌+◌, ◌-◌, ◌*◌, ◌≤◌, ◌<◌, ◌≡◌, refl, sym, ap, ◌∙◌, inl, inr, Bool, some, List, arith,
  Bool-cases, get_elem?, ltb, Outcome, ok, ◌>>=◌,
}
use speutils_debs.Ring.Count.{used}
use speutils_debs.Fifo.Port.{Port, Host, set_port}
use speutils_debs.Fifo.Select.{advance}
use speutils_debs.Fifo.Submit.{fifo_noop, fifo_addition}
use speutils_debs.Fifo.Submit.Kick.{SomeStored}
use speutils_debs.Fifo.Tasks.Turns.{IsHost, Given, fifo_noop-Given, fifo_addition-Given}
use speutils_debs.Fifo.Tasks.Repeat.{noop_loop, addition_loop}
use speutils_debs.Fifo.Tasks.Even.{
  IsEven, share, next_q, next-count, here, below, here-IsFree, here-below, after, Given-IsEven,
}

-- A host behind some tasks, with the turns counted.
pub record Dealt (size q c : ℕ) (host : Host) (rounds : ℕ) (out : Outcome Host) : Type 0 where
  pub after : Host
  pub returns : out ≡ ok after
  pub kept : IsHost after
  pub same : after.spes ≡ host.spes
  pub turns : ℕ
  pub rest : ℕ
  pub even : IsEven size turns rest after
  pub count : turns * host.spes + rest ≡ q * host.spes + c + rounds

Given-Dealt :
    {size q c : ℕ} {host : Host} {stored : List Bool} {command handle : ℕ} {args : List ℕ}
    {out : Outcome Host}
    → (is : IsHost host) → (even : IsEven size q c host) → q + 1 < size
    → Given host stored command handle args out
    → Dealt size q c host 1 out
unfolding here after set_port
Given-Dealt {size} {q} {c} {host} is even room g = record {
  after = _;
  returns = g.returns;
  kept = g.kept;
  same = refl;
  turns = next_q host.spes q c;
  rest = advance host.spes c;
  even = Given-IsEven is even room g;
  count = next-count host.spes q c (below is even room);
}

Dealt-again :
    {size q c : ℕ} {host : Host} {rounds : ℕ} {one : Outcome Host} (rest : Host → Outcome Host)
    → (d : Dealt size q c host 1 one) → Dealt size d.turns d.rest d.after rounds (rest d.after)
    → Dealt size q c host (suc rounds) (one >>= rest)
Dealt-again {q} {c} {host} {rounds} rest d later = record {
  after = later.after;
  returns = rw d.returns later.returns;
  kept = later.kept;
  same = later.same ∙ d.same;
  turns = later.turns;
  rest = later.rest;
  even = later.even;
  count =
      let counted =
        subst (λ n. later.turns * n + later.rest ≡ d.turns * n + d.rest + rounds) d.same
          later.count in
      omega (arith, counted, d.count);
}

-- In a loop whose tasks all fit, the next one does.
room-next : (size q c n rounds : ℕ) → q * n + c + suc rounds ≤ size * n → q < size
room-next size q c n rounds le = elim (Bool-cases (ltb q size)) [
  | inl some_room ↦ ground (arith, some_room)
  | inr none_left ↦
      let full : size ≤ q = ground (arith, none_left) in
      absurd (omega (arith, mul-le-mul_right n full, le))
]

module _ (tries : ℕ → List Bool) (answers : (i : ℕ) → SomeStored (tries i)) (size : ℕ) where
  noop-Dealt :
      (i q c : ℕ) (host : Host)
      → IsHost host
      → IsEven size q c host
      → q + 1 < size
      → Dealt size q c host 1 (fifo_noop host.spes (tries i) host)
  noop-Dealt i q c host is even room = Given-Dealt is even room (
      fifo_noop-Given (tries i) host (here is even room) (answers i) is (here-below is even room)
        (here-IsFree is even room))

  addition-Dealt :
      (i arg q c : ℕ) (host : Host)
      → IsHost host
      → IsEven size q c host
      → q + 1 < size
      → Dealt size q c host 1 (fifo_addition host.spes (tries i) arg host)
  addition-Dealt i arg q c host is even room = Given-Dealt is even room (
      fifo_addition-Given (tries i) host (here is even room) arg (answers i) is
        (here-below is even room) (here-IsFree is even room))

  nothing-Dealt :
      (q c : ℕ) (host : Host) → IsHost host → IsEven size q c host → Dealt size q c host 0 (ok host)
  nothing-Dealt q c host is even = record {
    after = host;
    returns = refl;
    kept = is;
    same = refl;
    turns = q;
    rest = c;
    even = even;
    count = omega arith;
  }

  -- The room for the rounds that are left.
  fits-later :
      (rounds : ℕ) {q c : ℕ} {host : Host} {out : Outcome Host}
      → (d : Dealt size q c host 1 out) → q * host.spes + c + suc rounds ≤ (size - 1) * host.spes
      → d.turns * d.after.spes + d.rest + rounds ≤ (size - 1) * d.after.spes
  fits-later rounds d fits =
      subst (λ n. d.turns * n + d.rest + rounds ≤ (size - 1) * n) (sym d.same)
        (omega (arith, fits, d.count))

  fits-now : (q c n rounds : ℕ) → q * n + c + suc rounds ≤ (size - 1) * n → q + 1 < size
  fits-now q c n rounds fits = omega (arith, room-next (size - 1) q c n rounds fits)

  pub noop_loop-Dealt :
      (rounds i q c : ℕ) (host : Host)
      → IsHost host
      → IsEven size q c host
      → q * host.spes + c + rounds ≤ (size - 1) * host.spes
      → Dealt size q c host rounds (noop_loop rounds i host.spes tries host)
  unfolding noop_loop
  noop_loop-Dealt zero i q c host is even fits = nothing-Dealt q c host is even
  noop_loop-Dealt (suc rounds) i q c host is even fits =
      let d = noop-Dealt i q c host is even (fits-now q c host.spes rounds fits) in
      Dealt-again (noop_loop rounds (i + 1) host.spes tries) d (
        subst
          (λ fuel.
            Dealt size d.turns d.rest d.after rounds (noop_loop rounds (i + 1) fuel tries d.after))
          d.same
          (noop_loop-Dealt rounds (i + 1) d.turns d.rest d.after d.kept d.even
            (fits-later rounds d fits)))

  pub addition_loop-Dealt :
      (rounds i arg q c : ℕ) (host : Host)
      → IsHost host
      → IsEven size q c host
      → q * host.spes + c + rounds ≤ (size - 1) * host.spes
      → Dealt size q c host rounds (addition_loop rounds i host.spes arg tries host)
  unfolding addition_loop
  addition_loop-Dealt zero i arg q c host is even fits = nothing-Dealt q c host is even
  addition_loop-Dealt (suc rounds) i arg q c host is even fits =
      let d = addition-Dealt i arg q c host is even (fits-now q c host.spes rounds fits) in
      Dealt-again (addition_loop rounds (i + 1) host.spes arg tries) d (
        subst
          (λ fuel.
            Dealt size d.turns d.rest d.after rounds
              (addition_loop rounds (i + 1) fuel arg tries d.after))
          d.same
          (addition_loop-Dealt rounds (i + 1) arg d.turns d.rest d.after d.kept d.even
            (fits-later rounds d fits)))

-- Whole rounds of turns give every queue the same number of tasks.
turns-whole : (ops q c n : ℕ) → c < n → q * n + c ≡ ops * n → (q ≡ ops) × (c ≡ 0)
turns-whole ops q c n lt e = elim (ℕ_discrete q ops) [
  | yes same ↦ let all : q * n ≡ ops * n = ap (λ k. k * n) same in (same, omega (arith, all, e))
  | no other ↦ elim (Bool-cases (ltb q ops)) [
    | inl less ↦
        let under : q + 1 ≤ ops = ground (arith, less) in
        absurd (omega (arith, mul-le-mul_right n under, e, lt))
    | inr more ↦
        let over : ops + 1 ≤ q = ground (arith, more, other) in
        absurd (omega (arith, mul-le-mul_right n over, e, lt))
  ]
]

share-whole : (q i : ℕ) → share q 0 i ≡ q
share-whole q zero = refl
share-whole q (suc i) = ground arith

-- Every queue holds as many tasks.
abbrev pub AllHave : ℕ → Host → Type 0
AllHave n host = (i : ℕ) (p : Port) → get_elem? host.ports i ≡ some p → used p.ring ≡ n

pub Dealt-AllHave :
    {size ops rounds : ℕ} {host : Host} {out : Outcome Host}
    → (d : Dealt size 0 0 host rounds out) → rounds ≡ ops * host.spes
    → AllHave ops d.after
Dealt-AllHave {ops} {host} d all i p holds =
    let low : d.rest < host.spes = omega (arith, d.kept.current_in, d.even.current, d.same) in
    let (turns, rest) =
      turns-whole ops d.turns d.rest host.spes low (omega (arith, d.count, all)) in
    d.even.shares i p holds ∙ ap (λ c. share d.turns c i) rest ∙ share-whole d.turns i ∙ turns
