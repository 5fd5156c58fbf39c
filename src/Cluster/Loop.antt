-- ===== src/Cluster/Loop.antt =====
-- The loop of fifo_addition in tst/task_iface.c, as turns of the host.
use speutils_debs.Base.{ℕ, zero, suc, ◌+◌, ◌≤◌, ◌≡◌, refl, sym, ap, ◌∙◌, Bool, List, arith, ok}
use speutils_debs.Fifo.Port.{Host}
use speutils_debs.Fifo.Submit.Kick.{SomeStored}
use speutils_debs.Fifo.Tasks.Repeat.{addition_loop, total, room, some-IsFree, addition-Grown}
use speutils_debs.Cluster.{Cluster, Course, adds, moves}
use speutils_debs.Cluster.Views.{IsFirst, Course-Views, Views-IsHost}

-- The host behind the loop, with the SPEs at rest.
pub record Looped (s t : Cluster) (rounds i arg : ℕ) (tries : ℕ → List Bool) : Type 0 where
  pub after : Host
  pub returns : addition_loop rounds i t.host.spes arg tries t.host ≡ ok after
  pub course : Course s (record t { host = after })

module _ (tries : ℕ → List Bool) (answers : (i : ℕ) → SomeStored (tries i)) (size : ℕ) (s : Cluster)
    (f : IsFirst size s) where
  pub addition_loop-Course :
      (rounds i arg : ℕ) {t : Cluster}
      → Course s t
      → rounds ≤ total room t.host.ports
      → Looped s t rounds i arg tries
  unfolding addition_loop
  addition_loop-Course zero i arg {t} c le = record { after = t.host; returns = refl; course = c }
  addition_loop-Course (suc rounds) i arg {t} c le =
      let is = Views-IsHost size s f (Course-Views size s f c) in
      let g = addition-Grown tries answers i arg t.host is (omega (arith, le)) in
      let (k, below, free) = some-IsFree t.host is (omega (arith, le)) in
      let next = moves c (adds (tries i) arg k g.after (answers i) below free g.returns refl) in
      let later = addition_loop-Course rounds (i + 1) arg next (omega (arith, le, g.less)) in
      record {
        after = later.after;
        returns = rw g.returns (
            ap (λ fuel. addition_loop rounds (i + 1) fuel arg tries g.after) (sym g.same)
            ∙ later.returns);
        course = later.course;
      }
