-- ===== src/Cluster/Views.antt =====
-- Each queue of the host, with its SPE, in a sequence of turns of all of them.
use mathlib.Core.Path.{subst}
use native.Mathlib.Decide.{ℕ_discrete}
use speutils_debs.Base.{
  ℕ, ◌<◌, ◌≡◌, ◌≢◌, sym, ap, ◌∙◌, Bool, true, false, some, List, [], ◌∷◌, arith, ◌==◌,
  if◌then◌else◌, get_elem?, set, length, Outcome, ok, get_elem?-set_self, get_elem?-set_ne,
  get_elem?-lt, length-set,
}
use speutils_debs.Messages
use speutils_debs.Fifo.Port.{Port, Host, set_port}
use speutils_debs.Fifo.Select.Turn.{IsFree}
use speutils_debs.Fifo.Submit.{internal_handle, fifo_addition}
use speutils_debs.Fifo.Submit.Kick.{SomeStored}
use speutils_debs.Fifo.Tasks.Turns.{IsHost, IsOpen, Given, fifo_addition-Given}
use speutils_debs.System.{System, Work, Reach, submits, works, here, go}
use speutils_debs.System.Invariant.{Counts, IsSystem}
use speutils_debs.System.Start.{IsStart}
use speutils_debs.System.Reachable.{Reach-IsSystem, IsSystem-IsSettled}
use speutils_debs.Cluster.{
  Cluster, view, put_view, toils_at, Move, adds, toils, Course, begins, moves,
}

-- As many queues as SPEs, and each of them with its SPE in a first state.
pub record IsFirst (size : ℕ) (s : Cluster) : Type 0 where
  pub all_spes : s.host.spes ≡ length s.host.ports
  pub current_in : s.host.current_spe < s.host.spes
  pub starts : (i : ℕ) (p : Port) → get_elem? s.host.ports i ≡ some p → IsStart size (view s p i)

-- What the queue at an index has gone through.
pub record Passed (s : Cluster) (i : ℕ) (u : System) : Type 0 where
  pub first : Port
  pub held : get_elem? s.host.ports i ≡ some first
  pub way : Reach (view s first i) u

pub record Views (s t : Cluster) : Type 0 where
  pub all_spes : t.host.spes ≡ length t.host.ports
  pub current_in : t.host.current_spe < t.host.spes
  pub passed : (i : ℕ) (p : Port) → get_elem? t.host.ports i ≡ some p → Passed s i (view t p i)

first-Views : {size : ℕ} {s : Cluster} → IsFirst size s → Views s s
first-Views f = record {
  all_spes = f.all_spes;
  current_in = f.current_in;
  passed = λ i p at. record { first = p; held = at; way = here };
}

-- A queue and its SPE behind a turn at some index.
abbrev at_test : Cluster → Port → ℕ → System → Bool → System
at_test t p j u b = record {
  port = p;
  manager = if b then u.manager else t.managers j;
  fetched = if b then u.fetched else t.fetched j;
}

pub put_view-own : (t : Cluster) (i : ℕ) (u : System) → view (put_view t i u) u.port i ≡ u
put_view-own t i u = let same : (i == i) ≡ true = ground arith in ap (at_test t u.port i u) same

pub put_view-other :
    (t : Cluster) (i j : ℕ) (u : System) (p : Port) → i ≢ j → view (put_view t i u) p j ≡ view t p j
put_view-other t i j u p ne =
    let apart : (j == i) ≡ false = ground (arith, ne) in ap (at_test t p j u) apart

-- The queue that a turn leaves at its index, and at the others.
pub set-own :
    (ps : List Port) (i : ℕ) {p q : Port} (r : Port)
    → get_elem? ps i ≡ some p
    → get_elem? (set ps i r) i ≡ some q
    → r ≡ q
set-own ps i r at now = let own = get_elem?-set_self ps i r (get_elem?-lt ps i at) in cc

pub set-other :
    (ps : List Port) (i j : ℕ) {q : Port} (r : Port)
    → i ≢ j
    → get_elem? (set ps i r) j ≡ some q
    → get_elem? ps j ≡ some q
set-other ps i j r ne now = sym (get_elem?-set_ne ps i j r ne) ∙ now

module _ (size : ℕ) (s : Cluster) (f : IsFirst size s) where
  pub Passed-IsSystem : {i : ℕ} {u : System} → Passed s i u → (c : Counts) × IsSystem size c u
  Passed-IsSystem {i} {u} p =
      Reach-IsSystem size (view s p.first i) u (f.starts i p.first p.held) p.way

  Passed-IsOpen : (t : Cluster) (i : ℕ) (p : Port) → Passed s i (view t p i) → IsOpen p
  Passed-IsOpen t i p passed =
      let (c, is) = Passed-IsSystem passed in
      record {
        settled = IsSystem-IsSettled size c (view t p i) is;
        kicked = is.host.kicked;
        slots = λ j lt.
            let (slot, holds, len) = is.tasks.holds j (omega (arith, lt, is.host.size_is)) in
            (slot, (holds, len));
      }

  pub Views-IsHost : {t : Cluster} → Views s t → IsHost t.host
  Views-IsHost {t} v = record {
    all_spes = v.all_spes;
    current_in = v.current_in;
    ready = λ i p at. Passed-IsOpen t i p (v.passed i p at);
  }

  -- The queue that a task was given to.
  Given-Passed :
      {t : Cluster} (v : Views s t) {stored : List Bool} {amount : ℕ} {out : Outcome Host}
      {q : Port}
      → SomeStored stored
      → (g : Given t.host stored Messages.add internal_handle (amount ∷ 1 ∷ 2 ∷ []) out)
      → get_elem? (set t.host.ports g.spe g.after) g.spe ≡ some q
      → Passed s g.spe (view t q g.spe)
  Given-Passed {t} v {stored} {amount = amount} tries g now =
      let own = set-own t.host.ports g.spe g.after g.holds now in
      let old = v.passed g.spe g.before g.holds in
      record {
        first = old.first;
        held = old.held;
        way = go old.way (
            submits stored amount g.after tries g.free g.submits
              (ap (λ p. view t p g.spe) (sym own)));
      }

  adds-Views :
      {t : Cluster} (v : Views s t) (stored : List Bool) (amount i : ℕ) (next : Host)
      → SomeStored stored
      → i < t.host.spes
      → IsFree t.host.ports i true
      → fifo_addition t.host.spes stored amount t.host ≡ ok next
      → Views s (record t { host = next })
  adds-Views {t} v stored amount i next tries lt free runs =
      let g = fifo_addition-Given stored t.host i amount tries (Views-IsHost v) lt free in
      let t' = record t {
        host = set_port (record (t.host) { current_spe = g.spe }) g.spe g.after;
      } in
      let same : set_port (record (t.host) { current_spe = g.spe }) g.spe g.after ≡ next = cc in
      subst (λ h. Views s (record t { host = h })) same
        (record {
          all_spes = g.kept.all_spes;
          current_in = g.kept.current_in;
          passed = λ j q holds.
              unfold set_port in
              elim (ℕ_discrete g.spe j) [
                | yes here_now ↦
                    subst (λ k. Passed s k (view t q k)) here_now
                      (Given-Passed v tries g
                        (ap (get_elem? (set t.host.ports g.spe g.after)) here_now ∙ holds))
                | no other ↦ v.passed j q (set-other t.host.ports g.spe j g.after other holds)
              ];
        })

  toils-Views :
      {t : Cluster}
      → Views s t
      → (i : ℕ) (p : Port) (u : System) → get_elem? t.host.ports i ≡ some p
      → Work (view t p i) u
      → Views s (put_view t i u)
  toils-Views {t} v i p u at w = record {
    all_spes = v.all_spes ∙ sym (length-set t.host.ports i u.port);
    current_in = v.current_in;
    passed = λ j q holds. elim (ℕ_discrete i j) [
      | yes same ↦
          let now : get_elem? (set t.host.ports i u.port) i ≡ some q =
            ap (get_elem? (set t.host.ports i u.port)) same ∙ holds in
          let own : u.port ≡ q = set-own t.host.ports i u.port at now in
          let old = v.passed i p at in
          let new : Passed s i u = record {
            first = old.first;
            held = old.held;
            way = go old.way (works w);
          } in
          let seen : u ≡ view (put_view t i u) q i =
            sym (put_view-own t i u) ∙ ap (λ r. view (put_view t i u) r i) own in
          subst (λ k. Passed s k (view (put_view t i u) q k)) same (subst (Passed s i) seen new)
      | no other ↦
          subst (Passed s j) (sym (put_view-other t i j u q other))
            (v.passed j q (set-other t.host.ports i j u.port other holds))
    ];
  }

  Move-Views : {t u : Cluster} → Views s t → Move t u → Views s u
  Move-Views v (adds stored amount i next tries lt free runs e) =
      subst (Views s) (sym e) (adds-Views v stored amount i next tries lt free runs)
  Move-Views v (toils (toils_at i p u at w e)) = subst (Views s) (sym e) (toils-Views v i p u at w)

  pub Course-Views : {t : Cluster} → Course s t → Views s t
  Course-Views begins = first-Views f
  Course-Views (moves c m) = Move-Views (Course-Views c) m

-- From a start of the host with all its queues and SPEs (IsFirst), after any turns of the host, which calls fifo_addition,
-- of fifothread and of the SPEs in any order: every queue with its SPE has gone through a sequence of
-- the turns of one queue and its SPE, whatever happened to the other queues. All queues are in order.
pub Course-view :
    (size : ℕ) (s t : Cluster) (i : ℕ) (p : Port)
    → IsFirst size s
    → Course s t
    → get_elem? t.host.ports i ≡ some p
    → Passed s i (view t p i) × IsHost t.host
Course-view size s t i p f c at =
    let v = Course-Views size s f c in (v.passed i p at, Views-IsHost size s f v)
