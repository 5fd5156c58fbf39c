-- ===== src/System/Reachable.antt =====
-- What holds in every state that a queue and its SPE reach.
use mathlib.Core.Path.{subst}
use speutils_debs.Base.{
  ℕ, zero, suc, ◌+◌, ◌-◌, ◌^◌, ◌≤◌, ◌<◌, ◌≡◌, ◌≢◌, refl, sym, ap, ◌∙◌, inl, inr, true, false, some,
  arith, get_elem?, ok, Bool-cases, ltb, if◌then◌else◌, leb, get_elem?-lt,
}
use speutils_debs.Messages
use speutils_debs.Ring.Count.{IsValid, used}
use speutils_debs.Ring.Pending.{pending, window, wrap, next, wrap-next, Avoids}
use speutils_debs.Fifo.Port.{Ack}
use speutils_debs.Fifo.Collect.Release.{IsSettled}
use speutils_debs.Spu.State.{Manager, View}
use speutils_debs.System.{
  System, Work, Step, Works, Reach, collects, fetches, finishes, submits, works, stay, work, here,
  go,
}
use speutils_debs.System.Place.{place, place-lt, place-add}
use speutils_debs.System.Invariant.{Counts, IsSystem}
use speutils_debs.System.Safety.Host.{submit-IsSystem, collect-IsSystem}
use speutils_debs.System.Safety.Spe.{fetch-IsSystem, finish-IsSystem}
use speutils_debs.System.Start.{IsStart, turn_of, no_counts, start-IsSystem}

abbrev pub Kept : ℕ → System → Type 0
Kept size s = (c : Counts) × IsSystem size c s

pub Work-Kept : (size : ℕ) {s t : System} → Work s t → Kept size s → Kept size t
Work-Kept size (collects ack holds ne e) (c, i) =
    subst (Kept size) (sym e) (_, collect-IsSystem size c _ i ack holds ne)
Work-Kept size {s} (fetches v m line tasks early runs e) (c, i) =
    let (made, f0, made_runs, j, _, _, _) = fetch-IsSystem size c s i v line tasks early in
    let same : made ≡ m = cc in
    subst (Kept size) (ap (λ g. record s { manager = g; fetched = true }) same ∙ sym e) (_, j)
Work-Kept size {s} (finishes fuel v m small late runs e) (c, i) =
    let (made, w2, made_runs, j, _, _) = finish-IsSystem size c s i fuel v small in
    let same : made ≡ m = cc in
    subst (Kept size)
      (ap
          (λ (g : Manager). record s {
            port = record (s.port) { acks = g.acks };
            manager = g;
            fetched = false;
          })
          same
        ∙ sym e)
      (_, j)

pub Step-Kept : (size : ℕ) {s t : System} → Step s t → Kept size s → Kept size t
Step-Kept size (submits stored adds q tries free runs e) (c, i) =
    subst (Kept size) (sym e) (_, submit-IsSystem size c _ i stored adds q tries free runs)
Step-Kept size (works w) k = Work-Kept size w k

pub Works-Kept : (size : ℕ) {s t : System} → Works s t → Kept size s → Kept size t
Works-Kept size stay k = k
Works-Kept size (work ws w) k = Work-Kept size w (Works-Kept size ws k)

Reach-Kept : (size : ℕ) {s t : System} → Reach s t → Kept size s → Kept size t
Reach-Kept size here k = k
Reach-Kept size (go r st) k = Step-Kept size st (Reach-Kept size r k)

-- In every state that is reached from a start (IsStart), by any turns of the host, fifothread and the
-- SPE in any order, there are four numbers, of the tasks that are submitted, fetched, acknowledged and
-- taken back, none larger than the one before it and the first and the last less than a queue apart.
-- The two ends of the ring, the shared line, the positions of the SPE and the entries of its pipeline
-- are the places of these numbers, and an acknowledgement is set exactly for the tasks that are
-- acknowledged and not taken back.
pub Reach-IsSystem :
    (size : ℕ) (s t : System) → IsStart size s → Reach s t → (c : Counts) × IsSystem size c t
Reach-IsSystem size s t st r = Reach-Kept size r (no_counts, start-IsSystem size s st)

turn-Work :
    (size fuel : ℕ) (v : View) (t : System)
    → Kept size t
    → v.line ≡ t.port.atomic
    → v.tasks ≡ t.port.tasks
    → v.res < 2 ^ 32
    → (u : System) × (turn_of fuel v t ≡ ok u) × Work t u
unfolding turn_of
turn-Work size fuel v t (c, i) line tasks small = elim (Bool-cases t.fetched) [
  | inl late ↦
      let (m, w2, runs, _, _, _) = finish-IsSystem size c t i fuel v small in
      (_, rw late (rw runs refl), finishes fuel v m small late runs refl)
  | inr early ↦
      let (m, f0, runs, _, _, _, _) = fetch-IsSystem size c t i v line tasks early in
      (_, rw early (rw runs refl), fetches v m line tasks early runs refl)
]

-- In every state that a queue and its SPE reach from a start (IsStart), the SPE's next turn on the memory that it shares with the host
-- returns: no access of the SPE is a fault.
pub Reach-turn :
    (size fuel : ℕ) (v : View) (s t : System)
    → IsStart size s
    → Reach s t
    → v.line ≡ t.port.atomic
    → v.tasks ≡ t.port.tasks
    → v.res < 2 ^ 32
    → (u : System) × (turn_of fuel v t ≡ ok u) × Work t u
Reach-turn size fuel v s t st r line tasks small =
    turn-Work size fuel v t (Reach-IsSystem size s t st r) line tasks small

window-member :
    (size b n k x : ℕ)
    → b < size
    → n ≤ size
    → Avoids x (window size b n)
    → k < n
    → x ≢ wrap size (b + k)
unfolding window
window-member size b zero k x hb hn a lt = absurd (omega (arith, lt))
window-member size b (suc n) zero x hb hn a lt = λ e. a.0 (e ∙ ground arith)
window-member size b (suc n) (suc k) x hb hn a lt = λ e.
    window-member size (next size b) n k x (ground arith) (omega (arith, hn)) a.1
      (omega (arith, lt)) (e ∙ sym (wrap-next size b k hb (omega (arith, lt, hn))))

module _ (size : ℕ) (c : Counts) (t : System) (i : IsSystem size c t) where
  slots : 0 < size
  slots = omega (arith, i.ordered.ca, i.ordered.af, i.ordered.fs, i.ordered.room)

  pub used-counts : used t.port.ring ≡ c.submitted - c.collected
  used-counts =
      let o = i.ordered in
      let below = place-lt size slots (suc c.collected) in
      let there : suc c.collected + (c.submitted - c.collected) ≡ suc c.submitted =
        omega (arith, o.ca, o.af, o.fs) in
      let ahead =
        place-add size slots (suc c.collected) (c.submitted - c.collected)
          (omega (arith, o.room)) in
      let front : place size (suc c.submitted)
          ≡ wrap size (place size (suc c.collected) + (c.submitted - c.collected)) =
        ap (place size) (sym there) ∙ ahead in
      ground
        (arith, i.host.size_is, i.host.back, i.host.front, front, below, o.room, o.ca, o.af, o.fs)

  pub IsSystem-IsValid : IsValid t.port.ring
  IsSystem-IsValid =
      let low = place-lt size slots (suc c.collected) in
      let high = place-lt size slots (suc c.submitted) in
      record {
        front_in = omega (arith, high, i.host.front, i.host.size_is);
        back_in = omega (arith, low, i.host.back, i.host.size_is);
        word = omega (arith, i.host.size_is, i.ordered.word);
      }

  clear_at :
      (x : ℕ) (a : Ack)
      → get_elem? t.port.acks x ≡ some a
      → Avoids x (pending t.port.ring)
      → a.task_id ≡ Messages.ack_clear
  clear_at x a at avoids =
      let o = i.ordered in
      let back = t.port.ring.back in
      let below : x < size = omega (arith, get_elem?-lt t.port.acks x at, i.acks.room) in
      let back_in : back < size = omega (arith, IsSystem-IsValid.back_in, i.host.size_is) in
      let k : ℕ = if leb back x then x - back else x + size - back in
      let near : k < size = ground (arith, below, back_in) in
      let around : wrap size (back + k) ≡ x = ground (arith, below, back_in) in
      elim (Bool-cases (ltb k (used t.port.ring))) [
        | inl occupied ↦ absurd (
            window-member t.port.ring.size back (used t.port.ring) k x IsSystem-IsValid.back_in
              (omega (arith, used-counts, o.room, i.host.size_is)) avoids (ground (arith, occupied))
              (sym around ∙ ap (λ n. wrap n (back + k)) (sym i.host.size_is)))
        | inr free ↦
            let out : used t.port.ring ≤ k = ground (arith, free) in
            let n : ℕ = suc c.collected + k in
            let at_n : place size n ≡ x =
              place-add size slots (suc c.collected) k (omega (arith, near))
              ∙ ap (λ b. wrap size (b + k)) (sym i.host.back)
              ∙ around in
            let (found, holds, clear) =
              i.acks.clear_acks n (omega (arith, out, used-counts, o.ca, o.af, o.fs))
                (omega (arith, near)) in
            let same : some a ≡ some found =
              sym at ∙ ap (get_elem? t.port.acks) (sym at_n) ∙ holds in
            ground (arith, same, clear)
      ]

  pub IsSystem-IsSettled : IsSettled t.port
  IsSystem-IsSettled = record {
    valid = IsSystem-IsValid;
    room = i.acks.room ∙ sym i.host.size_is;
    clear = clear_at;
  }

-- In every state that a queue and its SPE reach from a start (IsStart), the queue is in order: its ring is valid, and the slots that are not
-- occupied have clear acknowledgements.
pub Reach-IsSettled : (size : ℕ) (s t : System) → IsStart size s → Reach s t → IsSettled t.port
Reach-IsSettled size s t st r =
    let (c, i) = Reach-IsSystem size s t st r in IsSystem-IsSettled size c t i
