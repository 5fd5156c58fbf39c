-- ===== src/Fifo/Tasks.antt =====
-- fifoNoop and fifo_addition on all queues, in terms of the selected one.
use mathlib.Core.Path.{subst}
use native.Mathlib.Decide.{ℕ_discrete}
use speutils_debs.Base.{
  ℕ, zero, suc, ◌+◌, ◌<◌, ◌≡◌, ◌≢◌, refl, sym, ap, ◌∙◌, Bool, true, false, some, List, [], ◌∷◌,
  ◌++◌, arith, get_elem?, set, length, Outcome, ok, deref, ◌>>=◌, >>=_inverse, get_elem?-set_self,
  get_elem?-set_ne, get_elem?-lt, length-set, set-set, set_self, >>=_under, >>=_ok,
}
use speutils_debs.Messages
use speutils_debs.Ring.{RingContext, get_front, has_free, inc_front}
use speutils_debs.Ring.Count.{IsValid, inc_front-used}
use speutils_debs.Ring.Pending.{pending, wrap}
use speutils_debs.Fifo.Port.{Slot, Port, Host, port, set_port}
use speutils_debs.Fifo.Select.{advance, select_fifo}
use speutils_debs.Fifo.Select.Turn.{IsFree, select_fifo-turn}
use speutils_debs.Fifo.Submit.{
  begin_port, add_port, kick_port, fifo_begin, fifo_add, fifo_kick, internal_handle, fifo_noop,
  fifo_addition,
}
use speutils_debs.Fifo.Submit.Task.{HasSlot, add_all}
use speutils_debs.Fifo.Submit.Kick.{SomeStored, submit_port}
use speutils_debs.Fifo.Queue.{submit_port-append}
use speutils_debs.Fifo.Collect.Release.{IsSettled}
pub mod Turns
pub mod Repeat
pub mod Even

abbrev pub add_each : ℕ → List ℕ → Host → Outcome Host
add_each spe [] host = ok host
add_each spe (arg ∷ args) host = do next ← fifo_add spe arg host; add_each spe args next

abbrev pub task : ℕ → List Bool → ℕ → ℕ → List ℕ → Host → Outcome Host
task fuel stored command handle args host = do
  (spe, begun) ← fifo_begin fuel command handle host
  full ← add_each spe args begun
  fifo_kick stored spe full

pub fifo_noop-task :
    (fuel : ℕ) (stored : List Bool) (host : Host)
    → fifo_noop fuel stored host ≡ task fuel stored Messages.noop internal_handle [] host
unfolding fifo_noop
fifo_noop-task fuel stored host = refl

module _ (host : Host) (spe : ℕ) {p : Port} (holds : get_elem? host.ports spe ≡ some p) where
  set_port-holds : (q : Port) → get_elem? (set_port host spe q).ports spe ≡ some q
  unfolding set_port
  set_port-holds q = get_elem?-set_self host.ports spe q (get_elem?-lt host.ports spe holds)

  set_port-again : (q r : Port) → set_port (set_port host spe q) spe r ≡ set_port host spe r
  unfolding set_port
  set_port-again q r = ap (λ ps. record host { ports = ps }) (set-set host.ports spe q r)

  fifo_kick-port :
      (stored : List Bool) {q : Port}
      → kick_port stored p ≡ ok q
      → fifo_kick stored spe host ≡ ok (set_port host spe q)
  unfolding fifo_kick port
  fifo_kick-port stored runs = rw holds (rw runs refl)

  fifo_add-port :
      (arg : ℕ) {q : Port}
      → add_port arg p ≡ ok q
      → fifo_add spe arg host ≡ ok (set_port host spe q)
  unfolding fifo_add port
  fifo_add-port arg runs = rw holds (rw runs refl)

pub fifo_addition-task :
    (fuel : ℕ) (stored : List Bool) (adds : ℕ) (host : Host)
    → fifo_addition fuel stored adds host
      ≡ task fuel stored Messages.add internal_handle (adds ∷ 1 ∷ 2 ∷ []) host
unfolding fifo_addition
fifo_addition-task fuel stored adds host = ap (λ f. begun >>= f) (λ i x. adds-first x.0 x.1 i)
  where
    begun : Outcome (ℕ × Host)
    begun = fifo_begin fuel Messages.add internal_handle host

    adds-first :
        (spe : ℕ) (h : Host)
        → (fifo_add spe adds h >>= λ one.
            fifo_add spe 1 one >>= λ two. fifo_add spe 2 two >>= fifo_kick stored spe)
          ≡ (add_each spe (adds ∷ 1 ∷ 2 ∷ []) h >>= fifo_kick stored spe)
    adds-first spe h = >>=_under (fifo_add spe adds h) _ (fifo_kick stored spe) λ one.
        >>=_under (fifo_add spe 1 one) _ (fifo_kick stored spe)
          λ two. >>=_ok (fifo_add spe 2 two) (fifo_kick stored spe)

add_each-port :
    (args : List ℕ) (host : Host) (spe : ℕ) {p q : Port}
    → get_elem? host.ports spe ≡ some p
    → add_all args p ≡ ok q
    → add_each spe args host ≡ ok (set_port host spe q)
unfolding add_all set_port
add_each-port [] host spe {p} {q} holds runs =
    let same : some p ≡ some q = cc in
    ap (λ ps. ok (record host { ports = ps })) (sym (set_self host.ports spe q (holds ∙ same)))
add_each-port (arg ∷ args) host spe {p} {q} holds runs =
    let (one, first, later) = >>=_inverse (add_port arg p) (add_all args) runs in
    rw (fifo_add-port host spe holds arg first) (
      add_each-port args (set_port host spe one) spe (set_port-holds host spe holds one) later
      ∙ ap ok (set_port-again host spe holds one q))

fifo_begin-port :
    (fuel command handle : ℕ) (host chosen : Host) (spe : ℕ) {p q : Port}
    → select_fifo fuel host ≡ ok (spe, chosen)
    → get_elem? chosen.ports spe ≡ some p
    → begin_port command handle p ≡ ok q
    → fifo_begin fuel command handle host ≡ ok (spe, set_port chosen spe q)
unfolding fifo_begin port
fifo_begin-port fuel command handle host chosen spe selects holds runs =
    rw selects (rw holds (rw runs refl))

pub task-port :
    (fuel : ℕ) (stored : List Bool) (command handle : ℕ) (args : List ℕ) (host chosen : Host)
    (spe : ℕ) {p q : Port}
    → select_fifo fuel host ≡ ok (spe, chosen)
    → get_elem? chosen.ports spe ≡ some p
    → submit_port stored command handle args p ≡ ok q
    → task fuel stored command handle args host ≡ ok (set_port chosen spe q)
unfolding submit_port
task-port fuel stored command handle args host chosen spe {p} {q} selects holds runs =
    let (begun, begins, later) = >>=_inverse (begin_port command handle p) _ runs in
    let (full, adds, kicks) = >>=_inverse (add_all args begun) _ later in
    let at_begun = set_port-holds chosen spe holds begun in
    let one = set_port chosen spe begun in
    rw (fifo_begin-port fuel command handle host chosen spe selects holds begins) (
      rw (add_each-port args one spe at_begun adds) (
        fifo_kick-port (set_port one spe full) spe (set_port-holds one spe at_begun full) stored
          kicks
        ∙ ap ok (set_port-again one spe at_begun full q ∙ set_port-again chosen spe holds begun q)))
