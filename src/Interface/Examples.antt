-- ===== src/Interface/Examples.antt =====
-- The interface test with two SPEs and 100 additions for each.
use speutils_debs.Base.{
  List, set, length, get_elem?-set_ne, ◌∙◌, ℕ, zero, suc, ◌*◌, ◌<◌, ◌≡◌, refl, inl, inr, true,
  false, none, some, [], ◌∷◌, arith, get_elem?, replicate, ok,
}
use speutils_debs.Thread.{Spe, SpuThread}
use speutils_debs.Fifo.Port.{Slot, Host}
use speutils_debs.Fifo.Init.{Blocks}
use speutils_debs.Fifo.Tasks.Turns.{IsHost}
use speutils_debs.Fifo.Tasks.Repeat.{total, occupied}
use speutils_debs.Fifo.Tasks.Even.Loops.{AllHave}
use speutils_debs.Interface.{Options, fill_queues}
use speutils_debs.Messages
use speutils_debs.Fifo.Init.{fifo_init}
use speutils_debs.System.Invariant.{IsAdding, Tasks}
use speutils_debs.System.Place.{place}
use mathlib.Core.Path.{subst}
use native.Mathlib.Decide.{ℕ_discrete}
use speutils_debs.System.Examples.{adding, held}
use speutils_debs.Cluster.{Cluster, Toils, Course}
use speutils_debs.Cluster.Start.{Local, boot}
use speutils_debs.Interface.{task_iface}
use speutils_debs.Interface.Ends.{task_iface-ends}
use speutils_debs.Interface.Fits.{fill_queues-fits}

abbrev spe : Spe
spe = record { default_entry = 1; events_enable = 2; mailbox_and_stopped = 3; stop_and_signal = 4 }

abbrev thread : SpuThread
thread = record {
  kind = 9;
  runflags = 9;
  entry = 9;
  createflags = 9;
  events = 9;
  has_pipe = false;
  thread_id = 9;
}

abbrev blocks : ℕ → Blocks
blocks i = record {
  tasks = replicate 128 (replicate 32 i);
  acks = replicate 128 (record { task_id = i; retval = i; callback = i });
}

get_elem?-replicate : (n j : ℕ) (x : Slot) → j < n → get_elem? (replicate n x) j ≡ some x
get_elem?-replicate zero j x lt = absurd (omega (arith, lt))
get_elem?-replicate (suc n) zero x lt = refl
get_elem?-replicate (suc n) (suc j) x lt = get_elem?-replicate n j x (omega (arith, lt))

abbrev options : Options
options = record { spes = 2; ops = 100; kind = 1; arg = 1000 }

fill_queues-fits_example :
    (host : Host) × (fill_queues spe (λ r. 0) thread blocks (λ i. false ∷ true ∷ []) options
      ≡ ok host)
    × IsHost host
    × (total occupied host.ports ≡ 2 * 100)
    × AllHave 100 host
fill_queues-fits_example =
    fill_queues-fits spe (λ r. 0) thread blocks (λ i. false ∷ true ∷ []) refl (λ i. refl)
      (λ i j lt. (replicate 32 i, get_elem?-replicate 128 j (replicate 32 i) lt, refl))
      (λ i. inr (inl refl)) options (omega arith) (omega arith) (omega arith) (omega arith)

-- Only the last slot holds a task that adds.
abbrev memory : List Slot
memory = set (replicate 128 (replicate 32 7)) 127 adding

abbrev tasks : ℕ → Blocks
tasks i = record { tasks = memory; acks = (blocks i).acks }

abbrev local : ℕ → Local
local i = record { held = held; heap = λ p. none; program = λ p. none }

last : get_elem? memory 127 ≡ some adding
last = refl

memory-slots :
    (i : ℕ) → i < 128 → (slot : Slot) × (get_elem? memory i ≡ some slot) × (length slot ≡ 32)
memory-slots i lt = elim (ℕ_discrete 127 i) [
  | yes at ↦ (adding, subst (λ k. get_elem? memory k ≡ some adding) at last, refl)
  | no away ↦ (
    replicate 32 7,
    get_elem?-set_ne (replicate 128 (replicate 32 7)) 127 i adding away
        ∙ get_elem?-replicate 128 i (replicate 32 7) lt,
    refl,
  )
]

adding-IsAdding : IsAdding adding
adding-IsAdding = record {
  command = refl;
  adds = 3;
  third = refl;
  a = 1;
  fourth = refl;
  b = 2;
  fifth = refl;
}

memory-Tasks : Tasks 128 0 0 memory
unfolding place
memory-Tasks = record {
  holds = memory-slots;
  adding = λ k from to.
      let none_yet : 0 ≡ k = omega (arith, to) in
      subst (λ n. (slot : Slot) × (get_elem? memory (place 128 n) ≡ some slot) × IsAdding slot)
        none_yet (adding, last, adding-IsAdding);
}

task_iface-ends_example :
    (start filled : Host) × (u : Cluster) × (fifo_init spe
        (λ r. 0)
        (λ i. tasks i)
        thread
        16384
        2
        Messages.round_robin
      ≡ ok start)
    × (fill_queues spe (λ r. 0) thread tasks (λ i. false ∷ true ∷ []) options ≡ ok filled)
    × Course (boot start local) (record (boot start local) { host = filled })
    × Toils (record (boot start local) { host = filled }) u
    × (task_iface spe (λ r. 0) thread tasks (λ i. false ∷ true ∷ []) (λ host. u.host ∷ []) options
        ≡ ok tt)
task_iface-ends_example =
    task_iface-ends spe (λ r. 0) thread tasks (λ i. false ∷ true ∷ []) local refl (λ i. refl)
      (λ i. memory-Tasks) (λ i j e. absurd (omega (arith, e))) (λ i. inr (inl refl)) options []
      (omega arith) (omega arith) (omega arith) refl
