-- ===== src/Spu/Drain/Flight.antt =====
-- A batch of tasks, and what the state of the task manager says of it in the middle of the work.
use speutils_debs.Base.{
  ℕ, suc, ◌+◌, ◌-◌, ◌^◌, ◌≤◌, ◌<◌, ◌≡◌, ◌≢◌, Bool, true, false, List, some, arith, get_elem?,
  length,
}
use speutils_debs.Ring.Pending.{wrap}
use speutils_debs.Fifo.Port.{Ack, Slot}
use speutils_debs.Spu.State.{PipeEntry, Manager, View, increment}
use speutils_debs.Spu.Retire.{At, IsAdd}

abbrev pub bit : Bool → ℕ
bit true = 1
bit false = 0

-- The `tasks` slots from `start` on hold tasks that add, and the line names the slot behind the last.
pub record Batch : Type 0 where
  pub size : ℕ
  pub start : ℕ
  pub tasks : ℕ
  pub view : View
  pub task : ℕ → Slot
  pub result : ℕ → ℕ

-- The position after `k` steps.
abbrev pub place : Batch → ℕ → ℕ
place b k = wrap b.size (b.start + k)

pub record IsBatch (b : Batch) : Type 0 where
  pub few : b.tasks < b.size
  pub start_in : b.start < b.size
  pub raised : b.view.line.state ≢ 0
  pub front : b.view.line.count ≡ place b b.tasks
  pub small : b.view.res < 2 ^ 32
  pub holds : (k : ℕ) → k < b.tasks → get_elem? b.view.tasks (place b k) ≡ some (b.task k)
  pub adds : (k : ℕ) → k < b.tasks → IsAdd b.view.res (b.task k) (b.result k)

-- The entry carries the task before the place with number `x`, and will acknowledge at that place.
abbrev pub Carries : Batch → PipeEntry → ℕ → Type 0
Carries b e x = e.active ≡ true → (e.entry ≡ place b x) × (e.task ≡ b.task (x - 1)) × (0 < x)

-- The place with number `k` behind the start is acknowledged with the result of the task before it.
abbrev pub Acked : Batch → List Ack → ℕ → Type 0
Acked b acks k = (a : Ack) × (get_elem? acks (place b (suc k)) ≡ some a) × (a.retval ≡ b.result k)

-- `o` tasks are acknowledged; the active ones of the four entries carry the next, the last entry the
-- oldest; those behind are still to be fetched.
pub record Flight (b : Batch) (m : Manager) (o : ℕ) (e0 e1 e2 e3 : PipeEntry) : Type 0 where
  pub at0 : At m 0 e0
  pub at1 : At m 1 e1
  pub at2 : At m 2 e2
  pub at3 : At m 3 e3
  pub four : length m.pipe ≡ 4
  pub word : m.cycle < 2 ^ 32
  pub same : m.max_entries ≡ b.size
  pub room : length m.acks ≡ b.size
  pub out : m.out_back ≡ place b o
  pub fetch :
      m.in_back ≡ place b (o + bit e3.active + bit e2.active + bit e1.active + bit e0.active)
  pub le : o + bit e3.active + bit e2.active + bit e1.active + bit e0.active ≤ b.tasks
  pub carry3 : Carries b e3 (o + bit e3.active)
  pub carry2 : Carries b e2 (o + bit e3.active + bit e2.active)
  pub carry1 : Carries b e1 (o + bit e3.active + bit e2.active + bit e1.active)
  pub carry0 : Carries b e0 (o + bit e3.active + bit e2.active + bit e1.active + bit e0.active)
  pub done3 : e3.active ≡ true → e3.ack.retval ≡ b.result (o + bit e3.active - 1)
  pub acked : (k : ℕ) → k < o → Acked b m.acks k

pub increment-place :
    (b : Batch) (x : ℕ)
    → b.start < b.size
    → x < b.size
    → increment (place b x) b.size ≡ place b (x + 1)
unfolding increment
increment-place b x s h = ground arith

pub place-lt : (b : Batch) (x : ℕ) → b.start < b.size → x ≤ b.size → place b x < b.size
place-lt b x s h = ground arith

pub place-injective :
    (b : Batch) (x y : ℕ)
    → b.start < b.size
    → x < b.size
    → y < b.size
    → place b x ≡ place b y
    → x ≡ y
place-injective b x y s hx hy e = ground arith
