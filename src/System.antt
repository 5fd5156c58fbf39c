-- ===== src/System.antt =====
-- One queue and its SPE together: the host's calls, the thread fifothread and the SPE take turns on
-- the memory that they share.
use speutils_debs.Base.{
  ℕ, ◌<◌, ◌^◌, ◌≡◌, ◌≢◌, Bool, true, false, some, List, [], ◌∷◌, get_elem?, Outcome, ok,
}
use speutils_debs.Messages
use speutils_debs.Ring.{has_free, get_back}
use speutils_debs.Fifo.Port.{Ack, Port}
use speutils_debs.Fifo.Submit.{internal_handle}
use speutils_debs.Fifo.Submit.Kick.{SomeStored, submit_port}
use speutils_debs.Fifo.Collect.Release.{release}
use speutils_debs.Spu.State.{Manager, View}
use speutils_debs.Spu.Stages.{stage1, later_stages}
pub mod Place
pub mod Invariant
pub mod Moves
pub mod Safety
pub mod Start
pub mod Reachable
pub mod Drains
pub mod Transfers
pub mod Abstract
pub mod Carries
pub mod Answers
pub mod Results
pub mod Examples

-- `fetched` says whether the SPE stands behind stage1 in the body of its loop.
pub record System : Type 0 where
  pub port : Port
  pub manager : Manager
  pub fetched : Bool

-- The SPE writes the acknowledgements of the host.
abbrev pub shared : System → Manager
shared s = record (s.manager) { acks = s.port.acks }

-- A turn of the thread or of the SPE. What the SPE takes from the shared memory it takes in stage1.
pub data Work (s t : System) : Type 0 where
  -- fifothread finds an acknowledgement.
  collects :
      (ack : Ack)
      → get_elem? s.port.acks (get_back s.port.ring) ≡ some ack
      → ack.task_id ≢ Messages.ack_clear
      → t ≡ record s { port = release s.port ack }
      → Work s t
  -- The SPE does stage1.
  fetches :
      (v : View) (m : Manager)
      → v.line ≡ s.port.atomic
      → v.tasks ≡ s.port.tasks
      → s.fetched ≡ false
      → stage1 v (shared s) ≡ ok m
      → t ≡ record s { manager = m; fetched = true }
      → Work s t
  -- The SPE does the other stages and counts the round.
  finishes :
      (fuel : ℕ) (v : View) (m : Manager)
      → v.res < 2 ^ 32
      → s.fetched ≡ true
      → later_stages fuel v (shared s) ≡ ok m
      → t ≡ record s { port = record (s.port) { acks = m.acks }; manager = m; fetched = false }
      → Work s t

-- A turn of the host: it submits a task that adds, as fifo_addition does, if there is a free slot.
pub data Step (s t : System) : Type 0 where
  submits :
      (stored : List Bool) (adds : ℕ) (q : Port)
      → SomeStored stored
      → has_free s.port.ring ≡ true
      → submit_port stored Messages.add internal_handle (adds ∷ 1 ∷ 2 ∷ []) s.port ≡ ok q
      → t ≡ record s { port = q }
      → Step s t
  works : Work s t → Step s t

pub data Works (s : System) : System → Type 0 where
  stay : Works s s
  work : {t u : System} → Works s t → Work t u → Works s u

pub data Reach (s : System) : System → Type 0 where
  here : Reach s s
  go : {t u : System} → Reach s t → Step t u → Reach s u
