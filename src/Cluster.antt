-- ===== src/Cluster.antt =====
-- src/spefifo.c with as many SPEs as there are queues: the host's calls on all queues, the thread
-- fifothread and the SPEs take turns. Each SPE shares memory with its own queue alone.
use speutils_debs.Base.{
  ℕ, ◌<◌, ◌≡◌, Bool, true, some, List, ◌==◌, if◌then◌else◌, get_elem?, set, ok,
}
use speutils_debs.Fifo.Port.{Port, Host}
use speutils_debs.Fifo.Select.Turn.{IsFree}
use speutils_debs.Fifo.Submit.{fifo_addition}
use speutils_debs.Fifo.Submit.Kick.{SomeStored}
use speutils_debs.Spu.State.{Manager}
use speutils_debs.System.{System, Work}
pub mod Views
pub mod Drains
pub mod Start
pub mod Loop
mod Examples

-- The host, and for each index the SPE of its queue.
pub record Cluster : Type 0 where
  pub host : Host
  pub managers : ℕ → Manager
  pub fetched : ℕ → Bool

-- The queue at an index with its SPE.
abbrev pub view : Cluster → Port → ℕ → System
view s p i = record { port = p; manager = s.managers i; fetched = s.fetched i }

abbrev pub put_view : Cluster → ℕ → System → Cluster
put_view s i u = record {
  host = record (s.host) { ports = set s.host.ports i u.port };
  managers = λ j. if j == i then u.manager else s.managers j;
  fetched = λ j. if j == i then u.fetched else s.fetched j;
}

-- fifothread at a queue, or an SPE.
pub data Toil (s t : Cluster) : Type 0 where
  toils_at :
      (i : ℕ) (p : Port) (u : System)
      → get_elem? s.host.ports i ≡ some p
      → Work (view s p i) u
      → t ≡ put_view s i u
      → Toil s t

-- The host calls fifo_addition, while some queue has a free slot.
pub data Move (s t : Cluster) : Type 0 where
  adds :
      (stored : List Bool) (amount i : ℕ) (next : Host)
      → SomeStored stored
      → i < s.host.spes
      → IsFree s.host.ports i true
      → fifo_addition s.host.spes stored amount s.host ≡ ok next
      → t ≡ record s { host = next }
      → Move s t
  toils : Toil s t → Move s t

pub data Toils (s : Cluster) : Cluster → Type 0 where
  still : Toils s s
  toil : {t u : Cluster} → Toils s t → Toil t u → Toils s u

pub data Course (s : Cluster) : Cluster → Type 0 where
  begins : Course s s
  moves : {t u : Cluster} → Course s t → Move t u → Course s u
