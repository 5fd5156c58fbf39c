-- ===== src/System/Safety.antt =====
-- Every turn keeps the invariant: what its children share.
use mathlib.Core.Path.{subst}
use speutils_debs.Base.{
  ℕ, suc, ◌+◌, ◌^◌, ◌<◌, ◌≡◌, ◌≢◌, refl, sym, ap, Bool, true, false, not, ◌==◌, List, [], ◌∷◌, some,
  arith, get_elem?, ok, set, if◌then◌else◌,
}
use speutils_debs.Messages
use speutils_debs.Ring.{has_free, get_back}
use speutils_debs.Fifo.Port.{Ack, Port}
use speutils_debs.Fifo.Submit.{internal_handle}
use speutils_debs.Fifo.Submit.Kick.{SomeStored, submit_port, submit_port-Submitted}
use speutils_debs.Fifo.Collect.Release.{release}
use speutils_debs.Spu.State.{PipeEntry, Manager, View}
use speutils_debs.Spu.Stages.{context, stage1, later_stages}
use speutils_debs.Spu.Retire.{idle, IsAdd}
use speutils_debs.System.{System, shared}
use speutils_debs.System.Invariant.{Counts, HostSide, Tasks, Acks, SpuSide, IsSystem, load}
use speutils_debs.Spu.Drain.Flight.{bit}
use speutils_debs.System.Moves.Host.{
  one_more, submit-Ordered, front-HasSlot, Submitted-HostSide, Submitted-Tasks, one_back,
  answered-lt, release-Ordered, release-HostSide, release-Acks,
}
use speutils_debs.System.Moves.Spe.{counts_fetched, fetch-Fetched}
use speutils_debs.System.Moves.Later.{counts_finished, finish-Finished}
pub mod Host
pub mod Spe

-- The SPE's side does not depend on the acknowledgements of the host, on what is taken back and, once a
-- task is submitted, on how many are.
pub SpuSide-other :
    (size : ℕ) (c : Counts) (collected submitted : ℕ) (m : Manager) (acks : List Ack)
    (e0 e1 e2 e3 : PipeEntry)
    → (submitted ≡ 0 → c.submitted ≡ 0)
    → SpuSide size c m e0 e1 e2 e3
    → SpuSide size
        (record c { collected = collected; submitted = submitted })
        (record m { acks = acks })
        e0
        e1
        e2
        e3
unfolding context
SpuSide-other size c collected submitted m acks e0 e1 e2 e3 none_yet s = record {
  at0 = s.at0;
  at1 = s.at1;
  at2 = s.at2;
  at3 = s.at3;
  four = s.four;
  word = s.word;
  same = s.same;
  fetch = s.fetch;
  out = s.out;
  idle_front = λ none_now. s.idle_front (none_yet none_now);
  flight = s.flight;
  entry3 = s.entry3;
  entry2 = s.entry2;
  entry1 = s.entry1;
  entry0 = s.entry0;
}

-- The entries of the pipeline, from the first stage to the last.
abbrev pub Stands :
    {size : ℕ} {c : Counts} {s : System}
    → IsSystem size c s
    → PipeEntry
    → PipeEntry
    → PipeEntry
    → PipeEntry
    → Type 0
Stands j e0 e1 e2 e3 = (j.e0 ≡ e0) × (j.e1 ≡ e1) × (j.e2 ≡ e2) × (j.e3 ≡ e3)
