-- ===== src/Dma/Examples.antt =====
-- An MFC that lists the tags of the transfers under way, and drops a tag that a status waits for.
use speutils_debs.Base.{
  ℕ, ◌≡◌, ◌≢◌, refl, Bool, true, false, arith, ◌==◌, Outcome, ok, if◌then◌else◌,
}
use speutils_debs.Dma.{
  Call, transfer, transfer_list, write_tag_mask, read_tag_status_any, read_tag_status_all, getllar,
  putllc, putlluc, putqlluc, read_atomic_status, dma_get_n_wait, dma_put_n_wait, dma_wait_tag,
}
use speutils_debs.Dma.Masks.{in_mask}
use speutils_debs.Dma.Wait.{Mfc, Waited, dma_waits-Waited}

pub record TagState : Type 0 where
  pub mask : ℕ
  pub busy : ℕ → Bool

-- Both statuses wait for every tag of the mask.
abbrev pub quiet : TagState → TagState
quiet s = record s { busy = λ tag. if in_mask s.mask tag then false else s.busy tag }

abbrev pub act : Call → TagState → Outcome (ℕ × TagState)
act (transfer d o ls ea size tag) s =
    ok (0, record s { busy = λ other. if tag == other then true else s.busy other })
act (transfer_list d o ls ea list size tag) s =
    ok (0, record s { busy = λ other. if tag == other then true else s.busy other })
act (write_tag_mask m) s = ok (0, record s { mask = m })
act read_tag_status_any s = ok (s.mask, quiet s)
act read_tag_status_all s = ok (s.mask, quiet s)
act (getllar ls ea) s = ok (0, s)
act (putllc ls ea) s = ok (0, s)
act (putlluc ls ea) s = ok (0, s)
act (putqlluc ls ea tag) s = ok (0, s)
act read_atomic_status s = ok (0, s)

pub other_busy :
    (busy : ℕ → Bool) (tag other : ℕ)
    → tag ≢ other
    → (if tag == other then true else busy other) ≡ true
    → busy other ≡ true
other_busy busy tag other ne on = ground arith

pub quiet_at : (s : TagState) (tag : ℕ) → in_mask s.mask tag ≡ true → (quiet s).busy tag ≡ false
quiet_at s tag has = rw has refl

pub was_busy : (s : TagState) (tag : ℕ) → (quiet s).busy tag ≡ true → s.busy tag ≡ true
was_busy s tag on = ground arith

abbrev pub simple : Mfc
simple = record {
  State = TagState;
  call = act;
  busy = λ s tag. s.busy tag;
  mask = λ s. s.mask;
  takes = λ d o ls ea size tag s. (
    0,
    record s { busy = λ other. if tag == other then true else s.busy other },
    refl,
    λ other ne on. other_busy s.busy tag other ne on,
  );
  masks = λ m s. (0, record s { mask = m }, refl, refl, λ tag on. on);
  waits_all =
      λ s. (s.mask, quiet s, refl, λ tag has. quiet_at s tag has, λ tag on. was_busy s tag on);
  waits_any = λ s tag has.
      (s.mask, quiet s, refl, (tag, has, quiet_at s tag has), λ other on. was_busy s other on);
}

-- Transfers with the tags 3 and 5 are under way.
abbrev pub now : TagState
now = record { mask = 0; busy = λ tag. if tag == 3 then true else tag == 5 }

dma_waits-Waited_example :
    Waited simple (dma_get_n_wait 0x80 0x1000 128 3) 3 now
    × Waited simple (dma_put_n_wait 0x80 0x1000 128 3) 3 now
    × Waited simple (dma_wait_tag 3) 3 now
dma_waits-Waited_example = dma_waits-Waited simple 0x80 0x1000 128 3 now (omega arith)
