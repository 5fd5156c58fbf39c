-- ===== src/Dma/Wait.antt =====
-- What a wait is good for, on an MFC that does what its manual says.
use speutils_debs.Base.{
  ℕ, ◌<◌, ◌≡◌, ◌≢◌, refl, sym, ap, ◌∙◌, Bool, true, false, List, [], ◌∷◌, arith, Outcome, ok, ◌>>=◌,
  ==_iff,
}
use speutils_debs.Dma.{
  Direction, Order, Call, get, put, plain, transfer, write_tag_mask, read_tag_status_any,
  read_tag_status_all, bit_of, dma_get_n_wait, dma_put_n_wait, dma_wait_tag, dma_wait_all,
  dma_wait_any,
}
use speutils_debs.Dma.Masks.{in_mask, in_mask-bit_of}

-- The memory flow controller: `busy` says for which tags transfers are under way.
pub record Mfc : Type 1 where
  pub State : Type 0
  pub call : Call → State → Outcome (ℕ × State)
  pub busy : State → ℕ → Bool
  pub mask : State → ℕ
  -- A transfer is taken, and concerns its own tag only.
  pub takes :
      (d : Direction) (o : Order) (ls ea size tag : ℕ) (s : State)
      → (r : ℕ) × (t : State) × (call (transfer d o ls ea size tag) s ≡ ok (r, t))
        × ((other : ℕ) → tag ≢ other → busy t other ≡ true → busy s other ≡ true)
  -- A mask is set, and no transfer starts.
  pub masks :
      (m : ℕ) (s : State)
      → (r : ℕ) × (t : State) × (call (write_tag_mask m) s ≡ ok (r, t))
        × (mask t ≡ m)
        × ((tag : ℕ) → busy t tag ≡ true → busy s tag ≡ true)
  -- The status of all waits for every tag of the mask.
  pub waits_all :
      (s : State)
      → (r : ℕ) × (t : State) × (call read_tag_status_all s ≡ ok (r, t))
        × ((tag : ℕ) → in_mask (mask s) tag ≡ true → busy t tag ≡ false)
        × ((tag : ℕ) → busy t tag ≡ true → busy s tag ≡ true)
  -- The status of any waits for some tag of a mask that has one.
  pub waits_any :
      (s : State) (some_tag : ℕ)
      → in_mask (mask s) some_tag ≡ true
      → (r : ℕ) × (t : State) × (call read_tag_status_any s ≡ ok (r, t))
        × ((tag : ℕ) × (in_mask (mask s) tag ≡ true) × (busy t tag ≡ false))
        × ((tag : ℕ) → busy t tag ≡ true → busy s tag ≡ true)

module _ (mfc : Mfc) where
  -- The calls in order; the result is the last one's.
  unfoldable pub perform : List Call → ℕ → mfc.State → Outcome (ℕ × mfc.State)
  perform [] last s = ok (last, s)
  perform (c ∷ cs) last s = do (r, t) ← mfc.call c s; perform cs r t

  -- The calls return, behind them the tag is not busy, and no other tag has become busy.
  abbrev pub Waited : List Call → ℕ → mfc.State → Type 0
  Waited cs tag s =
      (r : ℕ) × (t : mfc.State) × (perform cs 0 s ≡ ok (r, t))
      × (mfc.busy t tag ≡ false)
      × ((other : ℕ) → tag ≢ other → mfc.busy t other ≡ true → mfc.busy s other ≡ true)

  waits_tag :
      (tag : ℕ) (s : mfc.State)
      → tag < 32
      → Waited (write_tag_mask (bit_of tag) ∷ read_tag_status_all ∷ []) tag s
  unfolding perform
  waits_tag tag s lt =
      let (r1, s1, run1, set, less1) = mfc.masks (bit_of tag) s in
      let (r2, s2, run2, done, less2) = mfc.waits_all s1 in
      let has : in_mask (mfc.mask s1) tag ≡ true =
        ap (λ m. in_mask m tag) set ∙ in_mask-bit_of tag tag lt ∙ ground arith in
      (r2, s2, rw (run1, run2) refl, done tag has, λ other ne on. less1 other (less2 other on))

  transfer-any :
      (d : Direction) (o : Order) (ls ea size tag : ℕ) (s : mfc.State)
      → tag < 32
      → Waited
          (transfer d o ls ea size tag ∷ write_tag_mask (bit_of tag) ∷ read_tag_status_any ∷ [])
          tag
          s
  unfolding perform
  transfer-any d o ls ea size tag s lt =
      let (r1, s1, run1, own1) = mfc.takes d o ls ea size tag s in
      let (r2, s2, run2, set, less2) = mfc.masks (bit_of tag) s1 in
      let has = λ (other : ℕ). ap (λ m. in_mask m other) set ∙ in_mask-bit_of tag other lt in
      let (r3, s3, run3, (done, in_it, free), less3) =
        mfc.waits_any s2 tag (has tag ∙ ground arith) in
      let same : tag ≡ done = (==_iff tag done).0 (sym (has done) ∙ in_it) in
      (
        r3,
        s3,
        rw (run1, run2, run3) refl,
        ap (mfc.busy s3) same ∙ free,
        λ other ne on. own1 other ne (less2 other (less3 other on)),
      )

  -- On an MFC that takes transfers, sets masks and waits as its manual says, and for a tag below 32,
  -- dmaGetnWait, dmaPutnWait and dmaWaitTag return, and then no transfer with the tag is under way and
  -- none with another tag has started.
  pub dma_waits-Waited :
      (ls ea size tag : ℕ) (s : mfc.State)
      → tag < 32
      → Waited (dma_get_n_wait ls ea size tag) tag s
        × Waited (dma_put_n_wait ls ea size tag) tag s
        × Waited (dma_wait_tag tag) tag s
  unfolding dma_get_n_wait dma_put_n_wait dma_wait_tag
  dma_waits-Waited ls ea size tag s lt = (
    transfer-any get plain ls ea size tag s lt,
    transfer-any put plain ls ea size tag s lt,
    waits_tag tag s lt,
  )

  -- On such an MFC dmaWaitAll returns for every mask, and then no transfer with a tag of the mask is
  -- under way; dmaWaitAny returns for every mask that has a tag, and then for some tag of the mask no
  -- transfer is under way.
  pub dma_wait_masks :
      (mask some_tag : ℕ) (s : mfc.State)
      → in_mask mask some_tag ≡ true
      → ((r : ℕ) × (t : mfc.State) × (perform (dma_wait_all mask) 0 s ≡ ok (r, t))
          × ((tag : ℕ) → in_mask mask tag ≡ true → mfc.busy t tag ≡ false))
        × ((r : ℕ) × (t : mfc.State) × (tag : ℕ) × (perform (dma_wait_any mask) 0 s ≡ ok (r, t))
            × (in_mask mask tag ≡ true)
            × (mfc.busy t tag ≡ false))
  unfolding perform dma_wait_all dma_wait_any
  dma_wait_masks mask some_tag s has =
      let (r1, s1, run1, set, less1) = mfc.masks mask s in
      let (r2, s2, run2, done, less2) = mfc.waits_all s1 in
      let same = λ (tag : ℕ). ap (λ m. in_mask m tag) set in
      let (r3, s3, run3, (tag, in_it, free), less3) =
        mfc.waits_any s1 some_tag (same some_tag ∙ has) in
      (
        (r2, s2, rw (run1, run2) refl, λ tag in_mask_too. done tag (same tag ∙ in_mask_too)),
        (r3, s3, tag, rw (run1, run3) refl, sym (same tag) ∙ in_it, free),
      )
