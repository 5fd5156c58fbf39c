-- ===== src/System/Results.antt =====
-- Which result fifothread takes back.
use mathlib.Core.Path.{subst}
use speutils_debs.Base.{
  ℕ, suc, List, [], ◌∷◌, ◌⊎◌, inl, inr, ◌+◌, ◌≤◌, ◌<◌, ◌≡◌, ◌≢◌, refl, sym, ap, ◌∙◌, some, arith,
  get_elem?, ◌==◌, if◌then◌else◌, u32,
}
use speutils_debs.Messages
use speutils_debs.Ring.{get_back}
use speutils_debs.Fifo.Port.{Ack}
use speutils_debs.Spu.Series.{sum_of}
use speutils_debs.System.{System, Reach, collects, fetches, finishes, submits, works, here, go}
use speutils_debs.System.Place.{place}
use speutils_debs.System.Invariant.{Counts}
use speutils_debs.System.Moves.Host.{answered-lt}
use speutils_debs.System.Start.{IsStart, no_counts, start-IsSystem}
use speutils_debs.System.Answers.{
  Answering, submit-Answering, collect-Answering, fetch-Answering, finish-Answering, start-Carried,
}

-- How many tasks were submitted, and how many were taken back.
unfoldable pub submissions : {s t : System} → Reach s t → ℕ
submissions here = 0
submissions (go r (submits stored adds q tries free runs e)) = suc (submissions r)
submissions (go r (works w)) = submissions r

unfoldable pub taken : {s t : System} → Reach s t → ℕ
taken here = 0
taken (go r (submits stored adds q tries free runs e)) = taken r
taken (go r (works (collects ack holds ne e))) = suc (taken r)
taken (go r (works (fetches v m line tasks early runs e))) = taken r
taken (go r (works (finishes fuel v m small late runs e))) = taken r

-- What the variable `res` of stage3 started with, in the rounds of the SPE that are over.
unfoldable pub values : {s t : System} → Reach s t → List ℕ
values here = []
values (go r (submits stored adds q tries free runs e)) = values r
values (go r (works (collects ack holds ne e))) = values r
values (go r (works (fetches v m line tasks early runs e))) = values r
values (go r (works (finishes fuel v m small late runs e))) = v.res ∷ values r

abbrev pub IsAmong : ℕ → List ℕ → Type 0
IsAmong x [] = ⊥
IsAmong x (y ∷ later) = (x ≡ y) ⊎ IsAmong x later

-- The argument with which fifo_addition submitted the task with a number, from 1 on.
unfoldable pub adds_of : {s t : System} → Reach s t → ℕ → ℕ
unfolding submissions
adds_of here k = 0
adds_of (go r (submits stored adds q tries free runs e)) k =
    if k == suc (submissions r) then adds else adds_of r k
adds_of (go r (works w)) k = adds_of r k

-- The invariant along a sequence of turns, for a function that says what its tasks add.
abbrev Kept : (P : ℕ → Type 0) (a : ℕ → ℕ) (size : ℕ) {s t : System} → Reach s t → Type 0
Kept P a size {t = t} r =
    (c : Counts) × Answering P a size c t × (c.submitted ≡ submissions r) × (c.collected ≡ taken r)

Reach-Kept :
    (P : ℕ → Type 0) (a : ℕ → ℕ) (size : ℕ) {s t : System} (r : Reach s t)
    → Answering P a size no_counts s
    → ((k : ℕ) → 0 < k → k ≤ submissions r → adds_of r k ≡ a k)
    → ((x : ℕ) → IsAmong x (values r) → P x)
    → Kept P a size r
unfolding submissions taken adds_of values
Reach-Kept P a size here k own among = (no_counts, k, refl, refl)
Reach-Kept P a size (go {t} r (submits stored adds q tries free runs e)) k own among =
    let (c, i, m, n) =
      Reach-Kept P a size r k (λ j some_j le. ground (arith, own j some_j (omega (arith, le)), le))
        among in
    let last : adds ≡ a (suc c.submitted) =
      ground
        (arith, own (suc (submissions r)) (omega arith) (omega arith), ap (λ x. a (suc x)) m) in
    (
      _,
      subst (Answering P a size _) (sym e)
          (submit-Answering P a size c t i stored adds q tries free runs last),
      ap suc m,
      n,
    )
Reach-Kept P a size (go {t} r (works (collects ack holds ne e))) k own among =
    let (c, i, m, n) = Reach-Kept P a size r k own among in
    (
      _,
      subst (Answering P a size _) (sym e) (collect-Answering P a size c t i ack holds ne),
      m,
      ap suc n,
    )
Reach-Kept P a size (go {t} r (works (fetches v m line tasks early runs e))) k own among =
    let (c, i, sub, col) = Reach-Kept P a size r k own among in
    let (d, j, sub', col') = fetch-Answering P a size c t i v m line tasks early runs in
    (d, subst (Answering P a size d) (sym e) j, sub' ∙ sub, col' ∙ col)
Reach-Kept P a size (go {t} r (works (finishes fuel v m small late runs e))) k own among =
    let (c, i, sub, col) = Reach-Kept P a size r k own (λ x in_r. among x (inr in_r)) in
    let (d, j, sub', col') =
      finish-Answering P a size c t i fuel v m small (among v.res (inl refl)) runs in
    (d, subst (Answering P a size d) (sym e) j, sub' ∙ sub, col' ∙ col)

-- From a start (IsStart), after any turns of the host, fifothread and the SPE in any order: if fifothread
-- finds an acknowledgement, and it is not the first, then it holds the result of the task that was
-- submitted just before the one at its place: with n acknowledgements taken back, the one that is found
-- is that of slot n + 1, and its retval is the sum that the n-th call of fifo_addition asked for, added to
-- a value that the variable `res` of stage3 started with in one of the SPE's rounds. More than n tasks
-- were submitted.
pub Reach-retval :
    (size : ℕ) (s t : System) (ack : Ack)
    → IsStart size s
    → (r : Reach s t) → get_elem? t.port.acks (get_back t.port.ring) ≡ some ack
    → ack.task_id ≢ Messages.ack_clear
    → 0 < taken r
    → (taken r < submissions r)
      × (get_back t.port.ring ≡ place size (taken r + 1))
      × ((res : ℕ) × IsAmong res (values r)
          × (ack.retval ≡ sum_of res (u32 (adds_of r (taken r))) 1 2))
unfolding get_back
Reach-retval size s t ack st r holds ne some_taken =
    let i = start-IsSystem size s st in
    let (c, k, sub, col) =
      Reach-Kept (λ x. IsAmong x (values r)) (adds_of r) size r
        (record {
          sys = i;
          carried = start-Carried (λ x. IsAmong x (values r)) (adds_of r) size s i;
        })
        (λ j some_j le. refl) (λ x among. among) in
    let lt = answered-lt size c t.port k.sys.ordered k.sys.host ack k.sys.acks holds ne in
    let (own, at, done) = k.carried.answers (suc c.collected) (omega arith) lt in
    let same : some own ≡ some ack =
      sym at ∙ ap (get_elem? t.port.acks) (sym k.sys.host.back) ∙ holds in
    let eq : own ≡ ack = cc in
    let (res, among, sum) = done (taken r) some_taken (ap suc col) in
    (
      omega (arith, lt, sub, col, k.sys.ordered.af, k.sys.ordered.fs),
      k.sys.host.back ∙ ap (place size) (omega (arith, col)),
      (res, among, ap (λ (x : Ack). x.retval) (sym eq) ∙ sum),
    )
