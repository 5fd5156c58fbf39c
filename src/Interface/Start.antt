-- ===== src/Interface/Start.antt =====
-- tst/task_iface.c: the queues that it starts with.
use speutils_debs.Base.{ℕ, zero, suc, ◌-◌, ◌*◌, ◌≡◌, refl, List, [], ◌∷◌, arith, length, ok}
use speutils_debs.Ring.Count.{used}
use speutils_debs.Ring.Pending.{window}
use speutils_debs.Fifo.Port.{Port, Host}
use speutils_debs.Fifo.Init.Ready.{AllReady}
use speutils_debs.Fifo.Tasks.Repeat.{total, room, occupied}
use speutils_debs.Fifo.Tasks.Even.{share}

pub window-empty : (size b n : ℕ) → window size b n ≡ [] → n ≡ 0
unfolding window
window-empty size b zero e = refl
window-empty size b (suc n) e = absurd (cc)

pub AllReady-total :
    (entries : ℕ) (ps : List Port)
    → AllReady entries ps
    → (total room ps ≡ length ps * (entries - 1)) × (total occupied ps ≡ 0)
AllReady-total entries [] all = (omega arith, refl)
AllReady-total entries (p ∷ ps) (r, all) =
    let (free, none_used) = AllReady-total entries ps all in
    let empty = window-empty p.ring.size p.ring.back (used p.ring) r.empty in
    (omega (arith, empty, r.size, free), omega (arith, empty, none_used))

pub ok-injective : {host next : Host} → ok host ≡ ok next → host ≡ next
ok-injective e = cc

pub share-none : (i : ℕ) → share 0 0 i ≡ 0
share-none zero = refl
share-none (suc i) = ground arith
