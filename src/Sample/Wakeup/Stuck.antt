-- ===== src/Sample/Wakeup/Stuck.antt =====
-- Where example2.c and its thread can get stuck.
use mathlib.Core.Path.{subst}
use speutils_debs.Base.{ℕ, ◌≡◌, ◌≢◌, ◌↔◌, ◌⊎◌, refl, sym, ap, inl, inr, List, [], ◌∷◌, arith}
use speutils_debs.Thread.{thread_exit, thread_continue, send_action}
use speutils_debs.Sample.Wakeup.{
  HostAt, ThreadAt, Pair, arriving, waiting, asking, left_loop, running, calling, polling, exited,
  first, Step, stops, broadcasts, goes_on, exits, waits, agrees, refuses, Reach, here, go, lost,
  over,
}
use speutils_debs.Sample.Wakeup.Legal.{Legal, Reach-IsLegal}

-- Some step can be made, or it is one of the two states.
abbrev pub CanStep : Pair → Type 0
CanStep s = (t : Pair) × Step s t

abbrev pub Ends : Pair → Type 0
Ends s = (s ≡ lost) ⊎ (s ≡ over)

abbrev at : HostAt → ThreadAt → List ℕ → Pair
at h th p = record { host = h; thread = th; pipe = p }

continue≢exit : thread_continue ≢ thread_exit
continue≢exit e = omega (arith, e)

at-progress :
    (h : HostAt) (th : ThreadAt) (p : List ℕ)
    → Legal h th p
    → CanStep (at h th p) ⊎ Ends (at h th p)
at-progress arriving th p l = inl (_, waits refl refl)
at-progress waiting running p l = inl (_, stops refl refl)
at-progress waiting calling p l = inl (_, broadcasts refl refl)
at-progress waiting polling p (inl e) = inr (inl (ap (at waiting polling) e))
at-progress waiting polling p (inr e) =
    inl (_, goes_on [] thread_continue refl e continue≢exit refl)
at-progress waiting exited p l = absurd l
at-progress asking th p l = inl (_, agrees refl refl)
at-progress left_loop running p l = absurd l
at-progress left_loop calling p l = absurd l
at-progress left_loop polling p e = inl (_, exits [] refl e refl)
at-progress left_loop exited p e = inr (inr (ap (at left_loop exited) e))

lost-stuck : CanStep lost → ⊥
lost-stuck (t, stops q e) = cc
lost-stuck (t, broadcasts q e) = cc
lost-stuck (t, goes_on later action q pipe ne e) = cc
lost-stuck (t, exits later q pipe e) = cc
lost-stuck (t, waits q e) = cc
lost-stuck (t, agrees q e) = cc
lost-stuck (t, refuses q e) = cc

over-stuck : CanStep over → ⊥
over-stuck (t, stops q e) = cc
over-stuck (t, broadcasts q e) = cc
over-stuck (t, goes_on later action q pipe ne e) = cc
over-stuck (t, exits later q pipe e) = cc
over-stuck (t, waits q e) = cc
over-stuck (t, agrees q e) = cc
over-stuck (t, refuses q e) = cc

-- A state that main and its thread reach has no further step exactly if it is one of two: both are behind
-- their loops; or main waits for the broadcast of a callback, while the thread is behind its callback and
-- waits for an action, and the pipe is empty.
pub Reach-stuck_iff : (s : Pair) → Reach first s → ((CanStep s → ⊥) ↔ Ends s)
Reach-stuck_iff s r = (to, from)
  where
    to : (CanStep s → ⊥) → Ends s
    to stuck = elim (at-progress s.host s.thread s.pipe (Reach-IsLegal r refl)) [
      | inl can ↦ absurd (stuck can)
      | inr ends ↦ ends
    ]

    from : Ends s → CanStep s → ⊥
    from (inl e) can = lost-stuck (subst CanStep e can)
    from (inr e) can = over-stuck (subst CanStep e can)

Reach-trans : {s t u : Pair} → Reach s t → Reach t u → Reach s u
Reach-trans r here = r
Reach-trans r (go more st) = go (Reach-trans r more) st

-- The next broadcast comes before main waits for it.
missed : Reach first lost
missed = go (go (go here (stops refl refl)) (broadcasts refl refl)) (waits refl refl)

agreed-lost : Reach (at arriving polling (thread_continue ∷ [])) lost
agreed-lost = Reach-trans (go here (goes_on [] thread_continue refl refl continue≢exit refl)) missed

asking-lost : Reach (at asking polling []) lost
unfolding send_action
asking-lost = Reach-trans (go here (agrees refl refl)) agreed-lost

calling-lost : Reach (at waiting calling []) lost
calling-lost = Reach-trans (go here (broadcasts refl refl)) asking-lost

running-lost : Reach (at waiting running []) lost
running-lost = Reach-trans (go here (stops refl refl)) calling-lost

at-lost :
    (h : HostAt) (th : ThreadAt) (p : List ℕ)
    → Legal h th p
    → h ≢ left_loop
    → Reach (at h th p) lost
at-lost arriving running p e ne = subst (λ q. Reach (at arriving running q) lost) (sym e) missed
at-lost arriving calling p e ne =
    subst (λ q. Reach (at arriving calling q) lost) (sym e)
      (go (go here (broadcasts refl refl)) (waits refl refl))
at-lost arriving polling p (inl e) ne =
    subst (λ q. Reach (at arriving polling q) lost) (sym e) (go here (waits refl refl))
at-lost arriving polling p (inr e) ne =
    subst (λ q. Reach (at arriving polling q) lost) (sym e) agreed-lost
at-lost arriving exited p l ne = absurd l
at-lost waiting running p e ne = subst (λ q. Reach (at waiting running q) lost) (sym e) running-lost
at-lost waiting calling p e ne = subst (λ q. Reach (at waiting calling q) lost) (sym e) calling-lost
at-lost waiting polling p (inl e) ne = subst (λ q. Reach (at waiting polling q) lost) (sym e) here
at-lost waiting polling p (inr e) ne =
    subst (λ q. Reach (at waiting polling q) lost) (sym e)
      (Reach-trans (go here (goes_on [] thread_continue refl refl continue≢exit refl)) running-lost)
at-lost waiting exited p l ne = absurd l
at-lost asking running p l ne = absurd l
at-lost asking calling p l ne = absurd l
at-lost asking polling p e ne = subst (λ q. Reach (at asking polling q) lost) (sym e) asking-lost
at-lost asking exited p l ne = absurd l
at-lost left_loop th p l ne = absurd (ne refl)

-- From every state that main and its thread reach, as long as main is in its loop, they can reach the
-- state in which each of them waits for the other: the next broadcast need only come before main waits
-- for it.
pub Reach-lost : (s : Pair) → Reach first s → s.host ≢ left_loop → Reach s lost
Reach-lost s r ne = at-lost s.host s.thread s.pipe (Reach-IsLegal r refl) ne
