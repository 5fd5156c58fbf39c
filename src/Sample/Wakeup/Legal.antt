-- ===== src/Sample/Wakeup/Legal.antt =====
-- What holds of example2.c and its thread between two steps.
use mathlib.Core.Path.{subst}
use speutils_debs.Base.{ℕ, ◌≡◌, ◌≢◌, ◌⊎◌, refl, sym, inl, inr, List, [], ◌∷◌, ◌++◌, arith}
use speutils_debs.Thread.{thread_exit, thread_continue, send_action}
use speutils_debs.Sample.Wakeup.{
  HostAt, ThreadAt, Pair, arriving, waiting, asking, left_loop, running, calling, polling, exited,
  woken, Step, stops, broadcasts, goes_on, exits, waits, agrees, refuses, Reach, here, go,
}

-- What the pipe holds, for each place of main and of the thread that is reached.
abbrev pub Legal : HostAt → ThreadAt → List ℕ → Type 0
Legal arriving running p = p ≡ []
Legal arriving calling p = p ≡ []
Legal arriving polling p = (p ≡ []) ⊎ (p ≡ thread_continue ∷ [])
Legal arriving exited p = ⊥
Legal waiting running p = p ≡ []
Legal waiting calling p = p ≡ []
Legal waiting polling p = (p ≡ []) ⊎ (p ≡ thread_continue ∷ [])
Legal waiting exited p = ⊥
Legal asking running p = ⊥
Legal asking calling p = ⊥
Legal asking polling p = p ≡ []
Legal asking exited p = ⊥
Legal left_loop running p = ⊥
Legal left_loop calling p = ⊥
Legal left_loop polling p = p ≡ thread_exit ∷ []
Legal left_loop exited p = p ≡ []

abbrev pub IsLegal : Pair → Type 0
IsLegal s = Legal s.host s.thread s.pipe

stops-Legal : (h : HostAt) (p : List ℕ) → Legal h running p → Legal h calling p
stops-Legal arriving p l = l
stops-Legal waiting p l = l
stops-Legal asking p l = absurd l
stops-Legal left_loop p l = absurd l

broadcasts-Legal : (h : HostAt) (p : List ℕ) → Legal h calling p → Legal (woken h) polling p
broadcasts-Legal arriving p l = inl l
broadcasts-Legal waiting p l = l
broadcasts-Legal asking p l = absurd l
broadcasts-Legal left_loop p l = absurd l

goes_on-Legal :
    (h : HostAt) (action : ℕ) (later : List ℕ)
    → Legal h polling (action ∷ later)
    → action ≢ thread_exit
    → Legal h running later
goes_on-Legal arriving action later (inl e) ne = absurd (cc)
goes_on-Legal arriving action later (inr e) ne = cc
goes_on-Legal waiting action later (inl e) ne = absurd (cc)
goes_on-Legal waiting action later (inr e) ne = cc
goes_on-Legal asking action later e ne = absurd (cc)
goes_on-Legal left_loop action later e ne = ground (arith, e, ne)

exits-Legal :
    (h : HostAt) (later : List ℕ) → Legal h polling (thread_exit ∷ later) → Legal h exited later
exits-Legal arriving later (inl e) = absurd (cc)
exits-Legal arriving later (inr e) = ground (arith, e)
exits-Legal waiting later (inl e) = absurd (cc)
exits-Legal waiting later (inr e) = ground (arith, e)
exits-Legal asking later e = absurd (cc)
exits-Legal left_loop later e = cc

waits-Legal : (th : ThreadAt) (p : List ℕ) → Legal arriving th p → Legal waiting th p
waits-Legal running p l = l
waits-Legal calling p l = l
waits-Legal polling p l = l
waits-Legal exited p l = l

agrees-Legal :
    (th : ThreadAt) (p : List ℕ)
    → Legal asking th p
    → Legal arriving th (p ++ send_action thread_continue)
unfolding send_action
agrees-Legal running p l = absurd l
agrees-Legal calling p l = absurd l
agrees-Legal polling p l = inr (rw l refl)
agrees-Legal exited p l = absurd l

refuses-Legal :
    (th : ThreadAt) (p : List ℕ)
    → Legal asking th p
    → Legal left_loop th (p ++ send_action thread_exit)
unfolding send_action
refuses-Legal running p l = absurd l
refuses-Legal calling p l = absurd l
refuses-Legal polling p l = rw l refl
refuses-Legal exited p l = absurd l

Step-IsLegal : {s t : Pair} → Step s t → IsLegal s → IsLegal t
Step-IsLegal {s} (stops at e) l =
    subst IsLegal (sym e) (stops-Legal s.host s.pipe (subst (λ th. Legal s.host th s.pipe) at l))
Step-IsLegal {s} (broadcasts at e) l =
    subst IsLegal (sym e)
      (broadcasts-Legal s.host s.pipe (subst (λ th. Legal s.host th s.pipe) at l))
Step-IsLegal {s} (goes_on later action at pipe ne e) l =
    let l' = subst (λ th. Legal s.host th s.pipe) at l in
    subst IsLegal (sym e)
      (goes_on-Legal s.host action later (subst (λ p. Legal s.host polling p) pipe l') ne)
Step-IsLegal {s} (exits later at pipe e) l =
    let l' = subst (λ th. Legal s.host th s.pipe) at l in
    subst IsLegal (sym e) (exits-Legal s.host later (subst (λ p. Legal s.host polling p) pipe l'))
Step-IsLegal {s} (waits at e) l =
    subst IsLegal (sym e) (waits-Legal s.thread s.pipe (subst (λ h. Legal h s.thread s.pipe) at l))
Step-IsLegal {s} (agrees at e) l =
    subst IsLegal (sym e) (agrees-Legal s.thread s.pipe (subst (λ h. Legal h s.thread s.pipe) at l))
Step-IsLegal {s} (refuses at e) l =
    subst IsLegal (sym e)
      (refuses-Legal s.thread s.pipe (subst (λ h. Legal h s.thread s.pipe) at l))

pub Reach-IsLegal : {s t : Pair} → Reach s t → IsLegal s → IsLegal t
Reach-IsLegal here l = l
Reach-IsLegal (go r st) l = Step-IsLegal st (Reach-IsLegal r l)
