-- ===== src/Spu/Series.antt =====
-- The case ADD of stage3: what its loop computes.
use speutils_debs.Base.{
  ℕ, zero, suc, ◌+◌, ◌-◌, ◌*◌, ◌/◌, ◌^◌, ◌<◌, ◌≡◌, sym, ap, ◌∙◌, some, arith, get_elem?, u32, ok,
}
use native.Mathlib.Nat.{add_assoc}
use speutils_debs.Fifo.Port.{Slot}
use speutils_debs.Spu.Stages.{add_loop, rounds_of, add_task}

-- The sum of a + i + b over the rounds.
series : ℕ → ℕ → ℕ → ℕ → ℕ
series zero i a b = 0
series (suc rounds) i a b = a + i + b + series rounds (i + 1) a b

add_loop-series :
    (rounds i res a b : ℕ)
    → res < 2 ^ 32
    → add_loop rounds i res a b ≡ u32 (res + series rounds i a b)
unfolding add_loop series
add_loop-series zero i res a b h = omega arith
add_loop-series (suc rounds) i res a b h =
    add_loop-series rounds (i + 1) (u32 (res + (a + i + b))) a b (omega arith) ∙ omega arith

twice-series :
    (rounds i a b : ℕ) → 2 * series rounds i a b + rounds ≡ rounds * (2 * (a + b + i) + rounds)
unfolding series
twice-series zero i a b = omega arith
twice-series (suc rounds) i a b = omega (arith, twice-series rounds (i + 1) a b)

series-closed : (k a b : ℕ) → series k 0 a b ≡ k * (a + b) + k * (k - 1) / 2
series-closed zero a b = unfold series in omega arith
series-closed (suc n) a b =
    let less : suc n - 1 ≡ n = omega arith in rw less (omega (arith, twice-series (suc n) 0 a b))

-- The result in closed form.
abbrev pub sum_of : (res n a b : ℕ) → ℕ
sum_of res n a b = let k = rounds_of n in u32 (res + k * (a + b) + k * (k - 1) / 2)

-- For a task that has its five words, the case ADD adds to the value that `res` started with, modulo
-- 2 ^ 32, as many times the two operands as the third word says, and the round numbers; a third word
-- that is negative as an int asks for no round.
pub add_task-sum :
    (res : ℕ) (task : Slot) (n a b : ℕ)
    → res < 2 ^ 32
    → get_elem? task 2 ≡ some n
    → get_elem? task 3 ≡ some a
    → get_elem? task 4 ≡ some b
    → add_task res task ≡ ok (sum_of res n a b)
unfolding add_task
add_task-sum res task n a b h e2 e3 e4 =
    rw (e2, e3, e4)
      (ap ok (
        add_loop-series (rounds_of n) 0 res a b h
        ∙ ap (λ t. u32 (res + t)) (series-closed (rounds_of n) a b)
        ∙ ap u32
            (sym (add_assoc res (rounds_of n * (a + b)) (rounds_of n * (rounds_of n - 1) / 2)))))
