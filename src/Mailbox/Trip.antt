-- ===== src/Mailbox/Trip.antt =====
-- Words from the host to the SPE: send_message of src/spemessage.c and wait_for_message_poll.
use mathlib.Core.List.{append-nil, append_assoc}
use speutils_debs.Base.{
  false, length-append, ℕ, zero, suc, ◌+◌, ◌≤◌, ◌<◌, ◌≡◌, refl, sym, ap, ◌∙◌, List, [], ◌∷◌, ◌++◌,
  arith, length, ◌==◌, u32, Outcome, ok, ◌>>=◌,
}
use speutils_debs.Mailbox.{wait_for_message_poll}
use speutils_debs.Message

-- The inbound mailbox of an SPE, with the words that are in it, in order.
pub record Mailbox : Type 1 where
  pub State : Type 0
  pub words : State → List ℕ
  -- spe_in_mbox_status, spe_in_mbox_write, spu_stat_in_mbox and spu_read_in_mbox
  pub room : State → ℕ
  pub write : ℕ → State → State
  pub count : State → ℕ
  pub read : State → ℕ × State
  pub capacity : ℕ
  -- The free entries and the occupied ones are all.
  pub rooms : (s : State) → room s + length (words s) ≡ capacity
  pub counts : (s : State) → count s ≡ length (words s)
  -- A word is put behind the others if there is room, and the first is taken.
  pub writes : (w : ℕ) (s : State) → 0 < room s → words (write w s) ≡ words s ++ u32 w ∷ []
  pub reads :
      (s : State) (w : ℕ) (ws : List ℕ)
      → words s ≡ w ∷ ws
      → ((read s).0 ≡ w) × (words (read s).1 ≡ ws)

abbrev pub narrowed : List ℕ → List ℕ
narrowed [] = []
narrowed (w ∷ ws) = u32 w ∷ narrowed ws

length-narrowed : (ws : List ℕ) → length (narrowed ws) ≡ length ws
length-narrowed [] = refl
length-narrowed (w ∷ ws) = ap suc (length-narrowed ws)

module _ (box : Mailbox) where
  -- The words that a call has handed to the hardware reach the mailbox.
  unfoldable pub write_all : List ℕ → box.State → box.State
  write_all [] s = s
  write_all (w ∷ ws) s = write_all ws (box.write w s)

  -- send_message for each word, each of which tests the mailbox once
  unfoldable pub send_all : List ℕ → box.State → Outcome (box.State)
  send_all [] s = ok s
  send_all (w ∷ ws) s = do
    written ← Message.send_message (box.room s ∷ []) w
    send_all ws (write_all written s)

  -- wait_for_message_poll so many times, each of which tests the mailbox once
  unfoldable pub receive_all : ℕ → box.State → Outcome (List ℕ × box.State)
  receive_all zero s = ok ([], s)
  receive_all (suc n) s = do
    w ← wait_for_message_poll (box.count s ∷ []) (box.read s).0
    (ws, t) ← receive_all n (box.read s).1
    ok (w ∷ ws, t)

  send_all-words :
      (ws held : List ℕ) (s : box.State)
      → box.words s ≡ held
      → length held + length ws ≤ box.capacity
      → (t : box.State) × (send_all ws s ≡ ok t) × (box.words t ≡ held ++ narrowed ws)
  unfolding send_all write_all Message.send_message
  send_all-words [] held s holds le = (s, refl, holds ∙ sym (append-nil held))
  send_all-words (w ∷ ws) held s holds le =
      let free : 0 < box.room s = omega (arith, box.rooms s, ap length holds, le) in
      let (t, runs, left) =
        send_all-words ws (held ++ u32 w ∷ []) (box.write w s)
          (box.writes w s free ∙ ap (λ l. l ++ u32 w ∷ []) holds)
          (omega (arith, length-append held (u32 w ∷ []), le)) in
      let some_room : (box.room s == 0) ≡ false = ground (arith, free) in
      (t, rw some_room runs, left ∙ append_assoc held (u32 w ∷ []) (narrowed ws))

  receive_all-words :
      (ws rest : List ℕ) (s : box.State)
      → box.words s ≡ ws ++ rest
      → (t : box.State) × (receive_all (length ws) s ≡ ok (ws, t)) × (box.words t ≡ rest)
  unfolding receive_all wait_for_message_poll
  receive_all-words [] rest s holds = (s, refl, holds)
  receive_all-words (w ∷ ws) rest s holds =
      let (first, later) = box.reads s w (ws ++ rest) holds in
      let some_word : 0 < box.count s = omega (arith, box.counts s, ap length holds) in
      let (t, runs, left) = receive_all-words ws rest (box.read s).1 later in
      let ready : (box.count s == 0) ≡ false = ground (arith, some_word) in
      (t, rw (ready, first, runs) refl, left)

  -- Through a mailbox that keeps words in order, has as many entries as its capacity and takes a word if
  -- an entry is free: the words that the host sends into an empty mailbox, no more than the capacity, are
  -- those that as many calls of wait_for_message_poll return on the SPE, in the same order and as 32-bit
  -- words, and then the mailbox is empty again. Each call returns at its first test.
  pub send_all-receive_all :
      (ws : List ℕ) (s : box.State)
      → box.words s ≡ []
      → length ws ≤ box.capacity
      → (t : box.State) × (u : box.State) × (send_all ws s ≡ ok t)
        × (receive_all (length ws) t ≡ ok (narrowed ws, u))
        × (box.words u ≡ [])
  send_all-receive_all ws s empty few =
      let (t, sends, held) = send_all-words ws [] s empty (omega (arith, few)) in
      let (u, receives, left) =
        receive_all-words (narrowed ws) [] t (held ∙ sym (append-nil (narrowed ws))) in
      (t, u, sends, ap (λ n. receive_all n t) (sym (length-narrowed ws)) ∙ receives, left)
