-- ===== src/Mailbox/Examples.antt =====
-- A mailbox of four entries.
use speutils_debs.Base.{ℕ, ◌+◌, ◌<◌, ◌≡◌, refl, List, [], ◌∷◌, ◌++◌, arith, length, u32, ok}
use speutils_debs.Mailbox.Trip.{Mailbox, narrowed, send_all, receive_all, send_all-receive_all}

data Held : Type 0 where
  empty : Held
  one : ℕ → Held
  two : ℕ → ℕ → Held
  three : ℕ → ℕ → ℕ → Held
  four : ℕ → ℕ → ℕ → ℕ → Held

abbrev words_of : Held → List ℕ
words_of empty = []
words_of (one a) = a ∷ []
words_of (two a b) = a ∷ b ∷ []
words_of (three a b c) = a ∷ b ∷ c ∷ []
words_of (four a b c d) = a ∷ b ∷ c ∷ d ∷ []

abbrev room_of : Held → ℕ
room_of empty = 4
room_of (one a) = 3
room_of (two a b) = 2
room_of (three a b c) = 1
room_of (four a b c d) = 0

-- A word without room replaces the last.
abbrev put_word : ℕ → Held → Held
put_word w empty = one (u32 w)
put_word w (one a) = two a (u32 w)
put_word w (two a b) = three a b (u32 w)
put_word w (three a b c) = four a b c (u32 w)
put_word w (four a b c d) = four a b c (u32 w)

abbrev take_word : Held → ℕ × Held
take_word empty = (0, empty)
take_word (one a) = (a, empty)
take_word (two a b) = (a, one b)
take_word (three a b c) = (a, two b c)
take_word (four a b c d) = (a, three b c d)

rooms_of : (s : Held) → room_of s + length (words_of s) ≡ 4
rooms_of empty = refl
rooms_of (one a) = refl
rooms_of (two a b) = refl
rooms_of (three a b c) = refl
rooms_of (four a b c d) = refl

put_word-words :
    (w : ℕ) (s : Held) → 0 < room_of s → words_of (put_word w s) ≡ words_of s ++ u32 w ∷ []
put_word-words w empty lt = refl
put_word-words w (one a) lt = refl
put_word-words w (two a b) lt = refl
put_word-words w (three a b c) lt = refl
put_word-words w (four a b c d) lt = absurd (omega (arith, lt))

take_word-words :
    (s : Held) (w : ℕ) (ws : List ℕ)
    → words_of s ≡ w ∷ ws
    → ((take_word s).0 ≡ w) × (words_of (take_word s).1 ≡ ws)
take_word-words empty w ws e = absurd (cc)
take_word-words (one a) w ws e = (cc, cc)
take_word-words (two a b) w ws e = (cc, cc)
take_word-words (three a b c) w ws e = (cc, cc)
take_word-words (four a b c d) w ws e = (cc, cc)

abbrev box : Mailbox
box = record {
  State = Held;
  words = words_of;
  room = room_of;
  write = put_word;
  count = λ s. length (words_of s);
  read = take_word;
  capacity = 4;
  rooms = rooms_of;
  counts = λ s. refl;
  writes = put_word-words;
  reads = take_word-words;
}

send_all-receive_all_example :
    (t u : Held) × (send_all box (7 ∷ 0x100000009 ∷ 9 ∷ []) empty ≡ ok t)
    × (receive_all box 3 t ≡ ok (narrowed (7 ∷ 0x100000009 ∷ 9 ∷ []), u))
    × (words_of u ≡ [])
send_all-receive_all_example =
    send_all-receive_all box (7 ∷ 0x100000009 ∷ 9 ∷ []) empty refl (omega arith)
