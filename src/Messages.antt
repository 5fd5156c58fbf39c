-- ===== src/Messages.antt =====
-- include/speutils/messages.h and the constants of include/speutils/spefifo.h and src/spefifo.c.
use speutils_debs.Base.{ℕ}

abbrev pub noop : ℕ
noop = 0x1337C0DE

abbrev pub add : ℕ
add = 0xC0DE0ADD

abbrev pub stop : ℕ
stop = 0xCAFEBABE

abbrev pub register_program : ℕ
register_program = 0x73215737

abbrev pub read_mbox : ℕ
read_mbox = 1999

-- TASK_SIZE, in bytes, and TASK_SIZE/4, in words
abbrev pub task_size : ℕ
task_size = 128

abbrev pub task_words : ℕ
task_words = 32

abbrev pub ack_clear : ℕ
ack_clear = 0xc1ee7000

abbrev pub max_spes : ℕ
max_spes = 16

abbrev pub round_robin : ℕ
round_robin = 0
