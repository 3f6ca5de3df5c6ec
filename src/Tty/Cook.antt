-- ===== src/Tty/Cook.antt =====
-- The queue of typed characters of kernel/src/dev/dev_tty.c: `struct tty_queue`, `tty_enqueue`,
-- `tty_pop_back`, `tty_cook` and `tty_read`. A pointer into the queue is its offset from `buf`, `end`
-- is the offset TTY_COOK_BUF_SZ, and a character is its number. `cooked` is the count of that
-- semaphore. The semaphore `lock` is held through each operation, so one runs after another.
pub mod Contents
pub mod Lines
pub mod Reading
pub mod Session
use jyy_os.Prelude.{
  ℕ, zero, suc, ◌+◌, ◌-◌, Bool, not, ◌&&◌, if◌then◌else◌, ◌==◌, ltb, List, [], ◌∷◌, ◌++◌, length,
  Outcome, done, panic, stuck, ◌>>=◌, update,
}

abbrev pub tty_cook_buf_sz : ℕ
tty_cook_buf_sz = 1024

pub record TtyQueue : Type 0 where
  pub buf : ℕ → ℕ
  pub front : ℕ
  pub rear : ℕ
  pub cooked : ℕ

-- The queue that `tty_init` makes of the memory it is given.
abbrev pub queue_init : (ℕ → ℕ) → TtyQueue
queue_init memory = record { buf = memory; front = 0; rear = 0; cooked = 0 }

-- One place on, round at the end
abbrev pub step : ℕ → ℕ
step p = if p + 1 == tty_cook_buf_sz then 0 else p + 1

unfoldable pub tty_enqueue : TtyQueue → ℕ → Outcome TtyQueue
tty_enqueue q ch =
    let buf = update q.buf q.rear ch in
    let rear = step q.rear in
    if rear == q.front then panic else done (record q { buf = update buf rear 0; rear = rear })

unfoldable pub tty_pop_back : TtyQueue → ℕ × TtyQueue
tty_pop_back q =
    if q.front == tty_cook_buf_sz
    then (1, q)
    else let pos = if q.rear == 0 then tty_cook_buf_sz else q.rear in
      if q.buf (pos - 1) == 0
      then (1, q)
      else (0, record q { rear = pos - 1; buf = update q.buf (pos - 1) 0 })

-- `'\n'` and `'\b'`
abbrev pub newline : ℕ
newline = 10

abbrev pub backspace : ℕ
backspace = 8

-- The case of a newline: the line is complete.
unfoldable pub cook_newline : TtyQueue → Outcome (ℕ × TtyQueue)
cook_newline q = tty_enqueue q newline >>= λ q1.
    tty_enqueue q1 0 >>= λ q2. done (0, record q2 { cooked = q2.cooked + 1 })

unfoldable pub tty_cook : TtyQueue → ℕ → Outcome (ℕ × TtyQueue)
tty_cook q ch =
    if ch == newline
    then cook_newline q
    else if ch == backspace
    then done (tty_pop_back q)
    else (tty_enqueue q ch >>= λ q1. done (0, q1))

-- A character is put into the caller's buffer when it is not `'\0'` and there is room.
unfoldable pub put : ℕ → List ℕ → ℕ → List ℕ
put count got ch = if ltb (length got) count && not (ch == 0) then got ++ (ch ∷ []) else got

-- The loop of `tty_read`, with the characters it has put into the caller's buffer; `nread` is how
-- many they are. A loop that has gone through the whole ring and found no `'\0'` never ends.
unfoldable pub read_loop : ℕ → ℕ → TtyQueue → List ℕ → Outcome (List ℕ × TtyQueue)
read_loop zero count q got = stuck
read_loop (suc n) count q got =
    let ch = q.buf q.front in
    let got' = put count got ch in
    let q' = record q { front = step q.front } in
    let rest = read_loop n count q' got' in if ch == 0 then done (got', q') else rest

-- `tty_read`: the wait for a line, and the loop.
unfoldable pub tty_read : TtyQueue → ℕ → Outcome (List ℕ × TtyQueue)
tty_read q count =
    if q.cooked == 0
    then stuck
    else read_loop tty_cook_buf_sz count (record q { cooked = q.cooked - 1 }) []
