-- ===== src/Kmt/Spin.antt =====
-- kernel/src/kmt.c, lines 16 to 93: spin locks that keep the interrupts of their processor off.
pub mod Nest
pub mod Held
use jyy_os.Prelude.{
  ℕ, ◌+◌, ◌-◌, Bool, true, false, not, ◌&&◌, if◌then◌else◌, ltb, ◌==◌, Option, none, some, Outcome,
  done, panic, stuck, assert, ◌>>=◌, ◌>>◌,
}

-- The `interrupt` of a `CPU_TASKS`, and the interrupt flag of the processor, which `ienabled` reads
-- and `iset` writes.
pub record Cpu : Type 0 where
  pub noff : ℕ
  pub intena : Bool
  pub enabled : Bool

-- `spinlock_t` without its name; -1 as `cpu_num` is `none`.
pub record Spinlock : Type 0 where
  pub lock : Bool
  pub cpu_num : Option ℕ

unfoldable pub push_off : Cpu → Cpu
push_off c = record {
  noff = c.noff + 1;
  intena = if c.noff == 0 then c.enabled else c.intena;
  enabled = false;
}

unfoldable pub pop_off : Cpu → Outcome Cpu
pop_off c =
    assert (not c.enabled)
    >> (if ltb c.noff 1
        then panic
        else done (record c {
          noff = c.noff - 1;
          enabled = if (c.noff - 1 == 0) && c.intena then true else c.enabled;
        }))

-- `cpu_num == id`
abbrev pub is_cpu : Option ℕ → ℕ → Bool
is_cpu none id = false
is_cpu (some k) id = k == id

-- The test in `holding`
unfoldable pub owns : Spinlock → ℕ → Bool
owns lk id = lk.lock && is_cpu lk.cpu_num id

unfoldable pub holding : ℕ → Cpu → Spinlock → Outcome (Bool × Cpu)
holding id c lk = pop_off (push_off c) >>= λ c'. done (owns lk id, c')

unfoldable pub kmt_spin_lock : ℕ → Cpu → Spinlock → Outcome (Cpu × Spinlock)
kmt_spin_lock id c lk =
    if lk.lock then stuck else done (push_off c, record { lock = true; cpu_num = some id })

unfoldable pub kmt_try_spin_lock : ℕ → Cpu → Spinlock → Outcome (Bool × Cpu × Spinlock)
kmt_try_spin_lock id c lk =
    if lk.lock
    then (pop_off (push_off c) >>= λ c'. done (false, c', lk))
    else done (true, push_off c, record { lock = true; cpu_num = some id })

abbrev pub released : Spinlock
released = record { lock = false; cpu_num = none }

unfoldable pub kmt_spin_unlock : ℕ → Cpu → Spinlock → Outcome (Cpu × Spinlock)
kmt_spin_unlock id c lk = do
  (held, c') ← holding id c lk
  (if held then (pop_off c' >>= λ c2. done (c2, released)) else panic)

abbrev pub kmt_spin_init : Spinlock
kmt_spin_init = released
