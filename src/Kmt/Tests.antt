-- ===== src/Kmt/Tests.antt =====
-- Runs of the spin locks, the scheduler and the semaphores on small states.
use jyy_os.Prelude.{◌≡◌, ◌⊎◌, refl, true, false, ◌==◌, some, Outcome, done, panic, arith}
use jyy_os.Kmt.Spin.{
  Cpu, Spinlock, push_off, owns, kmt_spin_lock, kmt_spin_unlock, kmt_spin_init, released,
}
use jyy_os.Kmt.Spin.Nest.{Nested}
use jyy_os.Kmt.Spin.Held.{Machine, Step, Reach, Fresh, Held, put, Reach-Held, unlock-Reach}
use jyy_os.Kmt.Sem.{World, kmt_sem_wait, kmt_sem_signal}
use jyy_os.Kmt.Sem.Waiters.{Counts, Signalled}
use jyy_os.Kmt.Sem.Service.{Called, WaitDone, wait_lem, signal_lem}

abbrev awake : Cpu
awake = record { noff = 0; intena = false; enabled = true }

abbrev taken : Spinlock
taken = record { lock = true; cpu_num = some 1 }

abbrev machine : Machine
machine = record { cpus = λ id. awake; locks = λ i. released }

machine-Fresh : Fresh (λ id. true) machine
machine-Fresh = record { free = λ i. refl; flat = λ id. refl; flag = λ id. refl }

-- Processor 1 takes lock 2.
abbrev holding_2 : Machine
holding_2 = put machine 1 2 (push_off awake) taken

holding_2-Reach : Reach 5 machine holding_2
unfolding kmt_spin_lock
holding_2-Reach =
    Reach.later machine holding_2 Reach.here
      (Step.acquire machine 1 2 (push_off awake) taken (omega arith) refl)

Reach-Held_example : Held (λ id. true) 5 holding_2
Reach-Held_example = Reach-Held (λ id. true) 5 machine holding_2 machine-Fresh holding_2-Reach

unlock-Reach_example :
    ((owns (holding_2.locks 2) 1 ≡ true)
      × ((c : Cpu) × (kmt_spin_unlock 1 (holding_2.cpus 1) (holding_2.locks 2)
            ≡ done (c, kmt_spin_init))))
    ⊎ ((owns (holding_2.locks 2) 1 ≡ false)
        × (kmt_spin_unlock 1 (holding_2.cpus 1) (holding_2.locks 2) ≡ panic))
unlock-Reach_example =
    unlock-Reach (λ id. true) 5 machine holding_2 1 2 machine-Fresh holding_2-Reach (omega arith)

awake-Nested : Nested true 0 awake
awake-Nested = record { depth = refl; flag = refl; kept = λ pos. absurd (omega arith) }

-- A semaphore with a count of 0.
abbrev empty_sem : World
empty_sem = record {
  cpu = awake;
  sem = record { resource = 0; task_cnt = 0; task_list = λ i. 0; lock = released };
  block = λ t. false;
  status = λ t. released;
}

empty_sem-Counts : Counts empty_sem
empty_sem-Counts = record {
  int = omega arith;
  nobody = λ h. refl;
  debt = λ h. absurd (omega arith);
  blocked = λ i lt. absurd (omega arith);
  distinct = λ i j lt1 lt2 e. absurd (omega arith);
}

-- A yield after which another task has signalled and taken this one from the list
abbrev woken : World → Outcome World
woken w = done (record w { sem = record w.sem { resource = 0; task_cnt = 0 }; block = λ t. false })

wait_example : WaitDone woken 7 true 0 empty_sem (kmt_sem_wait woken 1 (some 7) empty_sem)
wait_example =
    wait_lem woken 1 7 true 0 empty_sem (omega arith) (omega arith) refl refl
      (record { free = refl; nested = awake-Nested }) empty_sem-Counts

-- The same semaphore with task 7 on its list.
abbrev waiting_sem : World
waiting_sem = record {
  cpu = awake;
  sem = record { resource = 4294967295; task_cnt = 1; task_list = λ i. 7; lock = released };
  block = λ t. t == 7;
  status = λ t. released;
}

waiting_sem-Counts : Counts waiting_sem
waiting_sem-Counts = record {
  int = omega arith;
  nobody = λ h. absurd (omega arith);
  debt = λ h. refl;
  blocked = λ i lt. refl;
  distinct = λ i j lt1 lt2 e. omega arith;
}

signal_example :
    (r : Called true 0 (kmt_sem_signal 1 5 waiting_sem)) × Signalled waiting_sem r.after
signal_example =
    signal_lem 1 5 true 0 waiting_sem (omega arith) (record { free = refl; nested = awake-Nested })
      waiting_sem-Counts
