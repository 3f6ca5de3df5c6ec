-- ===== src/Irq/Tests.antt =====
-- A registration and traps among the handlers of a kernel.
use jyy_os.Prelude.{ℕ, suc, ◌≡◌, inl, inr, refl, false, List, [], ◌∷◌, none, some, done, arith}
use jyy_os.Irq.{Irq, Handler, os_trap}
use jyy_os.Irq.Order.{Registered, on_irq-Registered}
use jyy_os.Irq.Trap.{Answers, Trapped, os_trap_lem, os_trap-syscall}

-- A handler that saves, one that answers a system call, and one that chooses context 70.
abbrev save : Handler ℕ ℕ
save ev context s = done (none, suc s)

abbrev choose : Handler ℕ ℕ
choose ev context s = done (some 70, suc s)

abbrev irqs : List (Irq (Handler ℕ ℕ))
irqs =
    record { seq = 0; event = 0; handler = save }
    ∷ record { seq = 5; event = 2; handler = save }
    ∷ record { seq = 10000; event = 0; handler = choose }
    ∷ []

on_irq-Registered_example : Registered 0 irqs (record { seq = 5; event = 3; handler = save })
on_irq-Registered_example =
    on_irq-Registered 0 irqs (record { seq = 5; event = 3; handler = save }) (omega arith)
      (omega arith, (omega arith, (omega arith, tt)))

-- Event 5, of which the handlers of all events hear
irqs-Answers : Answers 5 40 irqs 0 (70 ∷ []) 2
irqs-Answers = Answers.silent _ _ 0 1 2 (70 ∷ []) (inl refl) refl (
    Answers.passed _ _ 1 2 (70 ∷ [])
      (λ e. elim e [ inl z ↦ omega (arith, z) | inr z ↦ omega (arith, z) ])
      (Answers.answered _ _ 1 2 2 70 [] (inl refl) refl (Answers.at_end 2)))

os_trap_example : Trapped (70 ∷ []) 2 (os_trap (λ s. false) (λ s. done s) 5 40 irqs 0)
os_trap_example =
    os_trap_lem (λ s. false) (λ s. done s) 5 40 irqs 0 0 2 (70 ∷ []) (λ e. omega (arith, e)) refl
      irqs-Answers

os_trap-syscall_example :
    os_trap
      (λ s. false)
      (λ s. done s)
      2
      40
      (record { seq = 1; event = 3; handler = choose }
        ∷ record { seq = 2; event = 2; handler = save }
        ∷ [])
      0
    ≡ done (40, 1)
os_trap-syscall_example =
    os_trap-syscall (λ s. false) (λ s. done s) 40
      (record { seq = 1; event = 3; handler = choose } ∷ []) []
      (record { seq = 2; event = 2; handler = save }) 0 0 1 none refl
      ((λ e. elim e [ inl z ↦ omega (arith, z) | inr z ↦ omega (arith, z) ]), tt) (inr refl) refl
