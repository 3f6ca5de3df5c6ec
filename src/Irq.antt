-- ===== src/Irq.antt =====
-- kernel/src/os.c, lines 252 to 323: the list of trap handlers. What a handler does is a parameter,
-- a function from the event, the context and the state of the kernel.
mod Order
mod Trap
mod Tests
use jyy_os.Prelude.{
  ℕ, Bool, true, false, ◌||◌, if◌then◌else◌, leb, ◌==◌, Option, none, some, List, [], ◌∷◌, Outcome,
  done, panic, ◌>>=◌,
}

-- `IRQ` without its link
pub record Irq {ℓ} (Handler : Type ℓ) : Type ℓ where
  pub seq : ℕ
  pub event : ℕ
  pub handler : Handler

-- AM's numbers of events
abbrev pub event_null : ℕ
event_null = 0

abbrev pub event_syscall : ℕ
event_syscall = 2

-- `os_on_irq`: the list from `irq_head` with the new handler.
unfoldable pub os_on_irq {ℓ} :
    {Handler : Type ℓ} → List (Irq Handler) → Irq Handler → List (Irq Handler)
os_on_irq [] new_handler = new_handler ∷ []
os_on_irq (cur ∷ rest) new_handler =
    let later = os_on_irq rest new_handler in
    if leb new_handler.seq cur.seq then new_handler ∷ cur ∷ rest else cur ∷ later

-- What the C function type `handler_t` is here.
abbrev pub Handler : (Context State : Type 0) → Type 0
Handler Context State = ℕ → Context → State → Outcome (Option Context × State)

abbrev pub matches {ℓ} : {H : Type ℓ} → ℕ → Irq H → Bool
matches ev irq = (irq.event == event_null) || (irq.event == ev)

-- `next` with what a handler returned; two contexts are a panic.
abbrev pub joined : {Context : Type 0} → Option Context → Option Context → Outcome (Option Context)
joined (some r) (some next) = panic
joined (some r) none = done (some r)
joined none next = done next

module _ {Context State : Type 0} where
  -- The loop of `os_trap`.
  unfoldable pub call_handlers :
      ℕ
      → Context
      → List (Irq (Handler Context State))
      → Option Context
      → State
      → Outcome (Option Context × State)
  call_handlers ev context [] next s = done (next, s)
  call_handlers ev context (irq ∷ rest) next s =
      if matches ev irq
      then (irq.handler ev context s >>= λ r.
          if ev == event_syscall
          then done (some context, r.1)
          else (joined r.0 next >>= λ n. call_handlers ev context rest n r.1))
      else call_handlers ev context rest next s

  abbrev pub chosen : Option Context × State → Outcome (Context × State)
  chosen (none, s) = panic
  chosen (some next, s) = done (next, s)

  -- `os_trap`; `killed` reads the current task, `exit` is what `uproc->exit` does to the state.
  unfoldable pub os_trap :
      (State → Bool)
      → (State → Outcome State)
      → ℕ
      → Context
      → List (Irq (Handler Context State))
      → State
      → Outcome (Context × State)
  os_trap killed exit ev context [] s = (if killed s then exit s else done s) >>= λ s1. panic
  os_trap killed exit ev context (irq ∷ rest) s = (if killed s then exit s else done s) >>= λ s1.
      call_handlers ev context (irq ∷ rest) none s1 >>= chosen
