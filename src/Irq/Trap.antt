-- ===== src/Irq/Trap.antt =====
-- What `os_trap` makes of the answers of the handlers.
use jyy_os.Prelude.{
  ℕ, ◌≡◌, ◌≢◌, ◌⊎◌, inl, inr, refl, Bool, true, false, ◌||◌, if◌then◌else◌, ◌==◌, ==_iff, ne→==,
  Option, none, some, List, [], ◌∷◌, ◌++◌, All, Outcome, done, panic,
}
use jyy_os.Irq.{Irq, Handler, event_null, event_syscall, matches, call_handlers, os_trap}

-- A handler is for an event, or for all events.
abbrev pub IsFor {ℓ} : {H : Type ℓ} → ℕ → Irq H → Type 0
IsFor ev irq = (irq.event ≡ event_null) ⊎ (irq.event ≡ ev)

IsFor-matches {ℓ} : {H : Type ℓ} (ev : ℕ) (irq : Irq H) → IsFor ev irq → matches ev irq ≡ true
IsFor-matches ev irq (inl e) = rw ((==_iff irq.event event_null).1 e) refl
IsFor-matches ev irq (inr e) =
    elim (irq.event == event_null) as (λ b. (b || (irq.event == ev)) ≡ true) [
      | true ↦ refl
      | false ↦ (==_iff irq.event ev).1 e
    ]

not_for {ℓ} : {H : Type ℓ} (ev : ℕ) (irq : Irq H) → ¬ (IsFor ev irq) → matches ev irq ≡ false
not_for ev irq n =
    rw (ne→== irq.event event_null (λ e. n (inl e)), ne→== irq.event ev (λ e. n (inr e))) refl

-- The handlers of a list are called for an event one after another: those that are for it or for all
-- events, each in the state that the one before has left, with the contexts that they return.
pub data Answers {Context State : Type 0} (ev : ℕ) (c : Context)
    : List (Irq (Handler Context State)) → State → List Context → State → Type 0 where
  at_end : (s : State) → Answers ev c [] s [] s
  passed :
      (irq : Irq (Handler Context State)) (rest : List (Irq (Handler Context State))) (s s' : State)
      (rs : List Context)
      → ¬ (IsFor ev irq)
      → Answers ev c rest s rs s'
      → Answers ev c (irq ∷ rest) s rs s'
  silent :
      (irq : Irq (Handler Context State)) (rest : List (Irq (Handler Context State)))
      (s s1 s' : State) (rs : List Context)
      → IsFor ev irq
      → irq.handler ev c s ≡ done (none, s1)
      → Answers ev c rest s1 rs s'
      → Answers ev c (irq ∷ rest) s rs s'
  answered :
      (irq : Irq (Handler Context State)) (rest : List (Irq (Handler Context State)))
      (s s1 s' : State) (r : Context) (rs : List Context)
      → IsFor ev irq
      → irq.handler ev c s ≡ done (some r, s1)
      → Answers ev c rest s1 rs s'
      → Answers ev c (irq ∷ rest) s (r ∷ rs) s'

module _ {Context State : Type 0} where
  -- The loop with the context `next` at hand, for the contexts that are still returned
  abbrev Joined : Option Context → List Context → State → Outcome (Option Context × State) → Type 0
  Joined next [] s' run = run ≡ done (next, s')
  Joined (some n) (r ∷ rs) s' run = run ≡ panic
  Joined none (r ∷ rs) s' run = Joined (some r) rs s' run

  call-Joined :
      (ev : ℕ) (c : Context) (irqs : List (Irq (Handler Context State))) (s s' : State)
      (rs : List Context) (next : Option Context)
      → ev ≢ event_syscall
      → Answers ev c irqs s rs s'
      → Joined next rs s' (call_handlers ev c irqs next s)
  unfolding call_handlers
  call-Joined ev c _ _ s' _ next other (at_end s) = refl
  call-Joined ev c _ _ _ _ next other (passed irq rest s s' rs n a) =
      rw (not_for ev irq n) (call-Joined ev c rest s s' rs next other a)
  call-Joined ev c _ _ _ _ next other (silent irq rest s s1 s' rs f e a) =
      rw (IsFor-matches ev irq f, e, ne→== ev event_syscall other)
        (call-Joined ev c rest s1 s' rs next other a)
  call-Joined ev c _ _ _ _ none other (answered irq rest s s1 s' r rs f e a) =
      rw (IsFor-matches ev irq f, e, ne→== ev event_syscall other)
        (call-Joined ev c rest s1 s' rs (some r) other a)
  call-Joined ev c _ _ _ _ (some n) other (answered irq rest s s1 s' r rs f e a) =
      rw (IsFor-matches ev irq f, e, ne→== ev event_syscall other) refl

  -- What `os_trap` gives for the contexts that the handlers return: just one, or a panic.
  abbrev pub Trapped : List Context → State → Outcome (Context × State) → Type 0
  Trapped [] s' run = run ≡ panic
  Trapped (r ∷ []) s' run = run ≡ done (r, s')
  Trapped (r ∷ q ∷ rs) s' run = run ≡ panic

  -- A trap that is no system call. Where the current task is killed, let `exit` come back, and let the
  -- handlers of the list that are for the event or for all events be called one after another, each
  -- of them returning. Then `os_trap` returns the context of a handler if just one of them returned
  -- one, with the state that the last handler left; with none or with several it is a panic.
  pub os_trap_lem :
      (killed : State → Bool) (exit : State → Outcome State) (ev : ℕ) (c : Context)
      (irqs : List (Irq (Handler Context State))) (s s1 s' : State) (rs : List Context)
      → ev ≢ event_syscall
      → (if killed s then exit s else done s) ≡ done s1
      → Answers ev c irqs s1 rs s'
      → Trapped rs s' (os_trap killed exit ev c irqs s)
  unfolding os_trap
  os_trap_lem killed exit ev c [] s _ s' _ other start (at_end _) = rw start refl
  os_trap_lem killed exit ev c (irq ∷ rest) s s1 s' [] other start a =
      rw (start, call-Joined ev c (irq ∷ rest) s1 s' [] none other a) refl
  os_trap_lem killed exit ev c (irq ∷ rest) s s1 s' (r ∷ []) other start a =
      rw (start, call-Joined ev c (irq ∷ rest) s1 s' (r ∷ []) none other a) refl
  os_trap_lem killed exit ev c (irq ∷ rest) s s1 s' (r ∷ q ∷ rs) other start a =
      rw (start, call-Joined ev c (irq ∷ rest) s1 s' (r ∷ q ∷ rs) none other a) refl

  call-syscall :
      (c : Context) (front back : List (Irq (Handler Context State)))
      (irq : Irq (Handler Context State)) (s s' : State) (next r : Option Context)
      → All (λ h. ¬ (IsFor event_syscall h)) front
      → IsFor event_syscall irq
      → irq.handler event_syscall c s ≡ done (r, s')
      → call_handlers event_syscall c (front ++ (irq ∷ back)) next s ≡ done (some c, s')
  unfolding call_handlers
  call-syscall c [] back irq s s' next r n f e = rw (IsFor-matches event_syscall irq f, e) refl
  call-syscall c (h ∷ front) back irq s s' next r n f e =
      rw (not_for event_syscall h n.0) (call-syscall c front back irq s s' next r n.1 f e)

  -- A system call. Where the current task is killed, let `exit` come back, and let the first handler
  -- of the list that is for system calls or for all events return. Then `os_trap` returns the
  -- context that was interrupted, with the state that this handler left: whatever it returned, and
  -- whatever handlers stand behind it.
  pub os_trap-syscall :
      (killed : State → Bool) (exit : State → Outcome State) (c : Context)
      (front back : List (Irq (Handler Context State))) (irq : Irq (Handler Context State))
      (s s1 s' : State) (r : Option Context)
      → (if killed s then exit s else done s) ≡ done s1
      → All (λ h. ¬ (IsFor event_syscall h)) front
      → IsFor event_syscall irq
      → irq.handler event_syscall c s1 ≡ done (r, s')
      → os_trap killed exit event_syscall c (front ++ (irq ∷ back)) s ≡ done (c, s')
  unfolding os_trap
  os_trap-syscall killed exit c [] back irq s s1 s' r start n f e =
      rw (start, call-syscall c [] back irq s1 s' none r n f e) refl
  os_trap-syscall killed exit c (h ∷ front) back irq s s1 s' r start n f e =
      rw (start, call-syscall c (h ∷ front) back irq s1 s' none r n f e) refl
