-- ===== src/RegisterDump.antt =====
-- kernel/register_dump.c: what a dump looks up. The text that it prints is left out; a look-up
-- without a name panics. The VERIFYs of `print_register_using_layout` hold at every bit of the one
-- layout that there is.
use bsprakt_os.Base.{
  ℕ, ◌%◌, ◌≡◌, ◌∙◌, refl, ap, arith, ◌==◌, Bool, true, false, not, ◌&&◌, ◌||◌, if◌then◌else◌, List,
  [], ◌∷◌, Outcome, ok, ◌>>=◌, ◌>>◌, verify,
}
use bsprakt_os.Base.Words.{bit}
use bsprakt_os.Faults.{
  get_prefetch_abort_error_type, prefetch_fault, get_data_abort_error_type, get_mode_name,
}
use bsprakt_os.Kernel.{Kernel}

-- `interrupt_type`
pub data InterruptType : Type 0 where
  reset undefined_instruction software prefetch_abort data_abort irq : InterruptType

-- A name that is looked up and printed.
abbrev pub printed {ℓ} : {A : Type ℓ} → Outcome A → Outcome (Unit {0})
printed o = o >>= λ name. ok tt

unfoldable pub print_current_mode_status_registers : Kernel → Outcome (Unit {0})
print_current_mode_status_registers k = do
  printed (get_mode_name k.status.cpsr)
  printed (get_mode_name k.spsr)

-- The loop over the modes, each with its saved status register: the system mode has none.
unfoldable pub print_modes : List (ℕ × ℕ) → Outcome (Unit {0})
print_modes [] = ok tt
print_modes ((mode, spsr) ∷ modes) = do
  printed (get_mode_name mode)
  if not (mode == 0x1f) then printed (get_mode_name spsr) else ok tt
  print_modes modes

unfoldable pub print_various_mode_registers : Kernel → Outcome (Unit {0})
print_various_mode_registers k = print_modes (
    (0x1f, 0)
    ∷ (0x13, k.status.spsr_supervisor)
    ∷ (0x17, k.status.spsr_abort)
    ∷ (0x12, k.status.spsr_irq)
    ∷ (0x1b, k.status.spsr_undefined)
    ∷ [])

-- The status of the fault.
unfoldable pub print_fault : InterruptType → Kernel → Outcome (Unit {0})
print_fault prefetch_abort k = printed (get_prefetch_abort_error_type k.status.ifsr)
print_fault data_abort k = printed (get_data_abort_error_type k.status.dfsr)
print_fault reset k = ok tt
print_fault undefined_instruction k = ok tt
print_fault software k = ok tt
print_fault irq k = ok tt

unfoldable pub dump_registers : InterruptType → Kernel → Outcome (Unit {0})
dump_registers type k = do
  print_fault type k
  print_current_mode_status_registers k
  print_various_mode_registers k

-- The modes with a name.
abbrev pub is_mode : ℕ → Bool
is_mode psr =
    let n = psr % 32 in
    n == 0 || (n == 16 || (n == 18 || (n == 19 || (n == 23 || (n == 27 || n == 31)))))

-- The faults with a name.
abbrev pub is_named : InterruptType → Kernel → Bool
is_named prefetch_abort k =
    let n = k.status.ifsr % 16 in
    not (bit k.status.ifsr 10 == 1) && not (n == 0 || (n == 4 || n == 10))
is_named data_abort k = let n = k.status.dfsr % 16 in not (n == 0 || n == 10)
is_named reset k = true
is_named undefined_instruction k = true
is_named software k = true
is_named irq k = true

-- Whether a dump finds all its names.
abbrev pub is_dumped : InterruptType → Kernel → Bool
is_dumped type k =
    is_named type k
    && (is_mode k.status.cpsr
        && (is_mode k.spsr
            && (is_mode k.status.spsr_supervisor
                && (is_mode k.status.spsr_abort
                    && (is_mode k.status.spsr_irq && is_mode k.status.spsr_undefined)))))

get_mode_name-is_mode : (psr : ℕ) → printed (get_mode_name psr) ≡ verify (is_mode psr)
unfolding get_mode_name
get_mode_name-is_mode psr = ground arith

print_fault-is_named :
    (type : InterruptType) (k : Kernel) → print_fault type k ≡ verify (is_named type k)
unfolding print_fault get_prefetch_abort_error_type prefetch_fault get_data_abort_error_type
print_fault-is_named prefetch_abort k = ground arith
print_fault-is_named data_abort k = ground arith
print_fault-is_named reset k = refl
print_fault-is_named undefined_instruction k = refl
print_fault-is_named software k = refl
print_fault-is_named irq k = refl

verify-and : (a b : Bool) → (verify a >> verify b) ≡ verify (a && b)
verify-and true b = refl
verify-and false b = refl

print_current-is_mode :
    (k : Kernel)
    → print_current_mode_status_registers k ≡ verify (is_mode k.status.cpsr && is_mode k.spsr)
unfolding print_current_mode_status_registers
print_current-is_mode k =
    rw (get_mode_name-is_mode k.status.cpsr, get_mode_name-is_mode k.spsr)
      (verify-and (is_mode k.status.cpsr) (is_mode k.spsr))

print_modes-cons :
    (mode spsr : ℕ) (modes : List (ℕ × ℕ)) (b : Bool)
    → is_mode mode ≡ true
    → (mode == 0x1f) ≡ false
    → print_modes modes ≡ verify b
    → print_modes ((mode, spsr) ∷ modes) ≡ verify (is_mode spsr && b)
unfolding print_modes
print_modes-cons mode spsr modes b m s e =
    rw (get_mode_name-is_mode mode, m, s, get_mode_name-is_mode spsr, e)
      (verify-and (is_mode spsr) b)

print_modes-nil : print_modes [] ≡ verify true
unfolding print_modes
print_modes-nil = refl

-- The system mode has a name and no saved status.
print_modes-system : (modes : List (ℕ × ℕ)) → print_modes ((0x1f, 0) ∷ modes) ≡ print_modes modes
unfolding print_modes get_mode_name
print_modes-system modes = refl

and_true : (b : Bool) → (b && true) ≡ b
and_true true = refl
and_true false = refl

print_various-is_mode :
    (k : Kernel)
    → print_various_mode_registers k
      ≡ verify (
          is_mode k.status.spsr_supervisor
          && (is_mode k.status.spsr_abort
              && (is_mode k.status.spsr_irq && is_mode k.status.spsr_undefined)))
unfolding print_various_mode_registers
print_various-is_mode k =
    let s = k.status in
    let d = print_modes-cons 0x1b s.spsr_undefined [] true refl refl print_modes-nil in
    let c = print_modes-cons 0x12 s.spsr_irq _ (is_mode s.spsr_undefined && true) refl refl d in
    let b = print_modes-cons 0x17 s.spsr_abort _ _ refl refl c in
    let a = print_modes-cons 0x13 s.spsr_supervisor _ _ refl refl b in
    print_modes-system _
    ∙ a
    ∙ ap
        (λ u.
          verify (is_mode s.spsr_supervisor && (is_mode s.spsr_abort && (is_mode s.spsr_irq && u))))
        (and_true (is_mode s.spsr_undefined))

-- A dump finds its names or panics.
pub dump_registers-is_dumped :
    (type : InterruptType) (k : Kernel) → dump_registers type k ≡ verify (is_dumped type k)
unfolding dump_registers
dump_registers-is_dumped type k =
    rw (print_fault-is_named type k, print_current-is_mode k, print_various-is_mode k)
      (chain (is_named type k) (is_mode k.status.cpsr) (is_mode k.spsr) _)
  where
    chain :
        (a b c d : Bool)
        → (verify a >> (verify (b && c) >> verify d)) ≡ verify (a && (b && (c && d)))
    chain false b c d = refl
    chain true false c d = refl
    chain true true false d = refl
    chain true true true d = refl
