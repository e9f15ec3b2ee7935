-- ===== src/Faults/Names.antt =====
-- arch/cpu/ifsr.c: for which status words there is a name.
use bsprakt_os.Base.{ℕ, ◌%◌, ◌≡◌, ◌⊎◌, ◌↔◌, arith, panic}
use bsprakt_os.Base.Words.{bit}
use bsprakt_os.Faults.{prefetch_fault, get_prefetch_abort_error_type}

-- A prefetch abort has no name, so that the kernel panics, exactly when the status is 0, 4 or 10, or
-- bit 10 of the status word is set, although five of the named faults have that bit.
pub get_prefetch_abort_error_type-panic :
    (ifsr : ℕ)
    → (get_prefetch_abort_error_type ifsr ≡ panic)
      ↔ ((bit ifsr 10 ≡ 1) ⊎ ((ifsr % 16 ≡ 0) ⊎ ((ifsr % 16 ≡ 4) ⊎ (ifsr % 16 ≡ 10))))
unfolding get_prefetch_abort_error_type prefetch_fault
get_prefetch_abort_error_type-panic ifsr = (λ e. ground (arith, e), λ c. ground (arith, c))
