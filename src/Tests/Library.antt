-- ===== src/Tests/Library.antt =====
-- Runs of kernel/lib/kprintf.c, kernel/lib/kmath.c, kernel/lib/kfraction.c, kernel/lib/kcolor.c and
-- kernel/lib/ktiming.c.
use Prim.Native.Nat.{◌∣◌}
use bsprakt_os.Base.{
  ℕ, ◌+◌, ◌≤◌, ◌≡◌, ◌≢◌, ◌↔◌, ◌⊎◌, refl, true, false, List, [], ◌∷◌, length, ◌==◌, ok, out_of_fuel,
  ◌>>=◌, arith, if◌then◌else◌, update,
}
use bsprakt_os.Base.Signed.{pos, negsuc, nat_abs, ◌*ℤ◌, to_long, long_max}
use bsprakt_os.Timer.{systimer_value}
use bsprakt_os.Timer.Errors.{success, k_einval}
use bsprakt_os.Kernel.{Kernel, ready_list, running_list, stall_waiting_list}
use bsprakt_os.Pl001.{Uart}
use bsprakt_os.Scheduler.{scheduler_stall_cmp}
use bsprakt_os.Syscalls.{syscall_stall_thread, syscall_get_time, set_r0, reset_timer}
use bsprakt_os.Math.{k_gcd, k_lcm}
use bsprakt_os.Math.Gcd.{gcd, k_gcd-greatest, k_lcm-least}
use bsprakt_os.Fraction.{Fraction, k_fraction_create, k_fraction_multiply, k_fraction_add}
use bsprakt_os.Fraction.Lowest.{k_fraction_create-lowest}
use bsprakt_os.Fraction.Products.{over_pos, k_fraction_multiply-ends}
use bsprakt_os.Fraction.Stuck.{k_fraction_add-stuck}
use bsprakt_os.Ktiming.{timing}
use bsprakt_os.Ktiming.Exact.{syscall_get_time-exact}
use bsprakt_os.Ktiming.Stall.{syscall_stall_thread-stalled}
use bsprakt_os.Scheduler.Switch.{Switched}
use bsprakt_os.IntrusiveList.Store.{IsStore}
use bsprakt_os.IntrusiveList.Ring.Insert.{inserted}
use bsprakt_os.Base.Words.{add32}
use bsprakt_os.Ascii.{k_is_ascii_decimal_digit, k_to_ascii_hexadecimal_digit}
use bsprakt_os.Console.{
  Console, written, max_number_print_width, send_all, kprintf_base_less_eq_16_to_ascii, ascii_loop,
}
use bsprakt_os.Kprintf.{
  PrintState, number_buffer, kprintf, kprintf_set_pad_width, kprintf_format_and_output_number,
}
use bsprakt_os.Kprintf.Digits.{value, leading_zero}
use bsprakt_os.Kprintf.Number.{
  repeat, sign, base_mark, number_text, kprintf_format_and_output_number-text, number_buffer-fits,
}
use bsprakt_os.Kprintf.Width.{width_of, kprintf_set_pad_width-width_of}
use bsprakt_os.Kprintf.Format.{kprintf-plain}
use bsprakt_os.Tests.Scene.{kernel_with, lists_of, busy, busy-IsStore, busy-IsThreads}

-- The text "Hi 42%!" at address 100.
abbrev text : ℕ → ℕ
text p =
    if p == 100
    then b'H'
    else if p == 101
    then b'i'
    else if p == 102
    then b' '
    else if p == 103
    then b'4'
    else if p == 104
    then b'2'
    else if p == 105
    then b'%'
    else if p == 106
    then b'!'
    else 0

abbrev console : Console
console = record {
  memory = text;
  rounds = 20;
  send_rounds = 3;
  module_color = record { red = 250; green = 198; blue = 158 };
}

-- `%#08x` with the argument at the front.
abbrev state : PrintState
state = record { arguments = λ i. 255; position = 103; zeropad = true; hash = true; pad_width = 8 }

abbrev uart : Uart
uart = (kernel_with busy).uart

number_example :
    (value 16 (b'f' ∷ b'f' ∷ []) ≡ 255)
    × (leading_zero (b'f' ∷ b'f' ∷ []) ≡ (255 == 0))
    × (kprintf_format_and_output_number console 255 16 false state uart ≡ (
        send_all console (number_text (b'f' ∷ b'f' ∷ []) 16 false state) uart >>= λ u'.
        ok (written (length (number_text (b'f' ∷ b'f' ∷ []) 16 false state)), u')))
unfolding kprintf_base_less_eq_16_to_ascii ascii_loop k_to_ascii_hexadecimal_digit
number_example =
    kprintf_format_and_output_number-text console 255 16 false state uart (omega arith)
      (omega arith) (omega arith) (b'f' ∷ b'f' ∷ []) refl (omega arith)

-- 32 binary digits with their mark do not fit.
abbrev ones : List ℕ
ones = repeat 32 b'1'

fits_example :
    (length (number_buffer ones 2 false state) ≤ max_number_print_width)
    ↔ (length ones + length (base_mark true 2) + length (sign false) ≤ max_number_print_width)
fits_example = number_buffer-fits ones 2 false state (omega arith)

width_example : kprintf_set_pad_width 20 text state ≡ ok (width_of 0 (b'4' ∷ b'2' ∷ []) state)
unfolding k_is_ascii_decimal_digit
width_example =
    kprintf_set_pad_width-width_of (b'4' ∷ b'2' ∷ []) 20 text state (refl, (refl, tt))
      (refl, (refl, tt)) refl (omega arith)

plain_example : kprintf (record console { memory = update text 105 0 }) 100 (λ i. 0) uart ≡ (
    send_all
      (record console { memory = update text 105 0 })
      (b'H' ∷ b'i' ∷ b' ' ∷ b'4' ∷ b'2' ∷ [])
      uart
    >>= λ u'. ok (written 5, u'))
plain_example =
    kprintf-plain (b'H' ∷ b'i' ∷ b' ' ∷ b'4' ∷ b'2' ∷ [])
      (record console { memory = update text 105 0 }) 100 (λ i. 0) uart
      (refl, (refl, (refl, (refl, (refl, tt))))) (refl, (refl, (refl, (refl, (refl, tt))))) refl
      (omega arith)

gcd_example :
    (d : ℕ) × (k_gcd (negsuc 11) (pos 18) ≡ pos d)
    × (d ∣ 12)
    × (d ∣ 18)
    × ((k : ℕ) → k ∣ 12 → k ∣ 18 → k ∣ d)
gcd_example = k_gcd-greatest (negsuc 11) (pos 18) refl refl

lcm_example :
    (m : ℕ) × (k_lcm (pos 4) (negsuc 5) ≡ to_long (pos m))
    × (4 ∣ m)
    × (6 ∣ m)
    × ((k : ℕ) → 4 ∣ k → 6 ∣ k → m ∣ k)
lcm_example = k_lcm-least (pos 4) (negsuc 5) refl refl (omega arith)

create_example :
    (f : Fraction) × (g : ℕ) × (k_fraction_create (negsuc 11) (pos 18) ≡ ok f)
    × (f.numerator *ℤ pos g ≡ negsuc 11)
    × (f.denominator *ℤ pos g ≡ pos 18)
    × (gcd (nat_abs f.numerator) (nat_abs f.denominator) ≡ 1)
create_example = k_fraction_create-lowest (negsuc 11) (pos 18) refl refl (omega arith)

-- 2149/1000 times 1000000 overflows.
multiply_example :
    (k_fraction_multiply 1002 (over_pos (pos 2149) 1000) (over_pos (pos 1000000) 1)
      ≡ ok (k_einval, over_pos (pos 2149) 1000))
    ⊎ ((f : Fraction) × (k_fraction_multiply 1002
            (over_pos (pos 2149) 1000)
            (over_pos (pos 1000000) 1)
          ≡ ok (success, f)))
multiply_example =
    k_fraction_multiply-ends 1002 (pos 2149) (pos 1000000) 1000 1 (omega arith) (omega arith)
      (omega arith)

stuck_example :
    k_fraction_add 100
      (record { numerator = pos 1; denominator = long_max })
      (record { numerator = pos 1; denominator = pos 2 })
    ≡ out_of_fuel
stuck_example = k_fraction_add-stuck 100 (pos 1) (pos 1) refl

-- Register 0 holds 7, and the thread with node 20 is stalled.
stall_example :
    (k1 k' : Kernel) × Switched (kernel_with busy) (lists_of busy) 18 [] (16 ∷ []) k1
    × (syscall_stall_thread (timing 10) (kernel_with busy) ≡ ok k')
    × ((k'.blocks 0).stall_until ≡ add32 (systimer_value (reset_timer k1).timer).0 7000)
    × ((other : ℕ) → other ≢ 0 → k'.blocks other ≡ k1.blocks other)
    × IsStore k'.nodes (
        update
          (update (update (lists_of busy) ready_list []) running_list (18 ∷ []))
          stall_waiting_list
          (inserted (scheduler_stall_cmp k'.blocks) 16 (20 ∷ [])))
stall_example =
    syscall_stall_thread-stalled 10 0 (kernel_with busy) (lists_of busy) 18 20 [] [] busy-IsStore
      busy-IsThreads (omega arith) refl refl refl refl (omega arith) (omega arith) (omega arith)

abbrev late : Kernel
late = record (kernel_with busy) {
  timer = record { clo = λ i. 2000000 + i; c1 = 0; c3 = 0; m1 = false; m3 = false };
}

time_example :
    syscall_get_time (timing 10) late
    ≡ ok (set_r0 2000 (record late { timer = (systimer_value late.timer).1 }))
unfolding systimer_value
time_example = syscall_get_time-exact 10 late (omega arith) (omega arith)
