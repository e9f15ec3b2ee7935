-- ===== src/Kprintf/Format.antt =====
-- kernel/lib/kprintf.c: how the text of a format is read.
use bsprakt_os.Base.{
  ℕ, suc, ◌+◌, ◌-◌, ◌<◌, ◌≡◌, refl, ap, sym, ◌∙◌, ◌==◌, not, if◌then◌else◌, ◌&&◌, Bool, true, false,
  List, [], ◌∷◌, length, Outcome, ok, ◌>>=◌, arith, bind_assoc, bind_congr,
}
use native.Mathlib.Nat.{zero-add, add-zero, suc-add}
use bsprakt_os.Pl001.{Uart}
use bsprakt_os.Ascii.{k_is_ascii_decimal_digit}
use bsprakt_os.Console.{
  Console, Written, written, send, send_all, dangling_message, specifier_message,
}
use bsprakt_os.Kprintf.{PrintState, advance, print_loop, kprintf, kprintf_initialize_state}
use bsprakt_os.Kprintf.Width.{Holds, All, moved, shift}

-- A character that `kprintf` sends as it is.
abbrev pub is_plain : ℕ → Bool
is_plain ch = not (ch == 0) && not (ch == b'%')

not-zero : (ch : ℕ) → is_plain ch ≡ true → (ch == 0) ≡ false
not-zero ch h = ground arith

not-percent : (ch : ℕ) → is_plain ch ≡ true → (ch == b'%') ≡ false
not-percent ch h = ground arith

print_loop-char :
    (fuel n ch : ℕ) (c : Console) (state : PrintState) (u : Uart)
    → is_plain ch ≡ true
    → c.memory state.position ≡ ch
    → print_loop (suc fuel) c n state u
      ≡ (send c ch u >>= λ u'. print_loop fuel c (n + 1) (advance state) u')
unfolding print_loop
print_loop-char fuel n ch c state u a h = rw (h, not-zero ch a, not-percent ch a) refl

-- What `print_loop` goes on with behind a text.
abbrev goes_on :
    ℕ → Console → ℕ → PrintState → List ℕ → Uart → Outcome (Written × PrintState × Uart)
goes_on fuel c n state text u = print_loop fuel c (n + length text) (moved (length text) state) u

print_loop-plain :
    (text : List ℕ) (fuel n : ℕ) (c : Console) (state : PrintState) (u : Uart)
    → All is_plain text
    → Holds c.memory state.position text
    → print_loop (length text + fuel) c n state u
      ≡ (send_all c text u >>= goes_on fuel c n state text)
print_loop-plain [] fuel n c state u a h = rw (zero-add, add-zero, add-zero) refl
print_loop-plain (ch ∷ text) fuel n c state u a h =
    rw (suc-add (length text) fuel, print_loop-char (length text + fuel) n ch c state u a.0 h.0)
      (bind_congr (send c ch u) _ _ (λ u'.
          print_loop-plain text fuel (n + 1) c (advance state) u' a.1 h.1
          ∙ bind_congr (send_all c text u') _ _
              (λ v. rw (shift n (length text), shift state.position (length text)) refl))
        ∙ sym (bind_assoc (send c ch u) (send_all c text) (goes_on fuel c n state (ch ∷ text))))

print_loop-end :
    (fuel n : ℕ) (c : Console) (state : PrintState) (u : Uart)
    → c.memory state.position ≡ 0
    → print_loop (suc fuel) c n state u ≡ ok (written n, state, u)
unfolding print_loop
print_loop-end fuel n c state u h = rw h refl

abbrev returned : Outcome (Written × PrintState × Uart) → Outcome (Written × Uart)
returned o = o >>= λ r. ok (r.0, r.2)

-- The rounds that a text leaves.
spare : (n rounds : ℕ) → n < rounds → n + suc (rounds - suc n) ≡ rounds
spare n rounds h = omega arith

-- `kprintf` up to the end of a text without percent signs.
kprintf-text :
    (text : List ℕ) (c : Console) (format : ℕ) (arguments : ℕ → ℕ) (u : Uart)
    → All is_plain text
    → Holds c.memory format text
    → length text < c.rounds
    → kprintf c format arguments u ≡ (
        send_all c text u >>= λ u'. returned (
          goes_on
            (suc (c.rounds - suc (length text)))
            c
            0
            (kprintf_initialize_state arguments format)
            text
            u'))
unfolding kprintf kprintf_initialize_state
kprintf-text text c format arguments u a h f =
    ap (λ fuel. returned (print_loop fuel c 0 (kprintf_initialize_state arguments format) u))
      (sym (spare (length text) c.rounds f))
    ∙ ap returned (
        print_loop-plain text (suc (c.rounds - suc (length text))) 0 c
          (kprintf_initialize_state arguments format) u a h)
    ∙ bind_assoc (send_all c text u) _ _

-- A format without a percent sign is sent as it is, and its length is returned.
pub kprintf-plain :
    (text : List ℕ) (c : Console) (format : ℕ) (arguments : ℕ → ℕ) (u : Uart)
    → All is_plain text
    → Holds c.memory format text
    → c.memory (format + length text) ≡ 0
    → length text < c.rounds
    → kprintf c format arguments u ≡ (send_all c text u >>= λ u'. ok (written (length text), u'))
unfolding kprintf_initialize_state
kprintf-plain text c format arguments u a h e f =
    kprintf-text text c format arguments u a h f
    ∙ bind_congr (send_all c text u) _ _ (λ u'.
      ap returned (print_loop-end (c.rounds - suc (length text)) (0 + length text) c _ u' e)
      ∙ rw zero-add refl)

-- A character that `kprintf` knows neither as a flag, nor as part of a width, nor as a specifier.
abbrev pub is_unknown : ℕ → Bool
is_unknown ch =
    not (k_is_ascii_decimal_digit ch)
    && (not (ch == b'#')
        && (not (ch == b'%')
            && (not (ch == b'c')
                && (not (ch == b's')
                    && (not (ch == b'b')
                        && (not (ch == b'x')
                            && (not (ch == b'p') && (not (ch == b'u') && not (ch == b'i')))))))))

-- The text of the warning about such a character.
abbrev pub complaint : ℕ → List ℕ
complaint ch = if ch == 0 then dangling_message else specifier_message ch
