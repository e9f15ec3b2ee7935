-- ===== src/Mmu/Tables.antt =====
-- What `initialise_l1_table` of kernel/mmu.c leaves in the first level table.
use mathlib.Core.Path.{fun_ext}
use bsprakt_os.Base.{
  ℕ, zero, suc, ◌+◌, ◌-◌, ◌*◌, ◌/◌, ◌%◌, ◌^◌, ◌<◌, ◌≤◌, ◌≡◌, ◌&&◌, leb, ltb, refl, arith,
  if◌then◌else◌, update, List, [], ◌∷◌, Outcome, ok, ◌∙◌, ap, drop,
}
use bsprakt_os.Mmu.{
  l1_section_set_base_address, l2_handle_set_table_address, get_stack_handle, L1Type, fault,
  section, handle, l1_entry_get_type, get_l1_section, get_ap_bits, ap_bits,
}
use bsprakt_os.Mmu.Layout.{
  kib, mib, user_stack_bottom_address, kernel_stack_bottom_address, stack_size, stack_count,
}
use bsprakt_os.Mmu.Init.{
  template_at, fill_section, fill_sections, sections, Range, range, initialise_l1_table,
  l2_stack_table,
}

-- The table with the entries from `lo` to below `hi` written anew.
abbrev pub painted : (lo hi : ℕ) → (ℕ → ℕ) → (ℕ → ℕ) → ℕ → ℕ
painted lo hi f table x = if leb lo x && ltb x hi then f x else table x

fill_section-step :
    (rounds tables m y v : ℕ) (type : L1Type) (table : ℕ → ℕ)
    → l1_entry_get_type y ≡ ok type
    → template_at tables (m * mib) y type ≡ ok v
    → fill_section (suc rounds) tables (m * mib) y table
      ≡ fill_section rounds tables (suc m * mib) v (update table m v)
unfolding fill_section
fill_section-step rounds tables m y v type table a b =
    let c : m * mib + mib ≡ suc m * mib = omega arith in
    let d : m * mib / mib ≡ m = omega arith in rw (a, b, c, d) refl

-- The inner loop, for a template that stays one of its type.
module _ (tables first limit : ℕ) (type : L1Type) (f : ℕ → ℕ) (good : ℕ → Type 0)
    (typed : (y : ℕ) → good y → l1_entry_get_type y ≡ ok type)
    (next : (m y : ℕ)
      → first ≤ m
      → m < limit
      → good y
      → template_at tables (m * mib) y type ≡ ok (f m))
    (kept : (m : ℕ) → good (f m)) where
  fill_section-painted :
      (rounds m y : ℕ) (table : ℕ → ℕ)
      → good y
      → first ≤ m
      → m + rounds ≤ limit
      → fill_section rounds tables (m * mib) y table ≡ ok (painted m (m + rounds) f table)
  unfolding fill_section
  fill_section-painted zero m y table g b l = ap ok (fun_ext (λ x. ground arith))
  fill_section-painted (suc rounds) m y table g b l =
      let ih =
        fill_section-painted rounds (suc m) (f m) (update table m (f m)) (kept m) (omega arith)
          (omega arith) in
      fill_section-step rounds tables m y (f m) type table (typed y g) (next m y b (omega arith) g)
      ∙ ih
      ∙ ap ok (fun_ext (λ x. ground arith))

fill-fault :
    (rounds tables m : ℕ) (table : ℕ → ℕ)
    → fill_section rounds tables (m * mib) 0 table ≡ ok (painted m (m + rounds) (λ x. 0) table)
unfolding template_at l1_entry_get_type
fill-fault rounds tables m table =
    fill_section-painted tables 0 (m + rounds) fault (λ x. 0) (λ y. y ≡ 0)
      (λ y g. ground (arith, g)) (λ m y b l g. ap ok g) (λ m. refl) rounds m 0 table refl
      (omega arith) (omega arith)

-- The low bits of a section.
abbrev IsSectionWord : ℕ → Type 0
IsSectionWord w = (w / 2 % 2 ≡ 1) × (w / 2 ^ 18 % 2 ≡ 0) × (w < 2 ^ 20)

fill-section :
    (rounds tables m w y : ℕ) (table : ℕ → ℕ)
    → IsSectionWord w
    → y % 2 ^ 20 ≡ w
    → m + rounds ≤ 4096
    → fill_section rounds tables (m * mib) y table
      ≡ ok (painted m (m + rounds) (λ x. w + x * 2 ^ 20) table)
unfolding template_at l1_entry_get_type l1_section_set_base_address
fill-section rounds tables m w y table a g l =
    fill_section-painted tables 0 4096 section (λ x. w + x * 2 ^ 20) (λ y. y % 2 ^ 20 ≡ w)
      (λ y g. ground (arith, a, g)) (λ m y b l g. ground (arith, g, l)) (λ m. omega (arith, a))
      rounds m y table g (omega arith) l

-- The handle of the second level table of stack `n`.
abbrev pub stack_handle : ℕ → ℕ → ℕ
stack_handle tables n = 1 + l2_stack_table tables n / kib % 2 ^ 22 * 2 ^ 10

fill-first_stack :
    (rounds tables m : ℕ) (table : ℕ → ℕ)
    → m + rounds ≤ kernel_stack_bottom_address / mib
    → fill_section rounds tables (m * mib) (stack_handle tables 0) table
      ≡ ok (painted m (m + rounds) (λ x. stack_handle tables 0) table)
unfolding template_at l1_entry_get_type
fill-first_stack rounds tables m table l =
    fill_section-painted tables 0 (kernel_stack_bottom_address / mib) handle
      (λ x. stack_handle tables 0) (λ y. y ≡ stack_handle tables 0) (λ y g. ground (arith, g))
      (λ m y b l g. ground (arith, g, l)) (λ m. refl) rounds m (stack_handle tables 0) table refl
      (omega arith) l

fill-kernel_stacks :
    (rounds tables m : ℕ) (table : ℕ → ℕ)
    → tables % kib ≡ 0
    → kernel_stack_bottom_address / mib ≤ m
    → m + rounds ≤ user_stack_bottom_address / mib + stack_count
    → fill_section rounds tables (m * mib) (stack_handle tables 0) table
      ≡ ok (
          painted m
            (m + rounds)
            (λ x. stack_handle tables (x - user_stack_bottom_address / mib))
            table)
unfolding template_at l1_entry_get_type l2_handle_set_table_address
fill-kernel_stacks rounds tables m table a b l =
    fill_section-painted tables (kernel_stack_bottom_address / mib)
      (user_stack_bottom_address / mib + stack_count) handle
      (λ x. stack_handle tables (x - user_stack_bottom_address / mib)) (λ y. y % 2 ^ 10 ≡ 1)
      (λ y g. ground (arith, g))
      (λ m y b l g.
        let d : (m * mib - user_stack_bottom_address) / stack_size
            ≡ m - user_stack_bottom_address / mib =
          omega arith in
        rw d (ground (arith, g, a)))
      (λ m. omega arith) rounds m (stack_handle tables 0) table (omega arith) b l

-- The ranges of `initialise_l1_table`.
abbrev ranges : ℕ → List Range
ranges tables =
    range 0 (1 * mib) 0
    ∷ range (1 * mib) (2 * mib) (33794 + 1 * 2 ^ 20)
    ∷ range (2 * mib) (3 * mib) (33810 + 2 * 2 ^ 20)
    ∷ range (3 * mib) (4 * mib) (1042 + 3 * 2 ^ 20)
    ∷ range (4 * mib) (5 * mib) (2051 + 4 * 2 ^ 20)
    ∷ range (5 * mib) (6 * mib) (35858 + 5 * 2 ^ 20)
    ∷ range (6 * mib) (7 * mib) (3090 + 6 * 2 ^ 20)
    ∷ range (7 * mib) (15 * mib) (1042 + 7 * 2 ^ 20)
    ∷ range (15 * mib) (16 * mib) (33810 + 6 * 2 ^ 20)
    ∷ range (16 * mib) (1008 * mib) 0
    ∷ range (1008 * mib) (1011 * mib) (1042 + 1008 * 2 ^ 20)
    ∷ range (1011 * mib) (86 * mib) 0
    ∷ range (86 * mib) (90 * mib) (stack_handle tables 0)
    ∷ range (90 * mib) (122 * mib) (1042 + 90 * 2 ^ 20)
    ∷ range (122 * mib) (128 * mib) (stack_handle tables 0)
    ∷ []

get_stack_handle-ok :
    (tables : ℕ)
    → tables % kib ≡ 0
    → get_stack_handle (l2_stack_table tables 0) ≡ ok (stack_handle tables 0)
unfolding get_stack_handle l2_handle_set_table_address
get_stack_handle-ok tables a = ground (arith, a)

sections-ranges : (tables : ℕ) → tables % kib ≡ 0 → sections tables ≡ ok (ranges tables)
unfolding sections get_l1_section l1_section_set_base_address get_ap_bits ap_bits
sections-ranges tables a = rw (get_stack_handle-ok tables a) refl

fill_sections-step :
    (tables m n entry : ℕ) (rs : List Range) (table t : ℕ → ℕ) (o : Outcome (ℕ → ℕ))
    → fill_section (n - m) tables (m * mib) entry table ≡ ok t
    → fill_sections tables rs t ≡ o
    → fill_sections tables (range (m * mib) (n * mib) entry ∷ rs) table ≡ o
unfolding fill_sections
fill_sections-step tables m n entry rs table t o a b =
    let c : (n * mib - m * mib + mib - 1) / mib ≡ n - m = omega arith in rw (c, a) b

abbrev drop_ranges : ℕ → ℕ → List Range
drop_ranges n tables = drop n (ranges tables)

-- The table after the loops.
abbrev pub filled : ℕ → (ℕ → ℕ) → ℕ → ℕ
filled tables table =
    painted 122 128 (λ x. stack_handle tables (x - 90))
      (painted 90 122 (λ x. 1042 + x * 2 ^ 20)
        (painted 86 90 (λ x. stack_handle tables 0)
          (painted 1011 1011 (λ x. 0)
            (painted 1008 1011 (λ x. 1042 + x * 2 ^ 20)
              (painted 16 1008 (λ x. 0)
                (painted 15 16 (λ x. 33810 + x * 2 ^ 20)
                  (painted 7 15 (λ x. 1042 + x * 2 ^ 20)
                    (painted 6 7 (λ x. 3090 + x * 2 ^ 20)
                      (painted 5 6 (λ x. 35858 + x * 2 ^ 20)
                        (painted 4 5 (λ x. 2051 + x * 2 ^ 20)
                          (painted 3 4 (λ x. 1042 + x * 2 ^ 20)
                            (painted 2 3 (λ x. 33810 + x * 2 ^ 20)
                              (painted 1 2 (λ x. 33794 + x * 2 ^ 20)
                                (painted 0 1 (λ x. 0) table))))))))))))))

fill_sections-filled :
    (tables : ℕ) (table : ℕ → ℕ)
    → tables % kib ≡ 0
    → fill_sections tables (ranges tables) table ≡ ok (filled tables table)
unfolding fill_sections
fill_sections-filled tables table a =
    let t1 = painted 0 1 (λ x. 0) table in
    let t2 = painted 1 2 (λ x. 33794 + x * 2 ^ 20) t1 in
    let t3 = painted 2 3 (λ x. 33810 + x * 2 ^ 20) t2 in
    let t4 = painted 3 4 (λ x. 1042 + x * 2 ^ 20) t3 in
    let t5 = painted 4 5 (λ x. 2051 + x * 2 ^ 20) t4 in
    let t6 = painted 5 6 (λ x. 35858 + x * 2 ^ 20) t5 in
    let t7 = painted 6 7 (λ x. 3090 + x * 2 ^ 20) t6 in
    let t8 = painted 7 15 (λ x. 1042 + x * 2 ^ 20) t7 in
    let t9 = painted 15 16 (λ x. 33810 + x * 2 ^ 20) t8 in
    let t10 = painted 16 1008 (λ x. 0) t9 in
    let t11 = painted 1008 1011 (λ x. 1042 + x * 2 ^ 20) t10 in
    let t12 = painted 1011 1011 (λ x. 0) t11 in
    let t13 = painted 86 90 (λ x. stack_handle tables 0) t12 in
    let t14 = painted 90 122 (λ x. 1042 + x * 2 ^ 20) t13 in
    let t15 = painted 122 128 (λ x. stack_handle tables (x - 90)) t14 in
    fill_sections-step tables 0 1 0 (drop_ranges 1 tables) table t1 (ok (filled tables table))
      (fill-fault 1 tables 0 table)
      (fill_sections-step tables 1 2 (33794 + 1 * 2 ^ 20) (drop_ranges 2 tables) t1 t2
        (ok (filled tables table))
        (fill-section 1 tables 1 33794 (33794 + 1 * 2 ^ 20) t1 (refl, refl, omega arith) refl
          (omega arith))
        (fill_sections-step tables 2 3 (33810 + 2 * 2 ^ 20) (drop_ranges 3 tables) t2 t3
          (ok (filled tables table))
          (fill-section 1 tables 2 33810 (33810 + 2 * 2 ^ 20) t2 (refl, refl, omega arith) refl
            (omega arith))
          (fill_sections-step tables 3 4 (1042 + 3 * 2 ^ 20) (drop_ranges 4 tables) t3 t4
            (ok (filled tables table))
            (fill-section 1 tables 3 1042 (1042 + 3 * 2 ^ 20) t3 (refl, refl, omega arith) refl
              (omega arith))
            (fill_sections-step tables 4 5 (2051 + 4 * 2 ^ 20) (drop_ranges 5 tables) t4 t5
              (ok (filled tables table))
              (fill-section 1 tables 4 2051 (2051 + 4 * 2 ^ 20) t4 (refl, refl, omega arith) refl
                (omega arith))
              (fill_sections-step tables 5 6 (35858 + 5 * 2 ^ 20) (drop_ranges 6 tables) t5 t6
                (ok (filled tables table))
                (fill-section 1 tables 5 35858 (35858 + 5 * 2 ^ 20) t5 (refl, refl, omega arith)
                  refl (omega arith))
                (fill_sections-step tables 6 7 (3090 + 6 * 2 ^ 20) (drop_ranges 7 tables) t6 t7
                  (ok (filled tables table))
                  (fill-section 1 tables 6 3090 (3090 + 6 * 2 ^ 20) t6 (refl, refl, omega arith)
                    refl (omega arith))
                  (fill_sections-step tables 7 15 (1042 + 7 * 2 ^ 20) (drop_ranges 8 tables) t7 t8
                    (ok (filled tables table))
                    (fill-section 8 tables 7 1042 (1042 + 7 * 2 ^ 20) t7 (refl, refl, omega arith)
                      refl (omega arith))
                    (fill_sections-step tables 15 16 (33810 + 6 * 2 ^ 20) (drop_ranges 9 tables) t8
                      t9 (ok (filled tables table))
                      (fill-section 1 tables 15 33810 (33810 + 6 * 2 ^ 20) t8
                        (refl, refl, omega arith) refl (omega arith))
                      (fill_sections-step tables 16 1008 0 (drop_ranges 10 tables) t9 t10
                        (ok (filled tables table)) (fill-fault 992 tables 16 t9)
                        (fill_sections-step tables 1008 1011 (1042 + 1008 * 2 ^ 20)
                          (drop_ranges 11 tables) t10 t11 (ok (filled tables table))
                          (fill-section 3 tables 1008 1042 (1042 + 1008 * 2 ^ 20) t10
                            (refl, refl, omega arith) refl (omega arith))
                          (fill_sections-step tables 1011 86 0 (drop_ranges 12 tables) t11 t12
                            (ok (filled tables table)) (fill-fault 0 tables 1011 t11)
                            (fill_sections-step tables 86 90 (stack_handle tables 0)
                              (drop_ranges 13 tables) t12 t13 (ok (filled tables table))
                              (fill-first_stack 4 tables 86 t12 (omega arith))
                              (fill_sections-step tables 90 122 (1042 + 90 * 2 ^ 20)
                                (drop_ranges 14 tables) t13 t14 (ok (filled tables table))
                                (fill-section 32 tables 90 1042 (1042 + 90 * 2 ^ 20) t13
                                  (refl, refl, omega arith) refl (omega arith))
                                (fill_sections-step tables 122 128 (stack_handle tables 0)
                                  (drop_ranges 15 tables) t14 t15 (ok (filled tables table))
                                  (fill-kernel_stacks 6 tables 122 t14 a (omega arith)
                                    (omega arith))
                                  (refl)))))))))))))))

-- `initialise_l1_table` ends without a panic, with this table and the original of the user data.
pub initialise_l1_table-filled :
    (tables : ℕ) (table : ℕ → ℕ)
    → tables % kib ≡ 0
    → initialise_l1_table tables table ≡ ok (update (filled tables table) 15 (33810 + 6 * 2 ^ 20))
unfolding initialise_l1_table get_l1_section l1_section_set_base_address get_ap_bits ap_bits
initialise_l1_table-filled tables table a =
    rw (sections-ranges tables a, fill_sections-filled tables table a) refl
