-- ===== src/Mmu/Map.antt =====
-- The memory map that `initialise_l1_table` of kernel/mmu.c sets up: who may do what where.
use bsprakt_os.Base.{
  ℕ, ◌+◌, ◌-◌, ◌*◌, ◌/◌, ◌^◌, ◌≡◌, Bool, true, ◌&&◌, ◌||◌, ◌==◌, leb, ltb, if◌then◌else◌, update,
}
use bsprakt_os.Mmu.{l1_entry_is_section}
use bsprakt_os.Mmu.Entries.{section_ap, decode_ap, executable, user_executes, kernel_executes}
use bsprakt_os.Mmu.Tables.{filled, stack_handle}

-- The table by its index, which counts megabytes: a section's base address is its own index, but
-- for the original of the user data at 15, which lies at 6.
pub record IsKernelMap (tables : ℕ) (t : ℕ → ℕ) : Type 0 where
  pub base : (m : ℕ) → l1_entry_is_section (t m) ≡ true → t m / 2 ^ 20 ≡ (if m == 15 then 6 else m)
  pub user_writes :
      (m : ℕ)
      → l1_entry_is_section (t m) ≡ true
      → (decode_ap (section_ap (t m))).user_writes ≡ (m == 6)
  pub user_reads :
      (m : ℕ)
      → l1_entry_is_section (t m) ≡ true
      → (decode_ap (section_ap (t m))).user_reads ≡ (leb 4 m && leb m 6)
  pub kernel_executes_only :
      (m : ℕ) → l1_entry_is_section (t m) ≡ true → kernel_executes (t m) ≡ (m == 1)
  pub executable :
      (m : ℕ) → l1_entry_is_section (t m) ≡ true → executable (t m) ≡ (m == 1 || m == 4)
  pub user_executes_only :
      (m : ℕ) → l1_entry_is_section (t m) ≡ true → user_executes (t m) ≡ (m == 4)
  pub guards : (m : ℕ) → (m == 0) || (leb 16 m && ltb m 86) || leb 1011 m ≡ true → t m ≡ 0
  pub process_stacks : (m : ℕ) → leb 86 m && ltb m 90 ≡ true → t m ≡ stack_handle tables 0
  pub kernel_stacks : (m : ℕ) → leb 122 m && ltb m 128 ≡ true → t m ≡ stack_handle tables (m - 90)

abbrev done : ℕ → (ℕ → ℕ) → ℕ → ℕ
done tables table = update (filled tables table) 15 (33810 + 6 * 2 ^ 20)

-- The indices of sections, and the low bits of each.
abbrev is_mapped : ℕ → Bool
is_mapped m = leb 1 m && ltb m 16 || leb 90 m && ltb m 122 || leb 1008 m && ltb m 1011

abbrev word_at : ℕ → ℕ
word_at m =
    if m == 1
    then 33794
    else if m == 2 || m == 15
    then 33810
    else if m == 4
    then 2051
    else if m == 5
    then 35858
    else if m == 6
    then 3090
    else 1042

abbrev base_at : ℕ → ℕ
base_at m = if m == 15 then 6 else m

user_writes_of : ℕ → Bool
user_writes_of w = (decode_ap (section_ap w)).user_writes

user_reads_of : ℕ → Bool
user_reads_of w = (decode_ap (section_ap w)).user_reads

kernel_executes_of : ℕ → Bool
kernel_executes_of w = kernel_executes w

executable_of : ℕ → Bool
executable_of w = executable w

user_executes_of : ℕ → Bool
user_executes_of w = user_executes w
