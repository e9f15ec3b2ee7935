-- ===== src/Mmu.antt =====
-- kernel/mmu.c and include/kernel/mmu.h: the entries of the translation tables and the fields of
-- the control registers. A table entry is its 32-bit word; the bit fields of the structures are
-- read and written in it, least significant first, as the compiler for the target lays them out.
pub mod Layout
pub mod Init
pub mod Entries
pub mod Tables
pub mod Map
use bsprakt_os.Base.{
  ℕ, ◌+◌, ◌-◌, ◌*◌, ◌/◌, ◌%◌, ◌^◌, Bool, true, false, not, ◌==◌, ◌&&◌, ltb, leb, if◌then◌else◌,
  Outcome, ok, panic, ◌>>=◌, ◌>>◌, verify,
}
use bsprakt_os.Base.Words.{bit, clear_bit, set_bit}
use bsprakt_os.Mmu.Layout.{kib, mib}

abbrev pub l1_table_size : ℕ
l1_table_size = 0x1000

abbrev pub l2_stack_table_size : ℕ
l2_stack_table_size = 0x100

-- `kpermissions` and `upermissions`: the three bits of each.
pub record Permissions : Type 0 where
  pub read : Bool
  pub write : Bool
  pub exec : Bool

abbrev pub permissions : Bool → Bool → Bool → Permissions
permissions r w x = record { read = r; write = w; exec = x }

-- `domain_mode` and `ttf`
abbrev pub no_access : ℕ
no_access = 0

abbrev pub client : ℕ
client = 1

abbrev pub manager : ℕ
manager = 3

abbrev pub ttf_short : ℕ
ttf_short = 0

-- `SCTRL_bit_offset`
abbrev pub mmu_enable : ℕ
mmu_enable = 0

abbrev pub cache_enable : ℕ
cache_enable = 2

abbrev pub instruction_cache_enable : ℕ
instruction_cache_enable = 12

unfoldable pub dacr_set_domain : ℕ → ℕ → ℕ → Outcome ℕ
dacr_set_domain dacr domain mode = do
  verify (leb domain 15)
  ok (dacr - dacr / 2 ^ (domain * 2) % 4 * 2 ^ (domain * 2) + mode * 2 ^ (domain * 2))

unfoldable pub ttbcr_set_translation_table_format : ℕ → ℕ → ℕ
ttbcr_set_translation_table_format ttbcr format = clear_bit ttbcr 31 + format * 2 ^ 31

unfoldable pub sctrl_deactivate_caches : ℕ → ℕ
sctrl_deactivate_caches sctrl = clear_bit (clear_bit sctrl cache_enable) instruction_cache_enable

unfoldable pub sctrl_activate_mmu : ℕ → ℕ
sctrl_activate_mmu sctrl = set_bit sctrl mmu_enable

unfoldable pub sctrl_deactivate_mmu : ℕ → ℕ
sctrl_deactivate_mmu sctrl = clear_bit sctrl mmu_enable

-- The switch of `get_AP_bits`, on the read and write bits of both sides.
unfoldable pub ap_bits : Bool → Bool → Bool → Bool → Outcome ℕ
ap_bits false false false false = ok 0b000
ap_bits true true false false = ok 0b001
ap_bits true false false false = ok 0b101
ap_bits true false true false = ok 0b111
ap_bits true true true false = ok 0b010
ap_bits true true true true = ok 0b011
ap_bits _ _ _ _ = panic

-- The access permission bits. `KEXEC` and `UEXEC` are masked out.
unfoldable pub get_ap_bits : Permissions → Permissions → Outcome ℕ
get_ap_bits kp up = ap_bits kp.read kp.write up.read up.write

-- `l1_section`: bits 0 PXN, 1 pad1_set, 4 XN, 10-11 AP1_0, 15 AP2, 18 pad0_unset, 20-31
-- base_address. `l2_handle`: bits 0 pad1_set, 1 pad0_unset, 10-31 base_address.
unfoldable pub l1_section_set_base_address : ℕ → ℕ → Outcome ℕ
l1_section_set_base_address entry base_address = do
  verify (base_address % mib == 0)
  ok (entry % 2 ^ 20 + base_address / mib % 2 ^ 12 * 2 ^ 20)

unfoldable pub l2_handle_set_table_address : ℕ → ℕ → Outcome ℕ
l2_handle_set_table_address handle table_address = do
  verify (table_address % kib == 0)
  ok (handle % 2 ^ 10 + table_address / kib % 2 ^ 22 * 2 ^ 10)

unfoldable pub get_stack_handle : ℕ → Outcome ℕ
get_stack_handle l2_table_address = l2_handle_set_table_address 1 l2_table_address

-- An executable range is made readable.
abbrev pub readable : Permissions → Permissions
readable p = if p.exec && not p.read then record p { read = true } else p

-- PXN and XN of a section.
abbrev pub section_never : Permissions → Permissions → ℕ
section_never kp up = if kp.exec then 0 else if up.exec then 1 else 2 ^ 4

unfoldable pub get_l1_section : ℕ → Permissions → Permissions → Outcome ℕ
get_l1_section physical_base kp up = do
  entry ← l1_section_set_base_address 2 physical_base
  ap ← get_ap_bits (readable kp) (readable up)
  ok (entry + section_never (readable kp) (readable up) + ap / 4 * 2 ^ 15 + ap % 4 * 2 ^ 10)

abbrev pub get_l1_guard_page : ℕ
get_l1_guard_page = 0

-- `l2_small_page`: bits 0 XN, 1 pad0_set, 4-5 AP1_0, 9 AP2, 12-31 base_address.
unfoldable pub get_l2_small_page : ℕ → Permissions → Permissions → Outcome ℕ
get_l2_small_page physical_base kp up = do
  verify (physical_base % (4 * kib) == 0)
  ap ← get_ap_bits (readable kp) (readable up)
  let never = (if kp.exec then 0 else if up.exec then 0 else 1)
  ok (2 + physical_base / (4 * kib) % 2 ^ 20 * 2 ^ 12 + never + ap / 4 * 2 ^ 9 + ap % 4 * 2 ^ 4)

abbrev pub get_l2_guard_page : ℕ
get_l2_guard_page = 0

-- `l1_type`
pub data L1Type : Type 0 where
  fault section handle : L1Type

unfoldable pub l1_entry_is_section : ℕ → Bool
l1_entry_is_section e = bit e 1 == 1 && not (bit e 18 == 1)

unfoldable pub l1_entry_get_type : ℕ → Outcome L1Type
l1_entry_get_type e =
    if bit e 1 == 0 && bit e 0 == 0
    then ok fault
    else if bit e 1 == 1 && bit e 18 == 0
    then ok section
    else if bit e 0 == 1 && bit e 1 == 0
    then ok handle
    else panic
