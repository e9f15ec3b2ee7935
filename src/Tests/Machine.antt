-- ===== src/Tests/Machine.antt =====
-- Runs of kernel/lib/kmath.c, kernel/lib/kstring.c and kernel/mmu.c.
use bsprakt_os.Base.{
  ℕ, ◌≡◌, refl, inr, true, false, arith, ok, ◌+◌, ◌*◌, ◌/◌, ◌^◌, ltb, if◌then◌else◌,
}
use bsprakt_os.Strings.{Memory, k_memcpy}
use bsprakt_os.Strings.Copy.{copied, k_memcpy-copied}
use bsprakt_os.Mmu.{
  ap_bits, l1_section_set_base_address, get_ap_bits, get_l1_section, l1_entry_get_type, section,
}
use bsprakt_os.Mmu.Layout.{mib}
use bsprakt_os.Mmu.Init.{read_write, read_exec}
use bsprakt_os.Mmu.Entries.{
  access, decode_ap, section_ap, user_executes, kernel_executes, get_l1_section-decode,
}

bytes : Memory
bytes a = if ltb a 103 then a else 0

memcpy_example :
    (m' : Memory) × (k_memcpy 200 100 5 bytes ≡ ok m') × ((a : ℕ) → m' a ≡ copied 200 100 5 bytes a)
memcpy_example =
    k_memcpy-copied 200 100 5 bytes (ground arith) (inr (ground arith)) (inr (omega arith))

section_example :
    (l1_entry_get_type (2051 + 4 * 2 ^ 20) ≡ ok section)
    × ((2051 + 4 * 2 ^ 20) / 2 ^ 20 * mib ≡ 4 * mib)
    × (decode_ap (section_ap (2051 + 4 * 2 ^ 20)) ≡ access true true true false)
    × (kernel_executes (2051 + 4 * 2 ^ 20) ≡ false)
    × (user_executes (2051 + 4 * 2 ^ 20) ≡ true)
unfolding get_l1_section l1_section_set_base_address get_ap_bits ap_bits
section_example =
    get_l1_section-decode (4 * mib) (2051 + 4 * 2 ^ 20) read_write read_exec (omega arith) refl

-- Other bytes behind the key of fifteen bytes.
other_bytes : Memory
other_bytes a = if ltb a 115 then a else 9
