-- ===== src/Faults.antt =====
-- arch/cpu/ifsr.c, arch/cpu/dfsr.c and arch/cpu/psr.c: the names that the dumps print for status
-- words. A name is a constructor in place of its text.
pub mod Names
use bsprakt_os.Base.{ℕ, ◌+◌, ◌*◌, ◌/◌, ◌%◌, ◌^◌, ◌==◌, if◌then◌else◌, Outcome, ok, panic}
use bsprakt_os.Base.Words.{bit}

-- The cases of `get_prefetch_abort_error_type`, by `isfr_fault_status`.
pub data PrefetchFault : Type 0 where
  pc_alignment_fault debug_exception access_flag_fault_level_1 translation_fault_level_1 :
      PrefetchFault
  access_flag_fault_level_2 translation_fault_level_2 : PrefetchFault
  synchronous_external_abort_not_on_translation_table_walk : PrefetchFault
  domain_fault_level_1 domain_fault_level_2 : PrefetchFault
  synchronous_external_abort_on_translation_table_walk_level_1 permission_fault_level_1 :
      PrefetchFault
  synchronous_external_abort_on_translation_table_walk_level_2 permission_fault_level_2 :
      PrefetchFault
  tlb_conflict_abort lockdown_fault parity_on_memory_access : PrefetchFault
  parity_on_translation_table_walk_level_1 parity_on_translation_table_walk_level_2 : PrefetchFault

unfoldable pub prefetch_fault : ℕ → Outcome PrefetchFault
prefetch_fault n =
    if n == 0x1
    then ok pc_alignment_fault
    else if n == 0x2
    then ok debug_exception
    else if n == 0x3
    then ok access_flag_fault_level_1
    else if n == 0x5
    then ok translation_fault_level_1
    else if n == 0x6
    then ok access_flag_fault_level_2
    else if n == 0x7
    then ok translation_fault_level_2
    else if n == 0x8
    then ok synchronous_external_abort_not_on_translation_table_walk
    else if n == 0x9
    then ok domain_fault_level_1
    else if n == 0xb
    then ok domain_fault_level_2
    else if n == 0xc
    then ok synchronous_external_abort_on_translation_table_walk_level_1
    else if n == 0xd
    then ok permission_fault_level_1
    else if n == 0xe
    then ok synchronous_external_abort_on_translation_table_walk_level_2
    else if n == 0xf
    then ok permission_fault_level_2
    else if n == 0x10
    then ok tlb_conflict_abort
    else if n == 0x14
    then ok lockdown_fault
    else if n == 0x19
    then ok parity_on_memory_access
    else if n == 0x1c
    then ok parity_on_translation_table_walk_level_1
    else if n == 0x1e
    then ok parity_on_translation_table_walk_level_2
    else panic

-- The switch is on (ifsr & ifsr_FS4) << 4 | (ifsr & ifsr_FS0_3), where ifsr_FS4 is bit 10.
unfoldable pub get_prefetch_abort_error_type : ℕ → Outcome PrefetchFault
get_prefetch_abort_error_type ifsr = prefetch_fault (bit ifsr 10 * 2 ^ 10 * 2 ^ 4 + ifsr % 16)

-- The cases of `get_data_abort_error_type`, by `dfsr_status_bits`.
pub data DataFault : Type 0 where
  alignment_fault instruction_cache_maintenance_fault : DataFault
  external_abort_1st_level_translation external_abort_2nd_level_translation : DataFault
  section_translation_fault page_translation_fault section_access_flag_fault : DataFault
  page_access_flag_fault section_domain_fault page_domain_fault : DataFault
  section_permission_fault page_permission_fault nontranslation_external_abort debug_event :
      DataFault

unfoldable pub get_data_abort_error_type : ℕ → Outcome DataFault
get_data_abort_error_type dfsr =
    let n = dfsr % 16 in
    if n == 0x1
    then ok alignment_fault
    else if n == 0x4
    then ok instruction_cache_maintenance_fault
    else if n == 0xc
    then ok external_abort_1st_level_translation
    else if n == 0xe
    then ok external_abort_2nd_level_translation
    else if n == 0x5
    then ok section_translation_fault
    else if n == 0x7
    then ok page_translation_fault
    else if n == 0x3
    then ok section_access_flag_fault
    else if n == 0x6
    then ok page_access_flag_fault
    else if n == 0x9
    then ok section_domain_fault
    else if n == 0xb
    then ok page_domain_fault
    else if n == 0xd
    then ok section_permission_fault
    else if n == 0xf
    then ok page_permission_fault
    else if n == 0x8
    then ok nontranslation_external_abort
    else if n == 0x2
    then ok debug_event
    else panic

-- `lesend` and `schreibend`
pub data DataAccess : Type 0 where
  reading writing : DataAccess

-- The switch is on dfsr & dfsr_WnR, where dfsr_WnR is bit 11, with the cases 0 and 1.
unfoldable pub get_data_abort_access_type : ℕ → Outcome DataAccess
get_data_abort_access_type dfsr =
    let n = bit dfsr 11 * 2 ^ 11 in
    if n == 0x0 then ok reading else if n == 0x1 then ok writing else panic

-- The cases of `get_mode_name`, by `psr_mode_bits`.
pub data Mode : Type 0 where
  user irq supervisor abort undefined_mode system not_initialized : Mode

unfoldable pub get_mode_name : ℕ → Outcome Mode
get_mode_name psr =
    let n = psr % 32 in
    if n == 0x10
    then ok user
    else if n == 0x12
    then ok irq
    else if n == 0x13
    then ok supervisor
    else if n == 0x17
    then ok abort
    else if n == 0x1b
    then ok undefined_mode
    else if n == 0x1f
    then ok system
    else if n == 0x0
    then ok not_initialized
    else panic
