-- ===== src/Mmu/Layout.antt =====
-- include/arch/bsp/memory_map.h and memory_sizes.h: where everything lies.
use bsprakt_os.Base.{ℕ, ◌+◌, ◌-◌, ◌*◌}

abbrev pub kib : ℕ
kib = 1024

abbrev pub mib : ℕ
mib = kib * kib

abbrev pub memory_top_address : ℕ
memory_top_address = 128 * mib

abbrev pub distinct_sections_count : ℕ
distinct_sections_count = 15

abbrev pub unassigned0_start_address : ℕ
unassigned0_start_address = 0

abbrev pub init_text_section_start_address : ℕ
init_text_section_start_address = 1 * mib

abbrev pub rodata_section_start_address : ℕ
rodata_section_start_address = 2 * mib

abbrev pub bss_data_section_start_address : ℕ
bss_data_section_start_address = 3 * mib

abbrev pub utext_section_start_address : ℕ
utext_section_start_address = 4 * mib

abbrev pub urodata_section_start_address : ℕ
urodata_section_start_address = 5 * mib

abbrev pub ubss_udata_section_start_address : ℕ
ubss_udata_section_start_address = 6 * mib

abbrev pub ubss_udata_kernel_map_start_address : ℕ
ubss_udata_kernel_map_start_address = 7 * mib

abbrev pub ubss_udata_kernel_original_map_start_address : ℕ
ubss_udata_kernel_original_map_start_address = 15 * mib

abbrev pub unassigned1_start_address : ℕ
unassigned1_start_address = 16 * mib

abbrev pub mmio_devices_start_address : ℕ
mmio_devices_start_address = 0x3f0 * mib

abbrev pub unassigned2_start_address : ℕ
unassigned2_start_address = 0x3f3 * mib

abbrev pub stack_size : ℕ
stack_size = 1 * mib

abbrev pub user_stack_count : ℕ
user_stack_count = 32

abbrev pub kernel_stack_count : ℕ
kernel_stack_count = 6

abbrev pub stack_count : ℕ
stack_count = user_stack_count + kernel_stack_count

abbrev pub kernel_stack_top_address : ℕ
kernel_stack_top_address = memory_top_address

abbrev pub kernel_stack_bottom_address : ℕ
kernel_stack_bottom_address = kernel_stack_top_address - kernel_stack_count * stack_size

abbrev pub user_stack_top_address : ℕ
user_stack_top_address = kernel_stack_bottom_address

abbrev pub user_stack_bottom_address : ℕ
user_stack_bottom_address = user_stack_top_address - user_stack_count * stack_size

abbrev pub virtual_process_stacks_top_address : ℕ
virtual_process_stacks_top_address = user_stack_bottom_address

abbrev pub virtual_process_stacks_bottom_address : ℕ
virtual_process_stacks_bottom_address = user_stack_bottom_address - 4 * mib

abbrev pub user_stack_kernel_only_mapping_start_address : ℕ
user_stack_kernel_only_mapping_start_address = user_stack_bottom_address

abbrev pub idle_thread_sp : ℕ
idle_thread_sp = kernel_stack_top_address - stack_size * 5
