-- ===== src/Mmu/Init.antt =====
-- kernel/mmu.c: the loops that fill the translation tables. `tables` is the address of the array
-- of second level tables, which the linker places.
use bsprakt_os.Base.{
  ℕ, zero, suc, ◌+◌, ◌-◌, ◌*◌, ◌/◌, true, false, ltb, if◌then◌else◌, update, List, [], ◌∷◌, Outcome,
  ok, ◌>>=◌, ◌>>◌, verify,
}
use bsprakt_os.Mmu.{
  Permissions, permissions, get_l1_section, get_l1_guard_page, get_l2_small_page, get_l2_guard_page,
  get_stack_handle, L1Type, fault, section, handle, l1_entry_get_type, l1_section_set_base_address,
  l2_handle_set_table_address, l2_stack_table_size,
}
use bsprakt_os.Mmu.Layout.{
  bss_data_section_start_address, init_text_section_start_address, kernel_stack_bottom_address,
  kernel_stack_count, kib, memory_top_address, mib, mmio_devices_start_address,
  rodata_section_start_address, stack_count, stack_size, ubss_udata_kernel_map_start_address,
  ubss_udata_kernel_original_map_start_address, ubss_udata_section_start_address,
  unassigned0_start_address, unassigned1_start_address, unassigned2_start_address,
  urodata_section_start_address, user_stack_bottom_address, user_stack_count,
  user_stack_kernel_only_mapping_start_address, utext_section_start_address,
  virtual_process_stacks_bottom_address,
}

abbrev pub no_permissions : Permissions
no_permissions = permissions false false false

abbrev pub read : Permissions
read = permissions true false false

abbrev pub read_write : Permissions
read_write = permissions true true false

abbrev pub read_exec : Permissions
read_exec = permissions true false true

abbrev pub L2Tables : Type 0
L2Tables = ℕ → ℕ → ℕ

-- The inner loop of `initialise_l2_stack_tables`, with the rounds left.
unfoldable pub fill_stack_table : (rounds j base : ℕ) → Permissions → (ℕ → ℕ) → Outcome (ℕ → ℕ)
fill_stack_table zero j base up table = ok table
fill_stack_table (suc rounds) j base up table = do
  page ← get_l2_small_page (base + j * 4 * kib) read_write up
  fill_stack_table rounds (j + 1) base up (update table j page)

-- An outer loop: the stacks from `bottom` on fill the tables from `offset` on.
unfoldable pub fill_stack_tables :
    (rounds i offset bottom : ℕ) → Permissions → L2Tables → Outcome L2Tables
fill_stack_tables zero i offset bottom up tables = ok tables
fill_stack_tables (suc rounds) i offset bottom up tables = do
  table ←
      fill_stack_table (l2_stack_table_size - 1) 1 (bottom + i * stack_size) up
        (update (tables (offset + i)) 0 get_l2_guard_page)
  fill_stack_tables rounds (i + 1) offset bottom up (update tables (offset + i) table)

unfoldable pub initialise_l2_stack_tables : L2Tables → Outcome L2Tables
initialise_l2_stack_tables tables = do
  tables' ← fill_stack_tables user_stack_count 0 0 user_stack_bottom_address read_write tables
  fill_stack_tables kernel_stack_count 0 user_stack_count kernel_stack_bottom_address no_permissions
      tables'

-- The address of the second level table of stack `n`, of 256 words.
abbrev pub l2_stack_table : (tables n : ℕ) → ℕ
l2_stack_table tables n = tables + n * kib

unfoldable pub get_nth_stack_handle : (tables n : ℕ) → Outcome ℕ
get_nth_stack_handle tables n = get_stack_handle (l2_stack_table tables n)

-- The switch in the inner loop of `initialise_l1_table`: the template at address `j`.
unfoldable pub template_at : (tables j template : ℕ) → L1Type → Outcome ℕ
template_at tables j template fault = ok template
template_at tables j template section = l1_section_set_base_address template j
template_at tables j template handle =
    let own = (do
      let stack_index = (j - user_stack_bottom_address) / stack_size
      verify (ltb stack_index stack_count)
      l2_handle_set_table_address template (l2_stack_table tables stack_index)) in
    if ltb j kernel_stack_bottom_address then ok template else own

-- The inner loop, with the rounds left.
unfoldable pub fill_section : (rounds tables j template : ℕ) → (ℕ → ℕ) → Outcome (ℕ → ℕ)
fill_section zero tables j template table = ok table
fill_section (suc rounds) tables j template table = do
  type ← l1_entry_get_type template
  template' ← template_at tables j template type
  fill_section rounds tables (j + mib) template' (update table (j / mib) template')

-- One range of `initialise_l1_table`: from its start to that of the next, and the entry.
pub record Range : Type 0 where
  pub start : ℕ
  pub end : ℕ
  pub entry : ℕ

unfoldable pub fill_sections : ℕ → List Range → (ℕ → ℕ) → Outcome (ℕ → ℕ)
fill_sections tables [] table = ok table
fill_sections tables (r ∷ rs) table = do
  table' ← fill_section ((r.end - r.start + mib - 1) / mib) tables r.start r.entry table
  fill_sections tables rs table'

abbrev pub range : (start end entry : ℕ) → Range
range s e x = record { start = s; end = e; entry = x }

-- The arrays `address_range_starts` and `sections`.
unfoldable pub sections : ℕ → Outcome (List Range)
sections tables = do
  text ← get_l1_section init_text_section_start_address read_exec no_permissions
  rodata ← get_l1_section rodata_section_start_address read no_permissions
  kdata ← get_l1_section bss_data_section_start_address read_write no_permissions
  utext ← get_l1_section utext_section_start_address read_write read_exec
  urodata ← get_l1_section urodata_section_start_address read read
  udata ← get_l1_section ubss_udata_section_start_address read_write read_write
  kernel_map ← get_l1_section ubss_udata_kernel_map_start_address read_write no_permissions
  original ← get_l1_section ubss_udata_section_start_address read no_permissions
  mmio ← get_l1_section mmio_devices_start_address read_write no_permissions
  stack ← get_stack_handle (l2_stack_table tables 0)
  user_stacks ←
      get_l1_section user_stack_kernel_only_mapping_start_address read_write no_permissions
  ok (
      range unassigned0_start_address init_text_section_start_address get_l1_guard_page
      ∷ range init_text_section_start_address rodata_section_start_address text
      ∷ range rodata_section_start_address bss_data_section_start_address rodata
      ∷ range bss_data_section_start_address utext_section_start_address kdata
      ∷ range utext_section_start_address urodata_section_start_address utext
      ∷ range urodata_section_start_address ubss_udata_section_start_address urodata
      ∷ range ubss_udata_section_start_address ubss_udata_kernel_map_start_address udata
      ∷ range ubss_udata_kernel_map_start_address ubss_udata_kernel_original_map_start_address
          kernel_map
      ∷ range ubss_udata_kernel_original_map_start_address unassigned1_start_address original
      ∷ range unassigned1_start_address mmio_devices_start_address get_l1_guard_page
      ∷ range mmio_devices_start_address unassigned2_start_address mmio
      ∷ range unassigned2_start_address virtual_process_stacks_bottom_address get_l1_guard_page
      ∷ range virtual_process_stacks_bottom_address user_stack_kernel_only_mapping_start_address
          stack
      ∷ range user_stack_kernel_only_mapping_start_address kernel_stack_bottom_address user_stacks
      ∷ range kernel_stack_bottom_address memory_top_address stack
      ∷ [])

unfoldable pub initialise_l1_table : ℕ → (ℕ → ℕ) → Outcome (ℕ → ℕ)
initialise_l1_table tables table = do
  ranges ← sections tables
  table' ← fill_sections tables ranges table
  original ← get_l1_section ubss_udata_section_start_address read no_permissions
  ok (update table' (ubss_udata_kernel_original_map_start_address / mib) original)
