-- ===== src/Mmu/Entries.antt =====
-- What the entries of kernel/mmu.c mean to the memory management unit.
use bsprakt_os.Base.{
  ◌⊎◌, inl, inr, ℕ, ◌+◌, ◌*◌, ◌/◌, ◌%◌, ◌^◌, ◌<◌, ◌≡◌, Bool, true, false, not, ◌&&◌, ◌||◌, ◌==◌,
  refl, arith, if◌then◌else◌, Outcome, ok, bind-ok, Bool-cases, ap, ◌∙◌, subst, sym,
}
use bsprakt_os.Base.Words.{bit}
use bsprakt_os.Mmu.{
  l1_section_set_base_address, Permissions, ap_bits, get_ap_bits, get_l1_section, l1_entry_get_type,
  section, readable, section_never,
}
use bsprakt_os.Mmu.Layout.{mib}

-- The accesses that the three access permission bits allow, as the architecture defines them: read
-- and write for the kernel, read and write for the user.
pub record Access : Type 0 where
  pub kernel_reads : Bool
  pub kernel_writes : Bool
  pub user_reads : Bool
  pub user_writes : Bool

abbrev pub access : Bool → Bool → Bool → Bool → Access
access a b c d = record { kernel_reads = a; kernel_writes = b; user_reads = c; user_writes = d }

abbrev pub decode_ap : ℕ → Access
decode_ap ap =
    if ap == 1
    then access true true false false
    else if ap == 2
    then access true true true false
    else if ap == 3
    then access true true true true
    else if ap == 5
    then access true false false false
    else if ap == 7
    then access true false true false
    else access false false false false

-- The fields of a section and of a small page.
abbrev pub section_ap : ℕ → ℕ
section_ap e = bit e 15 * 4 + e / 2 ^ 10 % 4

abbrev pub page_ap : ℕ → ℕ
page_ap e = bit e 9 * 4 + e / 2 ^ 4 % 4

ap_bits-decode :
    (a b c d : Bool) (ap : ℕ) → ap_bits a b c d ≡ ok ap → (decode_ap ap ≡ access a b c d) × (ap < 8)
unfolding ap_bits
ap_bits-decode false false false false ap e = ground (arith, e)
ap_bits-decode true false false false ap e = ground (arith, e)
ap_bits-decode true true false false ap e = ground (arith, e)
ap_bits-decode true false true false ap e = ground (arith, e)
ap_bits-decode true true true false ap e = ground (arith, e)
ap_bits-decode true true true true ap e = ground (arith, e)
ap_bits-decode false false true c ap e = cc
ap_bits-decode false false false true ap e = cc
ap_bits-decode false true b c ap e = cc
ap_bits-decode true false false true ap e = cc
ap_bits-decode true false true true ap e = cc
ap_bits-decode true true false true ap e = cc

-- Where `get_AP_bits` returns, its bits allow exactly the reads and writes that were asked for.
pub get_ap_bits-decode :
    (kp up : Permissions) (ap : ℕ)
    → get_ap_bits kp up ≡ ok ap
    → (decode_ap ap ≡ access kp.read kp.write up.read up.write) × (ap < 8)
unfolding get_ap_bits
get_ap_bits-decode kp up ap e = ap_bits-decode kp.read kp.write up.read up.write ap e

section_word : (q never ap : ℕ) → ℕ
section_word q never ap = 2 + q * 2 ^ 20 + never + ap / 4 * 2 ^ 15 + ap % 4 * 2 ^ 10

section_word-fields :
    (q never ap : ℕ)
    → ap < 8
    → (never ≡ 0) ⊎ (never ≡ 1) ⊎ (never ≡ 16)
    → (section_word q never ap / 2 ^ 20 ≡ q)
      × (section_ap (section_word q never ap) ≡ ap)
      × (bit (section_word q never ap) 1 ≡ 1)
      × (bit (section_word q never ap) 18 ≡ 0)
      × (bit (section_word q never ap) 0 + bit (section_word q never ap) 4 * 16 ≡ never)
unfolding section_word
section_word-fields q never ap a (inl n) =
    (omega arith, omega arith, omega arith, omega arith, omega arith)
section_word-fields q never ap a (inr (inl n)) =
    (omega arith, omega arith, omega arith, omega arith, omega arith)
section_word-fields q never ap a (inr (inr n)) =
    (omega arith, omega arith, omega arith, omega arith, omega arith)

-- The XN bit of a section forbids all execution, the PXN bit that by the kernel.
abbrev pub executable : ℕ → Bool
executable e = bit e 4 == 0

abbrev privileged_executable : ℕ → Bool
privileged_executable e = bit e 4 == 0 && bit e 0 == 0

-- A fetch also needs the permission to read.
abbrev pub user_executes : ℕ → Bool
user_executes e = executable e && (decode_ap (section_ap e)).user_reads

abbrev pub kernel_executes : ℕ → Bool
kernel_executes e = privileged_executable e && (decode_ap (section_ap e)).kernel_reads

set_base-ok :
    (entry b e : ℕ)
    → l1_section_set_base_address entry b ≡ ok e
    → (b % mib ≡ 0) × (e ≡ entry % 2 ^ 20 + b / mib % 2 ^ 12 * 2 ^ 20)
unfolding l1_section_set_base_address
set_base-ok entry b e h = ground (arith, h)

never_of : Bool → Bool → ℕ
never_of k u = if k then 0 else if u then 1 else 2 ^ 4

never_cases : (k u : Bool) → (never_of k u ≡ 0) ⊎ (never_of k u ≡ 1) ⊎ (never_of k u ≡ 16)
unfolding never_of
never_cases true u = inl refl
never_cases false true = inr (inl refl)
never_cases false false = inr (inr refl)

-- The bits of a word made from its parts.
section_word-decode :
    (q ap : ℕ) (k u : Bool)
    → ap < 8
    → let e = section_word q (never_of k u) ap in
      (l1_entry_get_type e ≡ ok section)
      × (e / 2 ^ 20 ≡ q)
      × (section_ap e ≡ ap)
      × (privileged_executable e ≡ k)
      × (executable e ≡ (k || u))
unfolding never_of l1_entry_get_type
section_word-decode q ap k u l =
    let e = section_word q (never_of k u) ap in
    let (a, b, c, d, f) = section_word-fields q (never_of k u) ap l (never_cases k u) in
    (ground (arith, c, d), a, b, ground (arith, f), ground (arith, f))

readable-same : (p : Permissions) → ((readable p).write ≡ p.write) × ((readable p).exec ≡ p.exec)
readable-same p = elim (Bool-cases (p.exec && not p.read)) [
  | inl e ↦ rw e (refl, refl)
  | inr e ↦ rw e (refl, refl)
]

never-readable :
    (kp up : Permissions) → section_never (readable kp) (readable up) ≡ never_of kp.exec up.exec
unfolding never_of
never-readable kp up = rw ((readable-same kp).1, (readable-same up).1) refl

section_word-made :
    (b entry ap e never : ℕ)
    → b < 2 ^ 32
    → entry ≡ 2 % 2 ^ 20 + b / mib % 2 ^ 12 * 2 ^ 20
    → Path (Outcome ℕ) (ok (entry + never + ap / 4 * 2 ^ 15 + ap % 4 * 2 ^ 10)) (ok e)
    → e ≡ section_word (b / mib) never ap
unfolding section_word
section_word-made b entry ap e never l f h = ground (arith, f, h)

-- What a side executes it also reads.
readable-exec : (p : Permissions) → (p.exec && (readable p).read) ≡ p.exec
readable-exec p = elim (Bool-cases (p.exec && not p.read)) [
  | inl e ↦ rw e (and_true p.exec)
  | inr e ↦ rw e (implied p.exec p.read e)
]
  where
    and_true : (b : Bool) → (b && true) ≡ b
    and_true true = refl
    and_true false = refl

    implied : (a b : Bool) → (a && not b) ≡ false → (a && b) ≡ a
    implied true true e = refl
    implied true false e = cc e
    implied false b e = refl

-- A section decodes to what it was made for: its base address, and the reads and writes of both
-- sides, where a side that is to execute it may also read it. The kernel executes it exactly if it
-- is to; the user executes it exactly if one of the two sides is to and the user may read it.
pub get_l1_section-decode :
    (b e : ℕ) (kp up : Permissions)
    → b < 2 ^ 32
    → get_l1_section b kp up ≡ ok e
    → (l1_entry_get_type e ≡ ok section)
      × (e / 2 ^ 20 * mib ≡ b)
      × (decode_ap (section_ap e) ≡ access (readable kp).read kp.write (readable up).read up.write)
      × (kernel_executes e ≡ kp.exec)
      × (user_executes e ≡ ((kp.exec || up.exec) && (readable up).read))
unfolding get_l1_section
get_l1_section-decode b e kp up lt h =
    let (entry, a, h1) = bind-ok (l1_section_set_base_address 2 b) h in
    let (bits, c, h2) = bind-ok (get_ap_bits (readable kp) (readable up)) h1 in
    let (z, f) = set_base-ok 2 b entry a in
    let (d, l) = get_ap_bits-decode (readable kp) (readable up) bits c in
    let w : e ≡ section_word (b / mib) (never_of kp.exec up.exec) bits =
      section_word-made b entry bits e (never_of kp.exec up.exec) lt f (
        subst
          (λ v. Path (Outcome ℕ) (ok (entry + v + bits / 4 * 2 ^ 15 + bits % 4 * 2 ^ 10)) (ok e))
          (never-readable kp up) h2) in
    let (t, q, u, x, y) = section_word-decode (b / mib) bits kp.exec up.exec l in
    let r =
      ap decode_ap u
      ∙ d
      ∙ ap (λ v. access (readable kp).read v (readable up).read (readable up).write)
          (readable-same kp).0
      ∙ ap (λ v. access (readable kp).read kp.write (readable up).read v) (readable-same up).0 in
    subst
      (λ e.
        (l1_entry_get_type e ≡ ok section)
        × (e / 2 ^ 20 * mib ≡ b)
        × (decode_ap (section_ap e)
            ≡ access (readable kp).read kp.write (readable up).read up.write)
        × (kernel_executes e ≡ kp.exec)
        × (user_executes e ≡ ((kp.exec || up.exec) && (readable up).read)))
      (sym w)
      (
        t,
        rw q (omega (arith, z)),
        r,
        ap
              (λ z.
                z
                && (decode_ap (
                    section_ap
                      (section_word (b / mib) (never_of kp.exec up.exec) bits))).kernel_reads)
              x
            ∙ ap (λ a. kp.exec && a.kernel_reads) r
            ∙ readable-exec kp,
        ap
              (λ z.
                z
                && (decode_ap (
                    section_ap
                      (section_word (b / mib) (never_of kp.exec up.exec) bits))).user_reads)
              y
            ∙ ap (λ a. (kp.exec || up.exec) && a.user_reads) r,
      )
