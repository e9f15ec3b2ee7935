-- ===== src/Kcolor.antt =====
-- kernel/lib/kcolor.c: the colour of a module in the log, from hue, saturation and lightness.
use bsprakt_os.Base.{ℕ, ◌%◌, ltb, leb, if◌then◌else◌, Outcome, ok, ◌>>=◌, ◌>>◌, verify}
use bsprakt_os.Base.Signed.{pos, to_word}
use bsprakt_os.Fraction.{
  Fraction, k_fraction_create, k_fraction_from_number, k_fraction_lt, k_fraction_eq, k_fraction_add,
  k_fraction_sub, k_fraction_multiply_unchecked, k_fraction_round, k_fraction_to_whole_number,
}

pub record RgbColor : Type 0 where
  pub red : ℕ
  pub green : ℕ
  pub blue : ℕ

pub record HslColor : Type 0 where
  pub hue : ℕ
  pub saturation : ℕ
  pub lightness : ℕ

-- The tests of `k_hue_to_rgb` once `t` lies between 0 and 1.
unfoldable pub hue_segment : ℕ → Fraction → Fraction → Fraction → Outcome Fraction
hue_segment rounds p q t = do
  c1_6 ← k_fraction_create (pos 1) (pos 6)
  c1_2 ← k_fraction_create (pos 1) (pos 2)
  c2_3 ← k_fraction_create (pos 2) (pos 3)
  c6 ← k_fraction_from_number (pos 6)
  let rising = (do
    q_m_p ← k_fraction_sub rounds q p
    q_m_p_m_6 ← k_fraction_multiply_unchecked rounds q_m_p c6
    q_m_p_m_6_m_t ← k_fraction_multiply_unchecked rounds q_m_p_m_6 t
    k_fraction_add rounds p q_m_p_m_6_m_t)
  let falling = (do
    q_m_p ← k_fraction_sub rounds q p
    tt_m_t ← k_fraction_sub rounds c2_3 t
    q_m_p_m_tt_m_t ← k_fraction_multiply_unchecked rounds q_m_p tt_m_t
    q_m_p_m_tt_m_t_m_6 ← k_fraction_multiply_unchecked rounds q_m_p_m_tt_m_t c6
    k_fraction_add rounds p q_m_p_m_tt_m_t_m_6)
  if k_fraction_lt t c1_6
      then rising
      else if k_fraction_lt t c1_2
      then ok q
      else if k_fraction_lt t c2_3
      then falling
      else ok p

-- The two tests that bring `t` between 0 and 1, and the variable `t` of the caller afterwards.
unfoldable pub wrap_hue : ℕ → Fraction → Outcome Fraction
wrap_hue rounds t = do
  c0 ← k_fraction_from_number (pos 0)
  c1 ← k_fraction_from_number (pos 1)
  t1 ← if k_fraction_lt t c0 then k_fraction_add rounds t c1 else ok t
  if k_fraction_lt c1 t1 then k_fraction_sub rounds t1 c1 else ok t1

unfoldable pub k_hue_to_rgb : ℕ → Fraction → Fraction → Fraction → Outcome (Fraction × Fraction)
k_hue_to_rgb rounds p q t = do t' ← wrap_hue rounds t; c ← hue_segment rounds p q t'; ok (c, t')

-- `q`, for a saturation that is not zero.
unfoldable pub upper_bound : ℕ → Fraction → Fraction → Outcome Fraction
upper_bound rounds s l = do
  c1_2 ← k_fraction_create (pos 1) (pos 2)
  c1 ← k_fraction_from_number (pos 1)
  let dark = (do s_p_1 ← k_fraction_add rounds s c1; k_fraction_multiply_unchecked rounds l s_p_1)
  let light = (do
    l_p_s ← k_fraction_add rounds l s
    l_m_s ← k_fraction_multiply_unchecked rounds l s
    k_fraction_sub rounds l_p_s l_m_s)
  if k_fraction_lt l c1_2 then dark else light

-- The three components before they are scaled to 255.
unfoldable pub components :
    ℕ → Fraction → Fraction → Fraction → Outcome (Fraction × Fraction × Fraction)
components rounds h s l = do
  c0 ← k_fraction_from_number (pos 0)
  c1_3 ← k_fraction_create (pos 1) (pos 3)
  c2 ← k_fraction_from_number (pos 2)
  let coloured = (do
    q ← upper_bound rounds s l
    l_m_2 ← k_fraction_multiply_unchecked rounds l c2
    p ← k_fraction_sub rounds l_m_2 q
    h_p_ot ← k_fraction_add rounds h c1_3
    h_m_ot ← k_fraction_sub rounds h c1_3
    r ← k_hue_to_rgb rounds p q h_p_ot
    g ← k_hue_to_rgb rounds p q h
    b ← k_hue_to_rgb rounds p q h_m_ot
    ok (r.0, g.0, b.0))
  if k_fraction_eq s c0 then ok (l, l, l) else coloured

-- A component scaled to 255, rounded and stored in a `uint8_t`. The code makes each of these steps
-- for all three components before the next; they do not depend on one another.
unfoldable pub to_byte : ℕ → Fraction → Outcome ℕ
to_byte rounds r = do
  c255 ← k_fraction_from_number (pos 255)
  scaled ← k_fraction_multiply_unchecked rounds r c255
  rounded ← k_fraction_round rounds scaled
  ok (to_word (k_fraction_to_whole_number rounded) % 256)

unfoldable pub k_hsl_to_rgb : ℕ → HslColor → Outcome RgbColor
k_hsl_to_rgb rounds hsl = do
  verify (ltb hsl.hue 360)
  verify (leb hsl.saturation 100)
  verify (leb hsl.lightness 100)
  h ← k_fraction_create (pos hsl.hue) (pos 360)
  s ← k_fraction_create (pos hsl.saturation) (pos 100)
  l ← k_fraction_create (pos hsl.lightness) (pos 100)
  c ← components rounds h s l
  red ← to_byte rounds c.0
  green ← to_byte rounds c.1
  blue ← to_byte rounds c.2
  ok (record { red = red; green = green; blue = blue })
