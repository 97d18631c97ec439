-- ===== src/Prelude/Double.antt =====
-- JavaScript's numbers: the product and the quotient of natural numbers in binary64, which round to 53
-- bits, and of two equally near to the even one.
use native.Mathlib.Nat.{
  mul-div-le, lt-mul-div-succ, mul-le-mul_right, mul-lt-mul_of_pos_right, le_of_mul-le-mul_right,
  lt_of_mul-lt-mul_right, div-add-mod,
}
use drasken_labs_communicati.Prelude.{
  false, ℕ, zero, suc, ◌+◌, ◌*◌, ◌/◌, ◌%◌, ◌≤◌, ◌<◌, ◌≡◌, ◌⊎◌, inl, inr, refl, arith, ltb,
  if◌then◌else◌, Bool-cases,
}

-- 2 ^ 53.
abbrev pub two_53 : ℕ
two_53 = 9007199254740992

-- 2 ^ 52.
abbrev pub two_52 : ℕ
two_52 = 4503599627370496

-- A quotient, rounded to the nearest, and half way to the even one.
unfoldable pub round_even : ℕ → ℕ → ℕ
round_even n unit =
    let q = n / unit in
    let r = n % unit in
    if ltb (2 * r) unit then q else if ltb unit (2 * r) then q + 1 else q + q % 2

-- The least power of 2, from `unit` on, of which 2 ^ 53 are more than `n`.
unfoldable pub unit_of : ℕ → ℕ → ℕ → ℕ
unit_of zero n unit = unit
unit_of (suc fuel) n unit =
    let more = unit_of fuel n (2 * unit) in if ltb n (two_53 * unit) then unit else more

-- The double nearest to a natural number below 2 ^ 117.
unfoldable pub to_double : ℕ → ℕ
to_double n = let unit = unit_of 64 n 1 in round_even n unit * unit

-- The whole part of the double nearest to `n / d`, of a quotient below 2 ^ 53: `n` is doubled until the
-- quotient has 53 bits, which 106 times do for any that is not 0.
unfoldable pub floor_over : ℕ → ℕ → ℕ → ℕ → ℕ
floor_over zero n d unit = n / d / unit
floor_over (suc fuel) n d unit =
    let more = floor_over fuel (2 * n) d (2 * unit) in
    if ltb n (two_52 * d) then more else round_even n d / unit

unfoldable pub floor_quotient : ℕ → ℕ → ℕ
floor_quotient n d = floor_over 106 n d 1

pub to_double-exact : (n : ℕ) → n < two_53 → to_double n ≡ n
unfolding to_double unit_of round_even
to_double-exact n h = ground arith

-- A number that is doubled so many times.
abbrev doubled : ℕ → ℕ → ℕ
doubled zero n = n
doubled (suc times) n = doubled times (2 * n)

-- The fuel is enough for a unit that leaves 53 bits.
unit_of-enough :
    (fuel n unit : ℕ) → n < two_53 * doubled fuel unit → n < two_53 * unit_of fuel n unit
unfolding unit_of
unit_of-enough zero n unit h = h
unit_of-enough (suc fuel) n unit h = elim (Bool-cases (ltb n (two_53 * unit))) [
  | inl fits ↦ rw fits (ground arith)
  | inr wide ↦ rw wide (unit_of-enough fuel n (2 * unit) h)
]

-- The fuel is enough for the quotient to be rounded at 53 bits, one more than the doublings it takes.
floor_over-enough :
    (fuel n d unit : ℕ)
    → two_52 * d ≤ doubled fuel n
    → (j : ℕ) × ((two_52 * d ≤ doubled j n)
        × (floor_over (suc fuel) n d unit ≡ round_even (doubled j n) d / doubled j unit))
unfolding floor_over
floor_over-enough zero n d unit h =
    let wide : ltb n (two_52 * d) ≡ false = ground arith in (0, (h, rw wide refl))
floor_over-enough (suc fuel) n d unit h = elim (Bool-cases (ltb n (two_52 * d))) [
  | inr wide ↦ (0, (ground arith, rw wide refl))
  | inl narrow ↦
      let (j, (enough, same)) = floor_over-enough fuel (2 * n) d (2 * unit) h in
      (suc j, (enough, rw narrow same))
]

round_even-cases :
    (n d : ℕ) → (round_even n d ≡ n / d) ⊎ ((round_even n d ≡ n / d + 1) × (d ≤ 2 * (n % d)))
unfolding round_even
round_even-cases n d = elim (Bool-cases (ltb (2 * (n % d)) d)) [
  | inl below ↦ inl (rw below refl)
  | inr not_below ↦ elim (Bool-cases (ltb d (2 * (n % d)))) [
    | inl above ↦ inr (rw (not_below, above) refl, ground arith)
    | inr tie ↦ elim (Bool-cases (ltb 0 (n / d % 2))) [
      | inl odd ↦ inr (rw (not_below, tie) (ground arith), ground arith)
      | inr even ↦ inl (rw (not_below, tie) (ground arith))
    ]
  ]
]

-- The whole part of `n / d`.
abbrev pub IsFloor : ℕ → ℕ → ℕ → Type 0
IsFloor n d k = (k * d ≤ n) × (n < (k + 1) * d)

module _ (given d : ℕ) (positive : 0 < d) (small : given < two_53) where
  lower : (n unit m k : ℕ) → n ≡ given * unit → 0 < unit → k * unit ≤ m → m * d ≤ n → k * d ≤ given
  lower n unit m k e p a b =
      let c = mul-le-mul_right {m = k * unit} {n = m} d a in
      le_of_mul-le-mul_right {m = k * d} {n = given} {k = unit} (omega arith) p

  upper :
      (n unit m k : ℕ)
      → n ≡ given * unit
      → m < (k + 1) * unit
      → n < (m + 1) * d
      → given < (k + 1) * d
  upper n unit m k e a b =
      let c = mul-le-mul_right {m = m + 1} {n = (k + 1) * unit} d (omega arith) in
      lt_of_mul-lt-mul_right unit {m = given} {n = (k + 1) * d} (omega arith)

  -- A quotient that is rounded up has not reached a whole number it is below.
  rounded_up :
      (n unit q k : ℕ)
      → n ≡ given * unit
      → 0 < unit
      → two_52 * d ≤ n
      → k * unit ≤ q + 1
      → (r : ℕ) → d * q + r ≡ n
      → d ≤ 2 * r
      → k * d ≤ given
  rounded_up n unit q k e p wide a r whole half = elim (Bool-cases (ltb given (k * d))) [
    | inr fine ↦ ground arith
    | inl more ↦
        let past : given + 1 ≤ k * d = ground arith in
        let c = mul-le-mul_right {m = k * unit} {n = q + 1} d a in
        let s = mul-le-mul_right {m = given + 1} {n = k * d} unit past in
        let t = mul-lt-mul_of_pos_right {m = given} {n = two_53} {k = unit} small p in
        absurd (omega arith)
  ]

  floor_over-IsFloor :
      (fuel n unit : ℕ) → n ≡ given * unit → 0 < unit → IsFloor given d (floor_over fuel n d unit)
  unfolding floor_over
  floor_over-IsFloor zero n unit e p =
      let q = n / d in
      let k = q / unit in
      let a = mul-div-le n d in
      let b = lt-mul-div-succ n {b = d} positive in
      let x = mul-div-le q unit in
      let y = lt-mul-div-succ q {b = unit} p in
      (
        lower n unit q k e p (omega arith) (omega arith),
        upper n unit q k e (omega arith) (omega arith),
      )
  floor_over-IsFloor (suc fuel) n unit e p = elim (Bool-cases (ltb n (two_52 * d))) [
    | inl narrow ↦
        rw narrow (floor_over-IsFloor fuel (2 * n) (2 * unit) (omega arith) (omega arith))
    | inr wide ↦
        let m = round_even n d in
        let k = m / unit in
        let a = mul-div-le n d in
        let b = lt-mul-div-succ n {b = d} positive in
        let x = mul-div-le m unit in
        let y = lt-mul-div-succ m {b = unit} p in
        let whole = div-add-mod n d in
        let enough : two_52 * d ≤ n = ground arith in
        rw wide (elim (round_even-cases n d) [
          | inl down ↦
              let z = mul-le-mul_right {m = m} {n = n / d} d (omega arith) in
              let u = mul-le-mul_right {m = n / d} {n = m} d (omega arith) in
              (
                lower n unit m k e p (omega arith) (omega arith),
                upper n unit m k e (omega arith) (omega arith),
              )
          | inr (up, half) ↦
              let u = mul-le-mul_right {m = n / d} {n = m} d (omega arith) in
              (
                rounded_up n unit (n / d) k e p enough (omega arith) (n % d) whole half,
                upper n unit m k e (omega arith) (omega arith),
              )
        ])
  ]

  -- Below 2 ^ 53 the quotient of doubles has the whole part of the exact one.
  pub floor_quotient-IsFloor : IsFloor given d (floor_quotient given d)
  unfolding floor_quotient
  floor_quotient-IsFloor = floor_over-IsFloor 106 given 1 (omega arith) (omega arith)
