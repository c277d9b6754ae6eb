-- ===== src/Core/Utils/Durations.antt =====
-- A printed duration is read back.
use knot_ops.Prelude.{
  ℕ, suc, ◌+◌, ◌-◌, ◌*◌, ◌/◌, ◌%◌, ◌==◌, ◌≡◌, refl, ◌∙◌, inl, inr, ltb, leb, ◌&&◌, arith,
  if◌then◌else◌, Text, codes, [], ◌∷◌, ◌++◌, decimal, ReadsDigits, read-decimal, Bool-cases,
}
use knot_ops.Core.Utils.{format_duration}

-- The seconds that a text stands for: a number followed by `s`, `m`, `h` or `d` counts in that unit.
unfoldable pub read_duration : ℕ → ℕ → Text → ℕ
read_duration total n [] = total
read_duration total n (c ∷ s) =
    let digit = read_duration total (n * 10 + (c - b'0')) s in
    let seconds = read_duration (total + n) 0 s in
    let minutes = read_duration (total + n * 60) 0 s in
    let hours = read_duration (total + n * 3600) 0 s in
    let days = read_duration (total + n * 86400) 0 s in
    let space = read_duration total n s in
    if leb b'0' c && leb c b'9'
    then digit
    else if c == b's'
    then seconds
    else if c == b'm'
    then minutes
    else if c == b'h'
    then hours
    else if c == b'd'
    then days
    else space

-- Whole minutes from an hour on, and whole hours from a day on.
abbrev pub to_unit : ℕ → ℕ
to_unit secs =
    if ltb secs 3600 then secs else if ltb secs 86400 then secs / 60 * 60 else secs / 3600 * 3600

reads_digits : (total bound : ℕ) → ReadsDigits (read_duration total) bound
unfolding read_duration
reads_digits total bound n d s small below = ground arith

read_unit :
    (total n : ℕ) (rest : Text)
    → read_duration total 0 (decimal n ++ rest) ≡ read_duration total n rest
read_unit total n rest =
    read-decimal (read_duration total) (suc n) n rest (reads_digits total (suc n)) (omega arith)

-- Two numbers, each with its unit.
read_two :
    (x y : ℕ) (a b : Text) (total : ℕ)
    → ((rest : Text) → read_duration 0 x (a ++ rest) ≡ read_duration total 0 rest)
    → read_duration 0 0 (decimal x ++ (a ++ (decimal y ++ b))) ≡ read_duration total y b
read_two x y a b total h =
    read_unit 0 x (a ++ (decimal y ++ b)) ∙ h (decimal y ++ b) ∙ read_unit total y b

-- A printed duration, read back number by number with its units, is the number of seconds below an
-- hour, that number rounded down to whole minutes below a day, and to whole hours from a day on.
pub read-format_duration : (secs : ℕ) → read_duration 0 0 (format_duration secs) ≡ to_unit secs
unfolding format_duration read_duration
read-format_duration secs = elim (Bool-cases (ltb secs 60)) [
  | inl seconds ↦ rw seconds (read_unit 0 secs (codes "s") ∙ ground arith)
  | inr more ↦ elim (Bool-cases (ltb (secs / 60) 60)) [
    | inl minutes ↦
        rw (more, minutes)
          (read_two (secs / 60) (secs % 60) (codes "m ") (codes "s") (0 + secs / 60 * 60)
              (λ rest. refl)
            ∙ ground arith)
    | inr longer ↦ elim (Bool-cases (ltb (secs / 60 / 60) 24)) [
      | inl hours ↦
          rw (more, longer, hours)
            (read_two (secs / 60 / 60) (secs / 60 % 60) (codes "h ") (codes "m")
                (0 + secs / 60 / 60 * 3600) (λ rest. refl)
              ∙ ground arith)
      | inr days ↦
          rw (more, longer, days)
            (read_two (secs / 60 / 60 / 24) (secs / 60 / 60 % 24) (codes "d ") (codes "h")
                (0 + secs / 60 / 60 / 24 * 86400) (λ rest. refl)
              ∙ ground arith)
    ]
  ]
]
