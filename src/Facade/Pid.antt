-- ===== src/Facade/Pid.antt =====
-- `ClientBuilder::read_as_u32` of sdk/facade/src/builder.rs, on the text of the file.
pub mod RoundTrip
use knot_ops.Prelude.{
  ℕ, ◌+◌, ◌-◌, ◌*◌, ◌^◌, Bool, true, false, ◌&&◌, Text, Option, none, some, [], ◌∷◌, ltb, leb, ◌==◌,
  if◌then◌else◌, trim,
}

abbrev pub is_digit : ℕ → Bool
is_digit c = leb b'0' c && leb c b'9'

-- The digits of `u32::from_str` behind the number `n`; the multiplication and the addition are checked.
unfoldable pub digits_u32 : ℕ → Text → Option ℕ
digits_u32 n [] = some n
digits_u32 n (c ∷ s) =
    let next = n * 10 + (c - b'0') in
    let rest = digits_u32 next s in if is_digit c && ltb next (2 ^ 32) then rest else none

-- `str::parse::<u32>`: digits, with a sign `+` in front or without, and not a sign alone.
unfoldable pub parse_u32 : Text → Option ℕ
unfolding digits_u32
parse_u32 [] = none
parse_u32 (c ∷ []) = digits_u32 0 (c ∷ [])
parse_u32 (c ∷ d ∷ s) = if c == b'+' then digits_u32 0 (d ∷ s) else digits_u32 0 (c ∷ d ∷ s)

unfoldable pub pid_of_text : Text → Option ℕ
unfolding parse_u32
pid_of_text content = parse_u32 (trim content)
