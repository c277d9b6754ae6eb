-- ===== src/Sys/Names.antt =====
-- sys/src/utils.rs: whether two names of a process are the same.
use knot_ops.Prelude.{
  ℕ, ◌<◌, Option, none, some, ◌+◌, ◌-◌, Bool, true, false, ◌&&◌, Text, codes, [], ◌∷◌, ◌≡◌, refl,
  sym, ◌∙◌, ◌↔◌, leb, if◌then◌else◌, length, take, drop, text_eq, text_eq_iff,
}

-- `to_ascii_lowercase` of a character.
unfoldable pub fold_case : ℕ → ℕ
fold_case c = if leb b'A' c && leb c b'Z' then c + 32 else c

unfoldable pub fold_text : Text → Text
fold_text [] = []
fold_text (c ∷ s) = fold_case c ∷ fold_text s

-- `eq_ignore_ascii_case` of `str`.
unfoldable pub eq_ignore_ascii_case : Text → Text → Bool
eq_ignore_ascii_case s t = text_eq (fold_text s) (fold_text t)

-- Bytes 0x80 to 0xbf continue a character of UTF-8.
unfoldable pub is_continuation : ℕ → Bool
is_continuation b = leb 0x80 b && leb b 0xbf

unfoldable pub starts_inside : Text → Bool
unfolding is_continuation
starts_inside [] = false
starts_inside (b ∷ rest) = is_continuation b

-- `normalize_process_name` under `cfg(windows)`: a last `.exe` is taken off. `split_at` panics, here
-- `none`, inside a character.
unfoldable pub normalize_windows : Text → Option Text
unfolding eq_ignore_ascii_case starts_inside
normalize_windows name =
    let suffix = drop (length name - 4) name in
    if leb (length name) 4
    then some name
    else if starts_inside suffix
    then none
    else if eq_ignore_ascii_case suffix (codes ".exe")
    then some (take (length name - 4) name)
    else some name

-- `normalize_process_name` under `cfg(not(windows))`.
unfoldable pub normalize_unix : Text → Text
normalize_unix name = name

unfoldable pub both_match : Option Text → Option Text → Option Bool
unfolding eq_ignore_ascii_case
both_match none expected = none
both_match (some actual) none = none
both_match (some actual) (some expected) = some (eq_ignore_ascii_case actual expected)

-- `process_names_match` of the two builds.
unfoldable pub match_windows : Text → Text → Option Bool
unfolding both_match
match_windows actual expected = both_match (normalize_windows actual) (normalize_windows expected)

unfoldable pub match_unix : Text → Text → Bool
unfolding eq_ignore_ascii_case normalize_unix
match_unix actual expected = eq_ignore_ascii_case (normalize_unix actual) (normalize_unix expected)

pub match_unix_iff : (a b : Text) → (match_unix a b ≡ true) ↔ (fold_text a ≡ fold_text b)
unfolding match_unix
match_unix_iff a b = text_eq_iff _ _

-- The match of process names outside Windows is reflexive, symmetric and transitive.
pub match_unix_equivalence :
    ((a : Text) → match_unix a a ≡ true)
    × ((a b : Text) → match_unix a b ≡ true → match_unix b a ≡ true)
    × ((a b c : Text) → match_unix a b ≡ true → match_unix b c ≡ true → match_unix a c ≡ true)
match_unix_equivalence = (
  λ a. (match_unix_iff a a).1 refl,
  λ a b h. (match_unix_iff b a).1 (sym ((match_unix_iff a b).0 h)),
  λ a b c h k. (match_unix_iff a c).1 ((match_unix_iff a b).0 h ∙ (match_unix_iff b c).0 k),
)

-- Names of ASCII characters.
abbrev pub IsAscii : Text → Type 0
IsAscii [] = Unit {0}
IsAscii (b ∷ s) = (b < 128) × IsAscii s
