-- ===== src/Sys/Errors.antt =====
-- sys/src/errors.rs, the parts of `std::io::Error` that the program reads, and computations that act
-- on an outside world `W` and may fail.
use knot_ops.Prelude.{
  ℕ, Bool, true, false, Text, codes, Option, none, ◌++◌, ◌≡◌, refl, ap, ◌⊎◌, inl, inr, arith,
}

pub data ErrorKind : Type 0 where
  not_found permission_denied already_exists addr_in_use invalid_input would_block other : ErrorKind

-- The test on `ErrorKind::NotFound`.
abbrev pub is_not_found : ErrorKind → Bool
is_not_found not_found = true
is_not_found permission_denied = false
is_not_found already_exists = false
is_not_found addr_in_use = false
is_not_found invalid_input = false
is_not_found would_block = false
is_not_found other = false

-- The kind, the number that the system gave, and what `Display` prints.
pub record IoError : Type 0 where
  pub kind : ErrorKind
  pub raw_os_error : Option ℕ
  pub message : Text

-- `io::Error::other`
abbrev pub other_error : Text → IoError
other_error message = record { kind = other; raw_os_error = none; message = message }

pub data ProcessError : Type 0 where
  not_running : ProcessError
  mismatch : Text → Text → ProcessError
  reused : ProcessError
  io : IoError → ProcessError

-- `Display`, derived from the `error` attributes.
unfoldable pub display : ProcessError → Text
display not_running = codes "process is not running"
display (mismatch expected actual) =
    codes "process name mismatch: expected '"
    ++ (expected ++ (codes "', got '" ++ (actual ++ codes "'")))
display reused = codes "process reused"
display (io e) = codes "io error"

pub data Result (A E : Type 0) : Type 0 where
  ok : A → Result A E
  err : E → Result A E

abbrev pub map_err : {A E F : Type 0} → (E → F) → Result A E → Result A F
map_err f (ok a) = ok a
map_err f (err e) = err (f e)

-- A computation on `W` that fails with an `E`.
abbrev pub Action : Type 0 → Type 0 → Type 0 → Type 0
Action W E A = W → Result A E × W

abbrev pub pure : {W E A : Type 0} → A → Action W E A
pure a w = (ok a, w)

abbrev pub raise : {W E A : Type 0} → E → Action W E A
raise e w = (err e, w)

-- The rest of a computation, after `?`.
abbrev pub after : {W E A B : Type 0} → Result A E × W → (A → Action W E B) → Result B E × W
after (ok a, w) f = f a w
after (err e, w) f = (err e, w)

infixl 5 ◌>>=◌ ◌>>◌
abbrev pub ◌>>=◌ : {W E A B : Type 0} → Action W E A → (A → Action W E B) → Action W E B
◌>>=◌ m f w = after (m w) f

abbrev pub ◌>>◌ : {W E B : Type 0} → Action W E (Unit {0}) → Action W E B → Action W E B
m >> k = m >>= λ _. k

-- A successful `>>=` has two successful parts.
pub after-eq-ok :
    {W E A B : Type 0} (r : Result A E × W) (f : A → Action W E B) {b : B} {w' : W}
    → after r f ≡ (ok b, w')
    → (a : A) × (w1 : W) × (r ≡ (ok a, w1)) × (f a w1 ≡ (ok b, w'))
after-eq-ok (ok a, w) f h = (a, w, refl, h)
after-eq-ok (err e, w) f h = absurd (ground arith)

pub ok-eq-ok :
    {A E W : Type 0} {a b : A} {w w' : W}
    → ◌≡◌ {A = Result A E × W} (ok a, w) (ok b, w')
    → (a ≡ b) × (w ≡ w')
ok-eq-ok {a} e = (ap (λ r. elim r.0 [ ok x ↦ x | err i ↦ a ]) e, ap (λ r. r.1) e)

pub ok-ne-err :
    {A E W : Type 0} {a : A} {i : E} {w w' : W} → ◌≡◌ {A = Result A E × W} (ok a, w) (err i, w') → ⊥
ok-ne-err e = cc

pub err-eq-err :
    {A E W : Type 0} {e i : E} {w w' : W}
    → ◌≡◌ {A = Result A E × W} (err e, w) (err i, w')
    → (e ≡ i) × (w ≡ w')
err-eq-err {e} h = (ap (λ r. elim r.0 [ ok x ↦ e | err j ↦ j ]) h, ap (λ r. r.1) h)

-- A failed `>>=` fails in its first part or in its second.
pub after-eq-err :
    {W E A B : Type 0} (r : Result A E × W) (f : A → Action W E B) {e : E} {w' : W}
    → after r f ≡ (err e, w')
    → (r ≡ (err e, w')) ⊎ ((a : A) × (w1 : W) × (r ≡ (ok a, w1)) × (f a w1 ≡ (err e, w')))
after-eq-err (ok a, w) f h = inr (a, w, refl, h)
after-eq-err (err i, w) f h = inl (ap (λ r. (elim r.0 [ ok x ↦ err i | err j ↦ err j ], r.1)) h)
