-- ===== src/Sys/Process/Bind.antt =====
-- What a bound process guarantees, and how the attempts after a spawn end.
use knot_ops.Prelude.{ℕ, true, Text, ◌≡◌, sym, ◌∙◌, ap, arith, text_eq_iff}
use knot_ops.Sys.Errors.{ok, after-eq-ok}
use knot_ops.Sys.Names.{match_unix}
use knot_ops.Sys.Process.{
  Host, ProcessControl, ProcessMetadata, PlatformProcess, metadata_eq, spawn_extract_metadata,
  extracted, compare_names, confirm, looked_again, opened, compared, bind,
}

pub metadata_eq_iff : (a b : ProcessMetadata) → metadata_eq a b ≡ true → a ≡ b
unfolding metadata_eq
metadata_eq_iff a b h = ground (arith, text_eq_iff a.name b.name)

module _ {W T : Type 0} (host : Host W) (control : ProcessControl W T) where
  extract_pid :
      (pid : ℕ) (w : W) {m : ProcessMetadata} {w' : W}
      → spawn_extract_metadata host control pid w ≡ (ok m, w')
      → m.pid ≡ pid
  unfolding spawn_extract_metadata extracted
  extract_pid pid w h = ground arith

  -- What led to a bound process: a look at the process table, the platform's handle, and a second
  -- look that shows the same process.
  pub record IsBound (pid : ℕ) (name : Text) (w : W) (p : PlatformProcess T) (w' : W) : Type 0 where
    pub of_pid : p.metadata.pid ≡ pid
    pub of_name : match_unix p.metadata.name name ≡ true
    pub seen : W
    pub handled : W
    pub before : spawn_extract_metadata host control pid w ≡ (ok p.metadata, seen)
    pub held : control.bind p.metadata seen ≡ (ok p.handle, handled)
    pub behind : spawn_extract_metadata host control pid handled ≡ (ok p.metadata, w')

  compare_names-ok :
      (expected actual : Text) (w : W) {u : Unit {0}} {w' : W}
      → compare_names host control expected actual w ≡ (ok u, w')
      → (match_unix actual expected ≡ true) × (w ≡ w')
  unfolding compare_names
  compare_names-ok expected actual w h = ground arith

  confirm-ok :
      (name : Text) (handle : T) (m m' : ProcessMetadata) (w : W) {p : PlatformProcess T} {w' : W}
      → confirm host control name handle m m' w ≡ (ok p, w')
      → (m ≡ m') × (p ≡ record { handle = handle; metadata = m' }) × (w ≡ w')
  unfolding confirm
  confirm-ok name handle m m' w h = ground (arith, metadata_eq_iff m m')

  -- The pieces of a successful call, put together.
  witnessed :
      (pid : ℕ) (name : Text) (w : W) (p : PlatformProcess T) (w' : W) (m : ProcessMetadata) (t : T)
      (m' : ProcessMetadata) (w1 w2 w3 w4 : W)
      → spawn_extract_metadata host control pid w ≡ (ok m, w1)
      → match_unix m.name name ≡ true
      → w1 ≡ w2
      → control.bind m w2 ≡ (ok t, w3)
      → spawn_extract_metadata host control pid w3 ≡ (ok m', w4)
      → m ≡ m'
      → p ≡ record { handle = t; metadata = m' }
      → w4 ≡ w'
      → IsBound pid name w p w'
  witnessed pid name w p w' m t m' w1 w2 w3 w4 e1 named same_world e3 e4 same is_p same_end =
      let is_m : p.metadata ≡ m = ap (λ q. q.metadata) is_p ∙ sym same in
      let is_t : t ≡ p.handle = sym (ap (λ q. q.handle) is_p) in
      record {
        of_pid = ap (λ x. x.pid) is_m ∙ extract_pid pid w e1;
        of_name = ap (λ x. match_unix x.name name) is_m ∙ named;
        seen = w1;
        handled = w3;
        before = e1 ∙ ap (λ x. (ok x, w1)) (sym is_m);
        held =
            ap (λ x. control.bind x w1) is_m
            ∙ ap (λ x. control.bind m x) same_world
            ∙ e3
            ∙ ap (λ x. (ok x, w3)) is_t;
        behind =
            e4 ∙ ap (λ x. (ok x, w4)) (sym same ∙ sym is_m) ∙ ap (λ x. (ok p.metadata, x)) same_end;
      }

  -- In a build for another system than Windows, a process that bind returns has the requested id
  -- and a matching name, and its handle was opened between two looks at the process table that
  -- showed the same id, name and start time.
  pub bind-IsBound :
      (pid : ℕ) (name : Text) (w : W) (p : PlatformProcess T) (w' : W)
      → bind host control pid name w ≡ (ok p, w')
      → IsBound pid name w p w'
  unfolding bind compared opened looked_again
  bind-IsBound pid name w p w' h =
      let (m, w1, e1, h1) =
        after-eq-ok (spawn_extract_metadata host control pid w) (compared host control pid name)
          h in
      let (u, w2, e2, h2) =
        after-eq-ok (compare_names host control name m.name w1)
          (λ _. opened host control pid name m) h1 in
      let (t, w3, e3, h3) =
        after-eq-ok (control.bind m w2) (looked_again host control pid name m) h2 in
      let (m', w4, e4, h4) =
        after-eq-ok (spawn_extract_metadata host control pid w3) (confirm host control name t m)
          h3 in
      let (named, same_world) = compare_names-ok name m.name w1 e2 in
      let (same, is_p, same_end) = confirm-ok name t m m' w4 h4 in
      witnessed pid name w p w' m t m' w1 w2 w3 w4 e1 named same_world e3 e4 same is_p same_end
