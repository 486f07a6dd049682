-- ===== src/Alembic/Config.antt =====
-- alembic/env.py: the URL in alembic's configuration, which is a ConfigParser of Python. Setting an
-- option checks its `%`, and getting it interpolates them: `%%` stands for one, `%(name)s` refers to
-- another option, and any other is refused.
use glacis.Base.{ℕ, ◌≡◌, refl, Bool, false, ◌||◌, [], ◌∷◌, ◌++◌, arith, Text, ◌==◌, if◌then◌else◌}

-- What getting an option comes to. A reference is taken to be to an option that alembic.ini does not
-- have, since no URL has one.
pub data Interpolated : Type 0 where
  value : Text → Interpolated
  missing_option syntax_error : Interpolated

abbrev prepend : ℕ → Interpolated → Interpolated
prepend c (value t) = value (c ∷ t)
prepend c missing_option = missing_option
prepend c syntax_error = syntax_error

-- 37 is `%` and 40 is `(`
unfoldable mutual
  pub interpolate : Text → Interpolated
  interpolate [] = value []
  interpolate (c ∷ t) =
      let rest = interpolate t in
      let escaped = after_percent t in if c == 37 then escaped else prepend c rest

  pub after_percent : Text → Interpolated
  after_percent [] = syntax_error
  after_percent (c ∷ t) =
      let rest = interpolate t in
      if c == 37 then prepend 37 rest else if c == 40 then missing_option else syntax_error

abbrev pub has : ℕ → Text → Bool
has c [] = false
has c (d ∷ t) = (c == d) || has c t

-- a text without `%` is its own value
pub interpolate-plain : (t : Text) → has 37 t ≡ false → interpolate t ≡ value t
unfolding interpolate
interpolate-plain [] h = refl
interpolate-plain (c ∷ t) h = ground (arith, interpolate-plain t)

-- a `%` that no `%` and no `(` follows, as that of a percent-encoded character, is refused
pub interpolate-lone :
    (before : Text) (c : ℕ) (rest : Text)
    → has 37 before ≡ false
    → (c == 37) ≡ false
    → (c == 40) ≡ false
    → interpolate (before ++ (37 ∷ c ∷ rest)) ≡ syntax_error
unfolding interpolate
interpolate-lone [] c rest h p q = rw (p, q) refl
interpolate-lone (d ∷ before) c rest h p q = ground (arith, interpolate-lone before c rest)
