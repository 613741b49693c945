-- ===== src/Accounts/Usernames.antt =====
-- The name of a RegisterRequest (services/api/models/schemas.py): the constraints of the field, and
-- the validator `username_alphanumeric`.
use matchmaker_platform.Prelude.{
  ℕ, ◌<◌, ◌≡◌, refl, ◌∙◌, Bool, true, false, ◌&&◌, ◌||◌, [], ◌∷◌, ◌==◌, leb, ltb, if◌then◌else◌,
  length, arith,
}
use matchmaker_platform.Text.{Text, is_digit}

abbrev pub is_letter : ℕ → Bool
is_letter c = leb 97 c && leb c 122 || leb 65 c && leb c 90

-- [a-zA-Z0-9_-]
abbrev pub in_class : ℕ → Bool
in_class c = is_letter c || is_digit c || c == 95 || c == 45

unfoldable pub all : (ℕ → Bool) → Text → Bool
all f [] = true
all f (c ∷ cs) = f c && all f cs

unfoldable pub any : (ℕ → Bool) → Text → Bool
any f [] = false
any f (c ∷ cs) = f c || any f cs

-- Field(..., min_length=3, max_length=32, pattern="^[a-zA-Z0-9_-]+$")
unfoldable pub matches_field : Text → Bool
unfolding all
matches_field v = leb 3 (length v) && leb (length v) 32 && all in_class v

-- v.replace(chr(c), "")
unfoldable pub without : ℕ → Text → Text
without c [] = []
without c (d ∷ ds) = let rest = without c ds in if d == c then rest else d ∷ rest

-- str.isalnum: Python's own test of a character is given from outside.
unfoldable pub isalnum : (ℕ → Bool) → Text → Bool
unfolding all
isalnum is_alnum [] = false
isalnum is_alnum (c ∷ cs) = all is_alnum (c ∷ cs)

-- `false` is the ValueError.
unfoldable pub username_alphanumeric : (ℕ → Bool) → Text → Bool
unfolding isalnum without
username_alphanumeric is_alnum v = isalnum is_alnum (without 95 (without 45 v))

abbrev pub is_alphanumeric : ℕ → Bool
is_alphanumeric c = is_letter c || is_digit c

-- What the validator looks at: the letters and digits of the name.
abbrev bare : Text → Text
bare v = without 95 (without 45 v)

module _ (is_alnum : ℕ → Bool) (ascii : (c : ℕ) → c < 128 → is_alnum c ≡ is_alphanumeric c) where
  bare-alphanumeric : (v : Text) → all in_class v ≡ true → all is_alnum (bare v) ≡ true
  unfolding all without
  bare-alphanumeric [] h = refl
  bare-alphanumeric (c ∷ cs) h = ground (arith, ascii c, bare-alphanumeric cs)

  isalnum-nonempty : (v : Text) → all is_alnum v ≡ true → isalnum is_alnum v ≡ ltb 0 (length v)
  unfolding isalnum
  isalnum-nonempty [] h = refl
  isalnum-nonempty (c ∷ cs) h = ground (arith, h)

  bare-any : (v : Text) → all in_class v ≡ true → ltb 0 (length (bare v)) ≡ any is_alphanumeric v
  unfolding all any without
  bare-any [] h = refl
  bare-any (c ∷ cs) h = ground (arith, bare-any cs)

  -- Where Python's test of a character is that of ASCII on ASCII characters, a name that the field's
  -- constraints let through passes `username_alphanumeric` exactly if it has a letter or a digit: the
  -- validator refuses the names of hyphens and underscores only.
  pub username_alphanumeric-any :
      (v : Text) → matches_field v ≡ true → username_alphanumeric is_alnum v ≡ any is_alphanumeric v
  unfolding username_alphanumeric matches_field
  username_alphanumeric-any v h =
      let fits : all in_class v ≡ true = ground arith in
      isalnum-nonempty (bare v) (bare-alphanumeric v fits) ∙ bare-any v fits
