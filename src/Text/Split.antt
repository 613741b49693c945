-- ===== src/Text/Split.antt =====
-- `split` on the f-string `f"{a}:{b}"`.
use matchmaker_platform.Prelude.{
  ℕ, ◌+◌, ◌≤◌, ◌<◌, ◌≡◌, refl, ◌≢◌, [], ◌∷◌, ◌++◌, arith, length, All,
}
use matchmaker_platform.Text.{Text, split_head, split_tail, split}

split_tail-free : (sep : ℕ) (t : Text) → All (λ c. c ≢ sep) t → split_tail sep t ≡ []
unfolding split_tail
split_tail-free sep [] h = refl
split_tail-free sep (c ∷ cs) h = ground (arith, split_tail-free sep cs h.1)

split_head-free : (sep : ℕ) (t : Text) → All (λ c. c ≢ sep) t → split_head sep t ≡ t
unfolding split_head
split_head-free sep [] h = refl
split_head-free sep (c ∷ cs) h = ground (arith, split_head-free sep cs h.1)

split_head-pair : (sep : ℕ) (a b : Text) → All (λ c. c ≢ sep) a → split_head sep (a ++ sep ∷ b) ≡ a
unfolding split_head
split_head-pair sep [] b h = ground arith
split_head-pair sep (c ∷ cs) b h = ground (arith, split_head-pair sep cs b h.1)

split_tail-pair :
    (sep : ℕ) (a b : Text)
    → All (λ c. c ≢ sep) a
    → split_tail sep (a ++ sep ∷ b) ≡ split_head sep b ∷ split_tail sep b
unfolding split_tail
split_tail-pair sep [] b h = ground arith
split_tail-pair sep (c ∷ cs) b h = ground (arith, split_tail-pair sep cs b h.1)

-- Two parts without the separator come back.
pub split-pair :
    (sep : ℕ) (a b : Text)
    → All (λ c. c ≢ sep) a
    → All (λ c. c ≢ sep) b
    → split sep (a ++ sep ∷ b) ≡ a ∷ b ∷ []
unfolding split
split-pair sep a b ha hb = rw (
  split_head-pair sep a b ha,
  split_tail-pair sep a b ha,
  split_head-free sep b hb,
  split_tail-free sep b hb,
)

length-split_tail :
    (sep : ℕ) (a b : Text) → length (split_tail sep b) + 1 ≤ length (split_tail sep (a ++ sep ∷ b))
unfolding split_tail
length-split_tail sep [] b = ground arith
length-split_tail sep (c ∷ cs) b = ground (arith, length-split_tail sep cs b)

-- With a separator inside the first part there are three parts or more.
pub length-split-pair :
    (sep : ℕ) (a b c : Text) → 2 < length (split sep (a ++ sep ∷ (b ++ sep ∷ c)))
unfolding split
length-split-pair sep a b c =
    omega (arith, length-split_tail sep a (b ++ sep ∷ c), length-split_tail sep b c)
