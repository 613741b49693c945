-- ===== src/OrderBy.antt =====
-- ORDER BY with LIMIT and OFFSET in PostgreSQL: the rows in the order of their keys. Rows with equal
-- keys may come in any order, and in another one where the limit or the offset differs.
pub mod Insertion
use mathlib.Core.Logic.{∥∥₁_elim}
use mathlib.Core.Logic.Or
use mathlib.Core.List.{Mem, Perm, Permᴰ, Pairwise, mem-cons, mem-cons_self, not-mem-nil}
use mathlib.Core.List.Pairwise
use mathlib.Core.List.Perm
use mathlib.Core.Path.{ap₂}
use matchmaker_platform.Prelude.{
  ℕ, zero, suc, ◌≡◌, refl, sym, ap, ◌∙◌, Bool, true, false, not, ◌&&◌, List, [], ◌∷◌, ◌++◌, arith,
  length, take, drop, inl, inr, ◌⊎◌,
}

-- `before x y`: the row x may stand before y. The two numbers are the limit and the offset.
pub record OrderBy {A : Type 0} (before : A → A → Bool) : Type 0 where
  pub order : ℕ → ℕ → List A → List A
  pub order-Perm : (limit offset : ℕ) (xs : List A) → Perm (order limit offset xs) xs
  pub order-Pairwise :
      (limit offset : ℕ) (xs : List A) → Pairwise (λ x y. before x y ≡ true) (order limit offset xs)

-- LIMIT ... OFFSET ...
abbrev pub rows_at : {A : Type 0} {before : A → A → Bool} → OrderBy before → ℕ → ℕ → List A → List A
rows_at o limit offset xs = take limit (drop offset (o.order limit offset xs))

module _ {A : Type 0} (before : A → A → Bool) where
  -- No row of the list has the key of `x`.
  unfoldable pub is_apart : A → List A → Bool
  is_apart x [] = true
  is_apart x (y ∷ ys) = not (before x y && before y x) && is_apart x ys

  unfoldable pub has_no_ties : List A → Bool
  unfolding is_apart
  has_no_ties [] = true
  has_no_ties (x ∷ xs) = is_apart x xs && has_no_ties xs

length-Permᴰ : {A : Type 0} {xs ys : List A} → Permᴰ xs ys → length xs ≡ length ys
length-Permᴰ Permᴰ.nil = refl
length-Permᴰ (Permᴰ.cons e d) = ap suc (length-Permᴰ d)
length-Permᴰ (Permᴰ.swap p q) = refl
length-Permᴰ (Permᴰ.trans d e) = length-Permᴰ d ∙ length-Permᴰ e

ℕ_set : IsSet ℕ
ℕ_set = hlevel

pub length-Perm : {A : Type 0} {xs ys : List A} → Perm xs ys → length xs ≡ length ys
length-Perm p = ∥∥₁_elim p (ℕ_set _ _) length-Permᴰ

Bool_set : IsSet Bool
Bool_set = hlevel

module _ {A : Type 0} (set : IsSet A) (before : A → A → Bool)
    (reflexive : (x : A) → before x x ≡ true) where
  first_apart :
      (x z : A) (ys : List A)
      → is_apart before x (z ∷ ys) ≡ true
      → (before x z && before z x) ≡ false
  unfolding is_apart
  first_apart x z ys h = ground (arith, h)

  apart_mem :
      (x y : A) (ys : List A)
      → is_apart before x ys ≡ true
      → Mem y ys
      → (before x y && before y x) ≡ false
  unfolding is_apart
  apart_mem x y [] h m = absurd (not-mem-nil m)
  apart_mem x y (z ∷ ys) h m =
      Or.elim (Bool_set _ _) (mem-cons.0 m) (λ e. rw e (first_apart x z ys h))
        (λ n. apart_mem x y ys (ground (arith, h)) n)

  head_before :
      (x y : A) (xs : List A)
      → Pairwise (λ x y. before x y ≡ true) (x ∷ xs)
      → Mem y (x ∷ xs)
      → before x y ≡ true
  head_before x y xs (Pairwise.cons h s) m =
      Or.elim (Bool_set _ _) (mem-cons.0 m) (λ e. rw e (reflexive x)) (λ n. h y n)

  heads_equal :
      (x y : A) (xs ys : List A)
      → has_no_ties before (x ∷ xs) ≡ true
      → Pairwise (λ x y. before x y ≡ true) (x ∷ xs)
      → Pairwise (λ x y. before x y ≡ true) (y ∷ ys)
      → Perm (x ∷ xs) (y ∷ ys)
      → x ≡ y
  unfolding has_no_ties
  heads_equal x y xs ys t s r p =
      let here : Mem y (x ∷ xs) = (Perm.mem_iff p).1 mem-cons_self in
      let a = head_before x y xs s here in
      let b = head_before y x ys r ((Perm.mem_iff p).0 mem-cons_self) in
      Or.elim (set _ _) (mem-cons.0 here) (λ e. sym e)
        (λ n. cc (apart_mem x y xs (ground (arith, t)) n, a, b))

  -- Where no two rows have the same key, there is one order.
  pub Pairwise-unique :
      (xs ys : List A)
      → has_no_ties before xs ≡ true
      → Pairwise (λ x y. before x y ≡ true) xs
      → Pairwise (λ x y. before x y ≡ true) ys
      → Perm xs ys
      → xs ≡ ys
  unfolding has_no_ties
  Pairwise-unique [] ys t s r p = Perm.nil-eq p
  Pairwise-unique (x ∷ xs) [] t s r p = Perm.eq-nil p
  Pairwise-unique (x ∷ xs) (y ∷ ys) t s r p =
      let e = heads_equal x y xs ys t s r p in
      let tails = Perm.cons_inv (Perm.trans p (Perm.symm (Perm.cons' e Perm.rfl))) in
      ap₂ ◌∷◌ e
        (Pairwise-unique xs ys (ground (arith, t)) (Pairwise.of_cons s) (Pairwise.of_cons r) tails)

module _ {A : Type 0} (before : A → A → Bool) where
  is_apart-Permᴰ :
      (x : A) {xs ys : List A} → Permᴰ xs ys → is_apart before x xs ≡ is_apart before x ys
  unfolding is_apart
  is_apart-Permᴰ x Permᴰ.nil = refl
  is_apart-Permᴰ x (Permᴰ.cons e d) = ground (arith, e, is_apart-Permᴰ x d)
  is_apart-Permᴰ x (Permᴰ.swap p q) = ground (arith, p, q)
  is_apart-Permᴰ x (Permᴰ.trans d e) = is_apart-Permᴰ x d ∙ is_apart-Permᴰ x e

  has_no_ties-Permᴰ : {xs ys : List A} → Permᴰ xs ys → has_no_ties before xs ≡ has_no_ties before ys
  unfolding is_apart has_no_ties
  has_no_ties-Permᴰ Permᴰ.nil = refl
  has_no_ties-Permᴰ (Permᴰ.cons {a} {l₁ = l} e d) =
      ground (arith, e, is_apart-Permᴰ a d, has_no_ties-Permᴰ d)
  has_no_ties-Permᴰ (Permᴰ.swap p q) = ground (arith, p, q)
  has_no_ties-Permᴰ (Permᴰ.trans d e) = has_no_ties-Permᴰ d ∙ has_no_ties-Permᴰ e

  pub has_no_ties-Perm :
      {xs ys : List A} → Perm xs ys → has_no_ties before xs ≡ has_no_ties before ys
  has_no_ties-Perm p = ∥∥₁_elim p (Bool_set _ _) has_no_ties-Permᴰ

-- Where no two rows have the same key, the limit and the offset do not matter.
pub order-same :
    {A : Type 0} (set : IsSet A) {before : A → A → Bool} (reflexive : (x : A) → before x x ≡ true)
    (o : OrderBy before) (xs : List A)
    → has_no_ties before xs ≡ true
    → (limit offset : ℕ) → o.order limit offset xs ≡ o.order 0 0 xs
order-same set {before} reflexive o xs t limit offset =
    let p = o.order-Perm limit offset xs in
    Pairwise-unique set before reflexive (o.order limit offset xs) (o.order 0 0 xs)
      (has_no_ties-Perm before p ∙ t) (o.order-Pairwise limit offset xs) (o.order-Pairwise 0 0 xs)
      (Perm.trans p (Perm.symm (o.order-Perm 0 0 xs)))
