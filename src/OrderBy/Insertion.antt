-- ===== src/OrderBy/Insertion.antt =====
-- An ORDER BY that keeps the rows with equal keys in the order of the table, by insertion sort.
use mathlib.Core.Logic.Or
use mathlib.Core.List.{Mem, Perm, Pairwise, mem-cons, not-mem-nil}
use mathlib.Core.List.Perm
use matchmaker_platform.Prelude.{
  ◌≡◌, refl, Bool, true, false, List, [], ◌∷◌, inl, inr, if◌then◌else◌, Bool-cases,
}
use matchmaker_platform.OrderBy.{OrderBy}

module _ {A : Type 0} (before : A → A → Bool)
    (total : (x y : A) → before x y ≡ false → before y x ≡ true)
    (transitive : (x y z : A) → before x y ≡ true → before y z ≡ true → before x z ≡ true) where
  abbrev pub IsOrdered : List A → Type 0
  IsOrdered = Pairwise (λ x y. before x y ≡ true)

  abbrev pub insert_row : A → List A → List A
  insert_row x [] = x ∷ []
  insert_row x (y ∷ ys) = let rest = insert_row x ys in if before x y then x ∷ y ∷ ys else y ∷ rest

  abbrev pub sort_rows : List A → List A
  sort_rows [] = []
  sort_rows (x ∷ xs) = insert_row x (sort_rows xs)

  insert_row-Perm : (x : A) (ys : List A) → Perm (insert_row x ys) (x ∷ ys)
  insert_row-Perm x [] = Perm.rfl
  insert_row-Perm x (y ∷ ys) = elim (Bool-cases (before x y)) [
    | inl e ↦ rw e Perm.rfl
    | inr e ↦ rw e (Perm.trans (Perm.cons' refl (insert_row-Perm x ys)) (Perm.swap x y ys))
  ]

  pub sort_rows-Perm : (xs : List A) → Perm (sort_rows xs) xs
  sort_rows-Perm [] = Perm.rfl
  sort_rows-Perm (x ∷ xs) =
      Perm.trans (insert_row-Perm x (sort_rows xs)) (Perm.cons' refl (sort_rows-Perm xs))

  Bool_set : IsSet Bool
  Bool_set = hlevel

  below_all :
      (x y : A) (ys : List A)
      → before x y ≡ true
      → IsOrdered (y ∷ ys)
      → (z : A) → Mem z (y ∷ ys)
      → before x z ≡ true
  below_all x y ys h (Pairwise.cons k s) z m =
      Or.elim (Bool_set _ _) (mem-cons.0 m) (λ e. rw e h) (λ n. transitive x y z h (k z n))

  insert_row-IsOrdered : (x : A) (ys : List A) → IsOrdered ys → IsOrdered (insert_row x ys)
  insert_row-IsOrdered x [] s = Pairwise.cons (λ z m. absurd (not-mem-nil m)) Pairwise.nil
  insert_row-IsOrdered x (y ∷ ys) (Pairwise.cons k s) = elim (Bool-cases (before x y)) [
    | inl e ↦ rw e (Pairwise.cons (below_all x y ys e (Pairwise.cons k s)) (Pairwise.cons k s))
    | inr e ↦ rw e (
        Pairwise.cons
          (λ z m.
            Or.elim (Bool_set _ _) (mem-cons.0 ((Perm.mem_iff (insert_row-Perm x ys)).0 m))
              (λ q. rw q (total x y e)) (λ n. k z n))
          (insert_row-IsOrdered x ys s))
  ]

  pub sort_rows-IsOrdered : (xs : List A) → IsOrdered (sort_rows xs)
  sort_rows-IsOrdered [] = Pairwise.nil
  sort_rows-IsOrdered (x ∷ xs) = insert_row-IsOrdered x (sort_rows xs) (sort_rows-IsOrdered xs)

  abbrev pub insertion : OrderBy before
  insertion = record {
    order = λ limit offset xs. sort_rows xs;
    order-Perm = λ limit offset xs. sort_rows-Perm xs;
    order-Pairwise = λ limit offset xs. sort_rows-IsOrdered xs;
  }
