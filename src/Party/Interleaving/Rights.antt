-- ===== src/Party/Interleaving/Rights.antt =====
-- The locks of the transactions of services/api/routes/party.py: who holds one after a move.
use matchmaker_platform.Prelude.{
  ℕ, ◌≡◌, refl, sym, ap, ◌∙◌, ◌≢◌, Bool, true, false, none, some, List, [], ◌∷◌, ◌++◌, ◌==◌, arith,
  inl, inr, ◌⊎◌, Bool-cases,
}
use matchmaker_platform.Schema.{Party, PartyMember}
use matchmaker_platform.Tables.{find_party, party_of}
use matchmaker_platform.Party.Interleaving.{
  Stage, waiting, locked, checked, admitted, ended, has_lock, is_checked, set_stage,
}

pub party_of-append :
    (q : ℕ) (ms : List PartyMember) (m : PartyMember)
    → party_of q ms ≡ none
    → q ≢ m.player_id
    → party_of q (ms ++ m ∷ []) ≡ none
unfolding party_of
party_of-append q [] m h n = ground arith
party_of-append q (x ∷ ms) m h n = ground (arith, party_of-append q ms m)

pub checked_has_lock : (s : Stage) → is_checked s ≡ true → has_lock s ≡ true
checked_has_lock waiting h = cc
checked_has_lock locked h = cc
checked_has_lock checked h = refl
checked_has_lock admitted h = refl
checked_has_lock ended h = cc

pub different : (i j : ℕ) → (i == j) ≡ false → i ≢ j
different i j n e = ground (arith, n, e)

pub not_found :
    (j k : ℕ) (ps : List Party) (r : Party)
    → j ≡ k
    → find_party j ps ≡ some r
    → find_party k ps ≡ none
    → ⊥
not_found j k ps r q there absent = cc

pub same_or_not : (i j : ℕ) → (i ≡ j) ⊎ ((i == j) ≡ false)
same_or_not i j = elim (Bool-cases (i == j)) [ inl e ↦ inl (ground (arith, e)) | inr n ↦ inr n ]

-- The stage of the transaction that moved, and of another one.
module _ (f : ℕ → Stage) (i : ℕ) (s : Stage) where
  self : set_stage i s f i ≡ s
  self = ground arith

  pub moved : (j : ℕ) → i ≡ j → set_stage i s f j ≡ s
  moved j e = rw (sym e) self

  pub other : (j : ℕ) → (i == j) ≡ false → set_stage i s f j ≡ f j
  other j n = rw n refl

  -- A right that nobody else held before the move is not held twice after it.
  pub exclusive :
      (holds : Stage → Bool) (key : ℕ → ℕ)
      → ((j k : ℕ) → holds (f j) ≡ true → holds (f k) ≡ true → key j ≡ key k → j ≡ k)
      → (holds s ≡ true → (j : ℕ) → holds (f j) ≡ true → key i ≡ key j → i ≡ j)
      → (j k : ℕ) → holds (set_stage i s f j) ≡ true
      → holds (set_stage i s f k) ≡ true
      → key j ≡ key k
      → j ≡ k
  exclusive holds key old new j k a b q = elim (same_or_not i j) [
    | inl e ↦ elim (same_or_not i k) [
      | inl g ↦ sym e ∙ g
      | inr n ↦
          sym e
          ∙ new (sym (ap holds (moved j e)) ∙ a) k (sym (ap holds (other k n)) ∙ b) (ap key e ∙ q)
    ]
    | inr m ↦ elim (same_or_not i k) [
      | inl g ↦
          sym (
            new (sym (ap holds (moved k g)) ∙ b) j (sym (ap holds (other j m)) ∙ a)
              (ap key g ∙ sym q))
          ∙ g
      | inr n ↦ old j k (sym (ap holds (other j m)) ∙ a) (sym (ap holds (other k n)) ∙ b) q
    ]
  ]
