-- ===== src/Accounts/Uniqueness.antt =====
-- The UNIQUE columns of game.player, as register (services/api/routes/auth.py) leaves them.
use matchmaker_platform.Prelude.{
  ℕ, ◌+◌, ◌≤◌, ◌≡◌, ◌⊎◌, refl, sym, ap, String, Bool, Option, none, some, List, [], ◌∷◌, ◌++◌,
  if◌then◌else◌, arith, inl, inr, Bool-cases, Option-cases,
}
use text.Mathlib.Text.{◌==◌ as same_string}
use text.Mathlib.TextEquality.{eq_iff}
use matchmaker_platform.Text.{Text}
use matchmaker_platform.Schema.{Database, Player}
use matchmaker_platform.Auth.{Jwt, Passwords, Settings}
use matchmaker_platform.Api.{World, Action, exception, or_fail, ◌>>=◌}
use matchmaker_platform.Api.Triple.{Triple, Triple-bind, Triple-handler, Triple-statement}
use matchmaker_platform.Api.Effect.{IsEffect, effect, IsEffect-keeps}
use matchmaker_platform.Accounts.{
  RegisterRequest, find_username, find_email, UniqueColumn, Inserted, row, violation, new_player,
  insert_player, register, register_answer,
}

-- The number of rows of a name, and of an address.
unfoldable pub count_username : String → List Player → ℕ
count_username name [] = 0
count_username name (p ∷ ps) =
    (if same_string p.username name then 1 else 0) + count_username name ps

unfoldable pub count_email : String → List Player → ℕ
count_email email [] = 0
count_email email (p ∷ ps) = (if same_string p.email email then 1 else 0) + count_email email ps

-- No two accounts have the same name, or the same address.
pub record HasUniqueAccounts (ps : List Player) : Type 0 where
  pub one_name : (name : String) → count_username name ps ≤ 1
  pub one_email : (email : String) → count_email email ps ≤ 1

count_username-append :
    (name : String) (ps : List Player) (p : Player)
    → count_username name (ps ++ p ∷ [])
      ≡ count_username name ps + (if same_string p.username name then 1 else 0)
unfolding count_username
count_username-append name [] p = ground arith
count_username-append name (x ∷ ps) p = ground (arith, count_username-append name ps p)

count_email-append :
    (email : String) (ps : List Player) (p : Player)
    → count_email email (ps ++ p ∷ [])
      ≡ count_email email ps + (if same_string p.email email then 1 else 0)
unfolding count_email
count_email-append email [] p = ground arith
count_email-append email (x ∷ ps) p = ground (arith, count_email-append email ps p)

count_username-absent :
    (name : String) (ps : List Player) → find_username name ps ≡ none → count_username name ps ≡ 0
unfolding count_username find_username
count_username-absent name [] h = refl
count_username-absent name (x ∷ ps) h = ground (arith, count_username-absent name ps)

count_email-absent :
    (email : String) (ps : List Player) → find_email email ps ≡ none → count_email email ps ≡ 0
unfolding count_email find_email
count_email-absent email [] h = refl
count_email-absent email (x ∷ ps) h = ground (arith, count_email-absent email ps)

abbrev one_if : Bool → ℕ
one_if b = if b then 1 else 0

append-HasUniqueAccounts :
    (ps : List Player) (p : Player)
    → HasUniqueAccounts ps
    → find_username p.username ps ≡ none
    → find_email p.email ps ≡ none
    → HasUniqueAccounts (ps ++ p ∷ [])
append-HasUniqueAccounts ps p u n e = record {
  one_name = λ name. elim (Bool-cases (same_string p.username name)) [
    | inl same ↦
        let free : find_username name ps ≡ none = rw (sym ((eq_iff p.username name).0 same)) n in
        omega (
          arith,
          count_username-append name ps p,
          count_username-absent name ps free,
          ap one_if same,
        )
    | inr other ↦ omega (arith, count_username-append name ps p, u.one_name name, ap one_if other)
  ];
  one_email = λ email. elim (Bool-cases (same_string p.email email)) [
    | inl same ↦
        let free : find_email email ps ≡ none = rw (sym ((eq_iff p.email email).0 same)) e in
        omega
          (arith, count_email-append email ps p, count_email-absent email ps free, ap one_if same)
    | inr other ↦ omega (arith, count_email-append email ps p, u.one_email email, ap one_if other)
  ];
}

-- The name and the address were free, and the tables differ in one new row: under the new id, with
-- a hash of the password, and with a rating of 1200.
pub record IsRegistered (passwords : Passwords) (request : RegisterRequest) (salt new_id now : ℕ)
    (before after : Database) : Type 0 where
  pub name_free : find_username request.username before.players ≡ none
  pub email_free : find_email request.email before.players ≡ none
  pub password_hash : String
  pub hashed : passwords.hash salt request.password ≡ some password_hash
  pub written : after ≡ record before {
    players = before.players ++ new_player new_id now request password_hash ∷ [];
  }

-- What an INSERT has left: one row, or nothing.
abbrev IsInserted : Player → Database → Inserted → Database → Type 0
IsInserted p before (violation column refused) after = after ≡ before
IsInserted p before (row q) after =
    (q ≡ p)
    × (find_username p.username before.players ≡ none)
    × (find_email p.email before.players ≡ none)
    × (after ≡ record before { players = before.players ++ p ∷ [] })

insert_player-IsInserted :
    (email_first : Bool) (p : Player) (db : Database) (r : Inserted) (db' : Database)
    → insert_player email_first p db ≡ some (r, db')
    → IsInserted p db r db'
unfolding insert_player
insert_player-IsInserted email_first p db r db' h =
    elim (Option-cases (find_username p.username db.players)) [
      | inl n ↦ elim (Option-cases (find_email p.email db.players)) [
        | inl e ↦ ground (arith, n, e)
        | inr (q, e) ↦ ground (arith, n, e)
      ]
      | inr (q, n) ↦ ground (arith, n)
    ]

hash_Triple :
    {S A : Type 0} {now : ℕ} {Pre Exc : Database → Type 0} {Q : A → Database → Type 0}
    (o : Option String) {f : String → Action S A}
    → ((db : Database) → Pre db → Exc db)
    → ((h : String) → o ≡ some h → Triple now Pre (f h) Q Exc)
    → Triple now Pre (or_fail o exception >>= f) Q Exc
hash_Triple none x k = record { at = λ w t h. (t, x w.db h) }
hash_Triple (some h) x k = k h refl

module _ (jwt : Jwt) (settings : Settings) (passwords : Passwords)
    (message : UniqueColumn → Player → Text) (request : RegisterRequest) (salt new_id now : ℕ) where
  -- The row that an INSERT has left makes a registration.
  inserted_row :
      {q : Player} {before : Database} (password_hash : String)
      → passwords.hash salt request.password ≡ some password_hash
      → (db : Database) → IsInserted (new_player new_id now request password_hash) before (row q) db
      → IsRegistered passwords request salt new_id now before db
  inserted_row password_hash hashed db h = record {
    name_free = h.1;
    email_free = h.2;
    password_hash = password_hash;
    hashed = hashed;
    written = h.3;
  }

  -- The reply of the INSERT is lost.
  unheard :
      {before : Database} (password_hash : String)
      → passwords.hash salt request.password ≡ some password_hash
      → (inserted : Inserted) (db : Database)
      → IsInserted (new_player new_id now request password_hash) before inserted db
      → (db ≡ before) ⊎ IsRegistered passwords request salt new_id now before db
  unheard password_hash hashed (violation column refused) db h = inl h
  unheard password_hash hashed (row q) db h = inr (inserted_row password_hash hashed db h)

  register_answer-Triple :
      {S : Type 0} (before : Database) (password_hash : String)
      → passwords.hash salt request.password ≡ some password_hash
      → (inserted : Inserted)
      → Triple {S = S} now
          (IsInserted (new_player new_id now request password_hash) before inserted)
          (register_answer jwt settings passwords message inserted)
          (λ _. IsRegistered passwords request salt new_id now before)
          (λ db. (db ≡ before) ⊎ IsRegistered passwords request salt new_id now before db)
  unfolding register_answer
  register_answer-Triple before password_hash hashed (violation column refused) = record {
    at = λ w t h. (t, inl h);
  }
  register_answer-Triple before password_hash hashed (row player) = record {
    at = λ w t h. (t, inserted_row password_hash hashed w.db h);
  }

  inserted_by :
      (email_first : Bool) (before : Database) (password_hash : String) (at : ℕ) (db : Database)
      (r : Inserted) (db' : Database)
      → at ≡ now
      → db ≡ before
      → insert_player email_first (new_player new_id at request password_hash) db ≡ some (r, db')
      → IsInserted (new_player new_id now request password_hash) before r db'
  inserted_by email_first before password_hash at db r db' t h e =
      rw (sym t, sym h)
        (insert_player-IsInserted email_first (new_player new_id at request password_hash) db r db'
          e)

  register-Triple :
      {S : Type 0} (email_first : Bool) (before : Database)
      → Triple {S = S} now
          (λ db. db ≡ before)
          (register jwt settings passwords email_first message request salt new_id)
          (λ _. IsRegistered passwords request salt new_id now before)
          (λ db. (db ≡ before) ⊎ IsRegistered passwords request salt new_id now before db)
  unfolding register
  register-Triple email_first before = Triple-handler "Registration failed" (
      hash_Triple (passwords.hash salt request.password) (λ db h. inl h)
        λ password_hash hashed.
          Triple-bind
            (Triple-statement {Q = IsInserted (new_player new_id now request password_hash) before}
              _ (λ db h. inl h)
              (λ w r db t h e. inserted_by email_first before password_hash w.now w.db r db t h e)
              (unheard password_hash hashed))
            (register_answer-Triple before password_hash hashed))

module _ (jwt : Jwt) (settings : Settings) (passwords : Passwords) (email_first : Bool)
    (message : UniqueColumn → Player → Text) (request : RegisterRequest) (salt new_id : ℕ) where
  pub register-IsEffect :
      {S : Type 0} (w : World S)
      → let (r, w') = register jwt settings passwords email_first message request salt new_id w in
        IsEffect (IsRegistered passwords request salt new_id w.now w.db) w.db r w'.db
  register-IsEffect w =
      let (r, w') = register jwt settings passwords email_first message request salt new_id w in
      effect w.now (IsRegistered passwords request salt new_id w.now w.db) w.db r w' (
        (register-Triple jwt settings passwords message request salt new_id w.now email_first
            w.db).at
          w refl refl)

  -- Where no two accounts share a name or an address, none do after a registration, whether it
  -- returns or raises an exception.
  pub register-HasUniqueAccounts :
      {S : Type 0} (w : World S)
      → HasUniqueAccounts w.db.players
      → HasUniqueAccounts
          (register jwt settings passwords email_first message request salt new_id w).1.db.players
  register-HasUniqueAccounts w u =
      let (r, w') = register jwt settings passwords email_first message request salt new_id w in
      IsEffect-keeps (IsRegistered passwords request salt new_id w.now w.db)
        (λ db. HasUniqueAccounts db.players) w.db u
        (λ after h. rw h.written (
          append-HasUniqueAccounts w.db.players (new_player new_id w.now request h.password_hash) u
            h.name_free h.email_free))
        r w'.db (register-IsEffect w)
