-- ===== src/Party/Capacity.antt =====
-- The invariant of the tables game.party and game.party_member, and the statements of
-- services/api/routes/party.py that change them.
use matchmaker_platform.Prelude.{
  ℕ, ◌+◌, ◌-◌, ◌≤◌, ◌<◌, ◌≡◌, refl, ◌∙◌, ◌≢◌, Option, none, some, arith, Bool, true, List, [], ◌∷◌,
  ◌++◌,
}
use matchmaker_platform.Schema.{Database, Party, PartyMember}
use matchmaker_platform.Tables.{
  find_party, count_members, count_player, is_member, party_of, update_party, delete_member,
  toggle_member,
}
use matchmaker_platform.Tables.Parties.{
  map_party, find_party-append_self, find_party-append_ne, find_party-update_self,
  find_party-update_ne,
}
use matchmaker_platform.Tables.Members.{
  count_members-append, count_player-append, count_player_of_none, count_members-delete-le,
  count_player-delete-le, count_members-delete_lt, count_members-toggle, count_player-toggle,
}
use native.Mathlib.Decide.{ℕ_discrete}
use matchmaker_platform.Party.{insert_member, insert_party, new_member, resize, set_party}

-- What holds of the number of members of one party, given its row.
abbrev pub Fits : Option Party → ℕ → Type 0
Fits none n = n ≡ 0
Fits (some p) n = (n ≤ p.size) × (p.size ≤ p.max_size)

-- No party holds more members than its size says, no size passes the capacity, no member is
-- without its party, and no player is in two parties.
pub record IsConsistent (db : Database) : Type 0 where
  pub fits : (k : ℕ) → Fits (find_party k db.parties) (count_members k db.party_members)
  pub one_party : (q : ℕ) → count_player q db.party_members ≤ 1

-- A party that has room for one more than its size counts, as after a member's row is deleted.
pub record HasRoom (k : ℕ) (db : Database) : Type 0 where
  pub consistent : IsConsistent db
  pub room :
      (p : Party) → find_party k db.parties ≡ some p → count_members k db.party_members + 1 ≤ p.size

-- One member row too many for the size, as between the two statements of a join.
pub record IsAhead (k : ℕ) (db : Database) : Type 0 where
  pub others : (j : ℕ) → j ≢ k → Fits (find_party j db.parties) (count_members j db.party_members)
  pub row :
      (p : Party)
      → find_party k db.parties ≡ some p
      → (count_members k db.party_members ≤ p.size + 1) × (p.size + 1 ≤ p.max_size)
  pub there : find_party k db.parties ≢ none
  pub one_party : (q : ℕ) → count_player q db.party_members ≤ 1

-- An update that changes neither id, size nor capacity.
pub record KeepsSize (f : Party → Party) : Type 0 where
  pub same_id : (p : Party) → (f p).id ≡ p.id
  pub same_size : (p : Party) → (f p).size ≡ p.size
  pub same_max : (p : Party) → (f p).max_size ≡ p.max_size

-- An update of one row leaves the other parties as they were.
Fits-set_party :
    (k : ℕ) (f : Party → Party) (ps : List Party) (ms : List PartyMember)
    → ((p : Party) → (f p).id ≡ p.id)
    → Fits (map_party f (find_party k ps)) (count_members k ms)
    → ((j : ℕ) → j ≢ k → Fits (find_party j ps) (count_members j ms))
    → (j : ℕ) → Fits (find_party j (update_party k f ps)) (count_members j ms)
Fits-set_party k f ps ms same here others j = elim (ℕ_discrete j k) [
  | yes e ↦ rw (e, find_party-update_self k f ps same) here
  | no n ↦ rw (find_party-update_ne j k f ps same n) (others j n)
]

Fits-map :
    (f : Party → Party) (o : Option Party) (n : ℕ) → KeepsSize f → Fits o n → Fits (map_party f o) n
Fits-map f none n k h = h
Fits-map f (some p) n k h = omega (arith, k.same_size p, k.same_max p)

Fits-le : (o : Option Party) (m n : ℕ) → m ≤ n → Fits o n → Fits o m
Fits-le none m n l h = omega arith
Fits-le (some p) m n l h = omega arith

pub set_party-IsConsistent :
    (k : ℕ) (f : Party → Party) (db : Database)
    → KeepsSize f
    → IsConsistent db
    → IsConsistent (set_party k f db)
set_party-IsConsistent k f db s h = record {
  fits =
      Fits-set_party k f db.parties db.party_members s.same_id
        (Fits-map f (find_party k db.parties) (count_members k db.party_members) s (h.fits k))
        (λ j _. h.fits j);
  one_party = h.one_party;
}

pub toggle-IsConsistent :
    (k q : ℕ) (db : Database)
    → IsConsistent db
    → IsConsistent (record db { party_members = toggle_member k q db.party_members })
toggle-IsConsistent k q db h = record {
  fits = λ j. rw (count_members-toggle j k q db.party_members) (h.fits j);
  one_party = λ p. rw (count_player-toggle p k q db.party_members) (h.one_party p);
}

pub delete-HasRoom :
    (k q : ℕ) (db : Database)
    → is_member k q db.party_members ≡ true
    → IsConsistent db
    → HasRoom k (record db { party_members = delete_member k q db.party_members })
delete-HasRoom k q db m h = record {
  consistent = record {
    fits = λ j.
        Fits-le (find_party j db.parties) _ _ (count_members-delete-le j k q db.party_members)
          (h.fits j);
    one_party = λ p. omega (arith, count_player-delete-le p k q db.party_members, h.one_party p);
  };
  room = λ p e.
      let f : Fits (some p) (count_members k db.party_members) = rw e at (h.fits k) in
      omega (arith, count_members-delete_lt k q db.party_members m);
}

Fits-shrink :
    (o : Option Party) (n now : ℕ)
    → ((p : Party) → o ≡ some p → n + 1 ≤ p.size)
    → Fits o n
    → Fits (map_party (resize (λ s. s - 1) now) o) n
Fits-shrink none n now r h = h
Fits-shrink (some p) n now r h = omega (arith, r p refl)

pub shrink-IsConsistent :
    (k now : ℕ) (db : Database)
    → HasRoom k db
    → IsConsistent (set_party k (resize (λ n. n - 1) now) db)
shrink-IsConsistent k now db h = record {
  fits =
      Fits-set_party k (resize (λ n. n - 1) now) db.parties db.party_members (λ p. refl)
        (Fits-shrink (find_party k db.parties) (count_members k db.party_members) now h.room
          (h.consistent.fits k))
        (λ j _. h.consistent.fits j);
  one_party = h.consistent.one_party;
}

-- One member too many for a party that has room, and no other party changed.
module _ (k q now : ℕ) (b : Bool) (ms : List PartyMember) where
  count_members-new : count_members k (ms ++ new_member k q now b ∷ []) ≡ count_members k ms + 1
  count_members-new = ground (arith, count_members-append k ms (new_member k q now b))

  count_members-new_ne :
      (j : ℕ) → j ≢ k → count_members j (ms ++ new_member k q now b ∷ []) ≡ count_members j ms
  count_members-new_ne j n = ground (arith, count_members-append j ms (new_member k q now b))

  one_party-new :
      party_of q ms ≡ none
      → ((p : ℕ) → count_player p ms ≤ 1)
      → (p : ℕ) → count_player p (ms ++ new_member k q now b ∷ []) ≤ 1
  one_party-new free one p = ground (
    arith,
    count_player-append p ms (new_member k q now b),
    count_player_of_none q ms free,
    one p,
  )

pub insert_member-eq-some :
    (m : PartyMember) (db db' : Database)
    → insert_member m db ≡ some db'
    → db' ≡ record db { party_members = db.party_members ++ m ∷ [] }
unfolding insert_member
insert_member-eq-some m db db' e = ground arith

pub insert_member-IsAhead :
    (k q now : ℕ) (b : Bool) (p : Party) (db db' : Database)
    → IsConsistent db
    → party_of q db.party_members ≡ none
    → find_party k db.parties ≡ some p
    → p.size < p.max_size
    → insert_member (new_member k q now b) db ≡ some db'
    → IsAhead k db'
insert_member-IsAhead k q now b p db db' h free found room e =
    rw (insert_member-eq-some (new_member k q now b) db db' e) (record {
      others = λ j n. rw (count_members-new_ne k q now b db.party_members j n) (h.fits j);
      row = λ r f.
          let same : r ≡ p = cc in
          let fit : Fits (some p) (count_members k db.party_members) = rw found at (h.fits k) in
          rw same (omega (arith, count_members-new k q now b db.party_members));
      there = λ x. cc;
      one_party = one_party-new k q now b db.party_members free h.one_party;
    })

Fits-grow :
    (o : Option Party) (n now : ℕ)
    → o ≢ none
    → ((p : Party) → o ≡ some p → (n ≤ p.size + 1) × (p.size + 1 ≤ p.max_size))
    → Fits (map_party (resize (λ s. s + 1) now) o) n
Fits-grow none n now t r = absurd (t refl)
Fits-grow (some p) n now t r = omega (arith, r p refl)

pub grow-IsConsistent :
    (k now : ℕ) (db : Database)
    → IsAhead k db
    → IsConsistent (set_party k (resize (λ n. n + 1) now) db)
grow-IsConsistent k now db h = record {
  fits =
      Fits-set_party k (resize (λ n. n + 1) now) db.parties db.party_members (λ p. refl)
        (Fits-grow (find_party k db.parties) (count_members k db.party_members) now h.there h.row)
        h.others;
  one_party = h.one_party;
}

-- A party row that was just added, whose one place its leader is about to take.
pub record IsNew (k q : ℕ) (db : Database) : Type 0 where
  pub others : (j : ℕ) → j ≢ k → Fits (find_party j db.parties) (count_members j db.party_members)
  pub row : Fits (find_party k db.parties) (count_members k db.party_members + 1)
  pub free : party_of q db.party_members ≡ none
  pub one_party : (p : ℕ) → count_player p db.party_members ≤ 1

pub insert_party-eq-some :
    (r : Party) (db db' : Database)
    → insert_party r db ≡ some db'
    → (find_party r.id db.parties ≡ none) × (db' ≡ record db { parties = db.parties ++ r ∷ [] })
unfolding insert_party
insert_party-eq-some r db db' e = ground arith

no_members :
    (k : ℕ) (db : Database)
    → find_party k db.parties ≡ none
    → IsConsistent db
    → count_members k db.party_members ≡ 0
no_members k db absent h = rw absent at (h.fits k)

new_Fits : (r : Party) (n : ℕ) → r.size ≡ 1 → 1 ≤ r.max_size → n ≡ 0 → Fits (some r) (n + 1)
new_Fits r n one cap e = omega arith

pub insert_party-IsNew :
    (k q : ℕ) (r : Party) (db db' : Database)
    → IsConsistent db
    → party_of q db.party_members ≡ none
    → r.id ≡ k
    → r.size ≡ 1
    → 1 ≤ r.max_size
    → insert_party r db ≡ some db'
    → IsNew k q db'
insert_party-IsNew k q r db db' h free rid one cap e =
    let (absent, result) = insert_party-eq-some r db db' e in
    rw result (record {
      others = λ j n. rw (find_party-append_ne j db.parties r absent (λ x. n (x ∙ rid))) (h.fits j);
      row =
          rw (find_party-append_self k db.parties r absent rid)
            (new_Fits r _ one cap (rw (← rid) (no_members r.id db absent h)));
      free = free;
      one_party = h.one_party;
    })

pub insert_member-IsConsistent :
    (k q now : ℕ) (db db' : Database)
    → IsNew k q db
    → insert_member (new_member k q now true) db ≡ some db'
    → IsConsistent db'
insert_member-IsConsistent k q now db db' h e =
    rw (insert_member-eq-some (new_member k q now true) db db' e) (record {
      fits = λ j. elim (ℕ_discrete j k) [
        | yes p ↦ rw (p, count_members-new k q now true db.party_members) h.row
        | no n ↦ rw (count_members-new_ne k q now true db.party_members j n) (h.others j n)
      ];
      one_party = one_party-new k q now true db.party_members h.free h.one_party;
    })
