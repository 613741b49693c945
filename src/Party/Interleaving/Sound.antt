-- ===== src/Party/Interleaving/Sound.antt =====
-- What holds while the transactions of join_party and create_party (services/api/routes/party.py)
-- interleave.
use matchmaker_platform.Prelude.{
  ℕ, String, ◌≤◌, ◌+◌, ◌<◌, ◌≡◌, refl, sym, ap, ◌∙◌, true, false, none, some, ◌==◌, arith, inl, inr,
}
use matchmaker_platform.Schema.{Database, Party}
use matchmaker_platform.Tables.{find_party, party_of}
use matchmaker_platform.Tables.Parties.{find_party-update_ne, find_party-append_ne}
use matchmaker_platform.Party.{
  insert_party, insert_member, new_party, new_member, resize, set_party,
}
use matchmaker_platform.Party.Capacity.{
  IsConsistent, insert_member-eq-some, insert_party-eq-some, insert_party-IsNew,
  insert_member-IsConsistent, insert_member-IsAhead, grow-IsConsistent,
}
use matchmaker_platform.Party.Safety.{not_full}
use matchmaker_platform.Party.Interleaving.{
  Stage, waiting, locked, checked, admitted, ended, has_lock, is_checked, has_row, Joins, set_stage,
  to_stage, Move, take_lock, check, admit, commit, creation, commit_create, roll_back, Moves, here,
  next,
}
use matchmaker_platform.Party.Interleaving.Rights.{
  party_of-append, checked_has_lock, different, not_found, same_or_not, moved, other, exclusive,
}

module _ (hashtext : ℕ → ℕ) (player party : ℕ → ℕ) where
  -- A checked player is in no party, an admitted one has a place, and no lock is held twice.
  pub record IsSound (st : Joins) : Type 0 where
    pub consistent : IsConsistent st.db
    pub free :
        (i : ℕ) → is_checked (st.stage i) ≡ true → party_of (player i) st.db.party_members ≡ none
    pub place :
        (i : ℕ)
        → has_row (st.stage i) ≡ true
        → (p : Party) × (find_party (party i) st.db.parties ≡ some p) × (p.size < p.max_size)
    pub own_lock :
        (i j : ℕ)
        → has_lock (st.stage i) ≡ true
        → has_lock (st.stage j) ≡ true
        → player i ≡ player j
        → i ≡ j
    pub own_row :
        (i j : ℕ)
        → has_row (st.stage i) ≡ true
        → has_row (st.stage j) ≡ true
        → party i ≡ party j
        → i ≡ j

  -- What one transaction that changes its stage, and perhaps the tables, must see to.
  record IsSafeChange (st : Joins) (i : ℕ) (s : Stage) (db : Database) : Type 0 where
    consistent : IsConsistent db
    free : is_checked s ≡ true → party_of (player i) db.party_members ≡ none
    free_others :
        (j : ℕ)
        → (i == j) ≡ false
        → is_checked (st.stage j) ≡ true
        → party_of (player j) db.party_members ≡ none
    place :
        has_row s ≡ true
        → (p : Party) × (find_party (party i) db.parties ≡ some p) × (p.size < p.max_size)
    place_others :
        (j : ℕ)
        → (i == j) ≡ false
        → has_row (st.stage j) ≡ true
        → (p : Party) × (find_party (party j) db.parties ≡ some p) × (p.size < p.max_size)
    own_lock :
        has_lock s ≡ true → (j : ℕ) → has_lock (st.stage j) ≡ true → player i ≡ player j → i ≡ j
    own_row : has_row s ≡ true → (j : ℕ) → has_row (st.stage j) ≡ true → party i ≡ party j → i ≡ j

  IsSound-change :
      (st : Joins) (i : ℕ) (s : Stage) (db : Database)
      → IsSound st
      → IsSafeChange st i s db
      → IsSound (record { db = db; stage = set_stage i s st.stage })
  IsSound-change st i s db h c = record {
    consistent = c.consistent;
    free = λ j e. elim (same_or_not i j) [
      | inl q ↦ rw (sym q) (c.free (sym (ap is_checked (moved st.stage i s j q)) ∙ e))
      | inr n ↦ c.free_others j n (sym (ap is_checked (other st.stage i s j n)) ∙ e)
    ];
    place = λ j e. elim (same_or_not i j) [
      | inl q ↦ rw (sym q) (c.place (sym (ap has_row (moved st.stage i s j q)) ∙ e))
      | inr n ↦ c.place_others j n (sym (ap has_row (other st.stage i s j n)) ∙ e)
    ];
    own_lock = exclusive st.stage i s has_lock player h.own_lock c.own_lock;
    own_row = exclusive st.stage i s has_row party h.own_row c.own_row;
  }

  -- A change of stage alone.
  stage_change :
      (st : Joins) (i : ℕ) (s : Stage)
      → IsSound st
      → (is_checked s ≡ true → party_of (player i) st.db.party_members ≡ none)
      → (has_row s ≡ true
          → (p : Party) × (find_party (party i) st.db.parties ≡ some p) × (p.size < p.max_size))
      → (has_lock s ≡ true → (j : ℕ) → has_lock (st.stage j) ≡ true → player i ≡ player j → i ≡ j)
      → (has_row s ≡ true → (j : ℕ) → has_row (st.stage j) ≡ true → party i ≡ party j → i ≡ j)
      → IsSound (to_stage i s st)
  stage_change st i s h free place own_lock own_row = IsSound-change st i s st.db h (record {
    consistent = h.consistent;
    free = free;
    free_others = λ j n e. h.free j e;
    place = place;
    place_others = λ j n e. h.place j e;
    own_lock = own_lock;
    own_row = own_row;
  })

  committed :
      (st : Joins) (i now : ℕ) (db : Database)
      → IsSound st
      → st.stage i ≡ admitted
      → insert_member (new_member (party i) (player i) now false) st.db ≡ some db
      → IsSound (record {
        db = set_party (party i) (resize (λ n. n + 1) now) db;
        stage = set_stage i ended st.stage;
      })
  committed st i now db h e inserted =
      let k = party i in
      let (p, found, room) = h.place i (rw e refl) in
      let free = h.free i (rw e refl) in
      let row = new_member k (player i) now false in
      let same = insert_member-eq-some row st.db db inserted in
      IsSound-change st i ended (set_party k (resize (λ n. n + 1) now) db) h (record {
        consistent = grow-IsConsistent k now db (
            insert_member-IsAhead k (player i) now false p st.db db h.consistent free found room
              inserted);
        free = λ x. cc;
        free_others = λ j n c. rw same (
            party_of-append (player j) st.db.party_members row (h.free j c) (λ q.
              different i j n
                (h.own_lock i j (rw e refl) (checked_has_lock (st.stage j) c) (sym q))));
        place = λ x. cc;
        place_others = λ j n c.
            let (r, there, fits) = h.place j c in
            (
              r,
              rw same (
                  find_party-update_ne (party j) k (resize (λ n. n + 1) now) st.db.parties
                    (λ p. refl) (λ q. different i j n (h.own_row i j (rw e refl) c (sym q)))
                  ∙ there),
              fits,
            );
        own_lock = λ x. cc;
        own_row = λ x. cc;
      })

  created :
      (st : Joins) (i now new_id : ℕ) (region : String) (max_size : ℕ) (between db : Database)
      → IsSound st
      → 1 ≤ max_size
      → st.stage i ≡ checked
      → insert_party (new_party new_id now (player i) region max_size) st.db ≡ some between
      → insert_member (new_member new_id (player i) now true) between ≡ some db
      → IsSound (record { db = db; stage = set_stage i ended st.stage })
  created st i now new_id region max_size between db h fits e new placed =
      let p = new_party new_id now (player i) region max_size in
      let row = new_member new_id (player i) now true in
      let free = h.free i (rw e refl) in
      let (absent, grown) = insert_party-eq-some p st.db between new in
      let same = insert_member-eq-some row between db placed in
      IsSound-change st i ended db h (record {
        consistent =
            insert_member-IsConsistent new_id (player i) now between db
              (insert_party-IsNew new_id (player i) p st.db between h.consistent free refl refl fits
                new)
              placed;
        free = λ x. cc;
        free_others = λ j n c.
            rw (same, grown)
              (party_of-append (player j) st.db.party_members row (h.free j c) (λ q.
                different i j n
                  (h.own_lock i j (rw e refl) (checked_has_lock (st.stage j) c) (sym q))));
        place = λ x. cc;
        place_others = λ j n c.
            let (r, there, room) = h.place j c in
            (
              r,
              rw (same, grown)
                  (find_party-append_ne (party j) st.db.parties p absent
                      (λ q. not_found (party j) new_id st.db.parties r q there absent)
                    ∙ there),
              room,
            );
        own_lock = λ x. cc;
        own_row = λ x. cc;
      })

  Move-IsSound : {st st' : Joins} → Move hashtext player party st st' → IsSound st → IsSound st'
  Move-IsSound (take_lock st i e nobody) h =
      stage_change st i locked h (λ x. cc) (λ x. cc)
        (λ x j l q. ground (arith, nobody j, l, q, ap hashtext q)) (λ x. cc)
  Move-IsSound (check st i e free) h =
      stage_change st i checked h (λ x. free) (λ x. cc) (λ x j l q. h.own_lock i j (rw e refl) l q)
        (λ x. cc)
  Move-IsSound (admit st i p e nobody found place status) h =
      stage_change st i admitted h (λ x. h.free i (rw e refl)) (λ x. (p, found, not_full p place))
        (λ x j l q. h.own_lock i j (rw e refl) l q) (λ x j l q. ground (arith, nobody j, l, q))
  Move-IsSound (commit st i now db e inserted) h = committed st i now db h e inserted
  Move-IsSound
        (creation (commit_create st i now new_id region max_size between db fits e new placed)) h =
      created st i now new_id region max_size between db h fits e new placed
  Move-IsSound (roll_back st i) h =
      stage_change st i ended h (λ x. cc) (λ x. cc) (λ x. cc) (λ x. cc)

  Moves-IsSound :
      {start st : Joins} → IsSound start → Moves hashtext player party start st → IsSound st
  Moves-IsSound h here = h
  Moves-IsSound h (next ms m) = Move-IsSound m (Moves-IsSound h ms)

  started :
      (start : Joins) → IsConsistent start.db → ((i : ℕ) → start.stage i ≡ waiting) → IsSound start
  started start h idle = record {
    consistent = h;
    free = λ i e. cc (idle i, e);
    place = λ i e. cc (idle i, e);
    own_lock = λ i j e f q. cc (idle i, e);
    own_row = λ i j e f q. cc (idle i, e);
  }

  -- However the statements of any number of joins and creations interleave, whatever order their locks are granted
  -- in and whichever of them are rolled back: from a consistent database, and before any of them has
  -- begun, no party ever holds more members than its size says, no size passes the capacity, and no
  -- player is in two parties.
  pub Moves-IsConsistent :
      {start st : Joins}
      → IsConsistent start.db
      → ((i : ℕ) → start.stage i ≡ waiting)
      → Moves hashtext player party start st
      → IsConsistent st.db
  Moves-IsConsistent {start} h idle ms = (Moves-IsSound (started start h idle) ms).consistent
