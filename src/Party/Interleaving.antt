-- ===== src/Party/Interleaving.antt =====
-- The transactions of join_party and create_party (services/api/routes/party.py) while several of
-- them are at work: each statement that reads is a step of its own. PostgreSQL runs them at READ COMMITTED: a statement sees what
-- is committed, the writes of a transaction are seen when it commits, and the advisory lock and the
-- lock of FOR UPDATE are held until it ends. So what a transaction inserts and updates is one step, with
-- its COMMIT.
pub mod Rights
pub mod Sound
use matchmaker_platform.Prelude.{
  ℕ, String, ◌≤◌, ◌+◌, ◌<◌, ◌≡◌, refl, sym, ap, ◌∙◌, ◌≢◌, Bool, true, false, ◌&&◌, Option, none,
  some, List, [], ◌∷◌, ◌++◌, ◌==◌, leb, if◌then◌else◌, arith, inl, inr, ◌⊎◌, Bool-cases,
}
use matchmaker_platform.Schema.{Database, Party, PartyMember}
use matchmaker_platform.Tables.{find_party, party_of, update_party}
use matchmaker_platform.Tables.Parties.{find_party-update_ne}
use matchmaker_platform.Party.{
  insert_party, insert_member, new_party, new_member, resize, set_party, open_to_join,
}
use matchmaker_platform.Party.Capacity.{
  IsConsistent, insert_member-eq-some, insert_member-IsAhead, grow-IsConsistent,
}
use matchmaker_platform.Party.Safety.{not_full}

-- How far a transaction is: it waits for pg_advisory_xact_lock, it has the lock, it has seen that the
-- player is in no party, it has the row of the party and has found a place in it, it has ended.
pub data Stage : Type 0 where
  waiting locked checked admitted ended : Stage

abbrev pub has_lock : Stage → Bool
has_lock waiting = false
has_lock locked = true
has_lock checked = true
has_lock admitted = true
has_lock ended = false

abbrev pub is_checked : Stage → Bool
is_checked checked = true
is_checked admitted = true
is_checked _ = false

abbrev pub has_row : Stage → Bool
has_row admitted = true
has_row _ = false

-- What is committed, and the stage of each transaction.
pub record Joins : Type 0 where
  pub db : Database
  pub stage : ℕ → Stage

abbrev pub set_stage : ℕ → Stage → (ℕ → Stage) → ℕ → Stage
set_stage i s f j = if i == j then s else f j

abbrev pub to_stage : ℕ → Stage → Joins → Joins
to_stage i s st = record st { stage = set_stage i s st.stage }

-- `player` and `party` say what each transaction is for; `hashtext` is PostgreSQL's.
module _ (hashtext : ℕ → ℕ) (player party : ℕ → ℕ) where
  -- What the transaction of create_party inserts after the check, with its COMMIT.
  pub data Creation : Joins → Joins → Type 0 where
    commit_create :
        (st : Joins) (i now new_id : ℕ) (region : String) (max_size : ℕ) (between db : Database)
        → 1 ≤ max_size
        → st.stage i ≡ checked
        → insert_party (new_party new_id now (player i) region max_size) st.db ≡ some between
        → insert_member (new_member new_id (player i) now true) between ≡ some db
        → Creation st (record { db = db; stage = set_stage i ended st.stage })

  -- The statements of join_party.
  pub data Move : Joins → Joins → Type 0 where
    take_lock :
        (st : Joins) (i : ℕ)
        → st.stage i ≡ waiting
        → ((j : ℕ) → (has_lock (st.stage j) && hashtext (player j) == hashtext (player i)) ≡ false)
        → Move st (to_stage i locked st)
    check :
        (st : Joins) (i : ℕ)
        → st.stage i ≡ locked
        → party_of (player i) st.db.party_members ≡ none
        → Move st (to_stage i checked st)
    admit :
        (st : Joins) (i : ℕ) (p : Party)
        → st.stage i ≡ checked
        → ((j : ℕ) → (has_row (st.stage j) && party j == party i) ≡ false)
        → find_party (party i) st.db.parties ≡ some p
        → leb p.max_size p.size ≡ false
        → open_to_join p.status ≡ true
        → Move st (to_stage i admitted st)
    commit :
        (st : Joins) (i now : ℕ) (db : Database)
        → st.stage i ≡ admitted
        → insert_member (new_member (party i) (player i) now false) st.db ≡ some db
        → Move st (record {
          db = set_party (party i) (resize (λ n. n + 1) now) db;
          stage = set_stage i ended st.stage;
        })
    -- The transaction of create_party has the same two first statements.
    creation : {st st' : Joins} → Creation st st' → Move st st'
    -- a check that fails, a fault, or a violated constraint
    roll_back : (st : Joins) (i : ℕ) → Move st (to_stage i ended st)

  pub data Moves (start : Joins) : Joins → Type 0 where
    here : Moves start start
    next : {st st' : Joins} → Moves start st → Move st st' → Moves start st'
