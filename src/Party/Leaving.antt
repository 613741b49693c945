-- ===== src/Party/Leaving.antt =====
-- leave_party (services/api/routes/party.py), whose two statements that write run in no
-- transaction: the tables before and after a request.
use matchmaker_platform.Prelude.{
  ℕ, ◌-◌, ◌≡◌, refl, ◌∙◌, ◌⊎◌, inl, inr, Bool, true, false, not, some, if◌then◌else◌, ◌==◌, ◌||◌,
  leb,
}
use matchmaker_platform.Schema.{Database, Player, Party, disbanded}
use matchmaker_platform.Tables.{find_party, is_member, delete_member}
use matchmaker_platform.Redis.{RedisServer}
use matchmaker_platform.Api.{World, Outcome, ok, raise}
use matchmaker_platform.Api.Triple.{
  Triple, Ends, Triple-bind, Triple-pure, Triple-or_fail, Triple-fetch, Triple-weaken,
  Triple-handler, Triple-fail_if, Triple-execute,
}
use matchmaker_platform.Api.Quiet.{Triple-quiet, broadcast-Quiet}
use matchmaker_platform.Cache.Laws.{invalidate_party_cache-Quiet, clear_player_session-Quiet}
use matchmaker_platform.Party.{LeaveResult, set_party, set_status, resize}
use matchmaker_platform.Party.Safety.{not-false}
use matchmaker_platform.Party.Membership.{leave_update, leave_rows, after_leave, leave_party}

-- The member row is gone.
abbrev pub without_member : ℕ → Player → Database → Database
without_member k user db = record db { party_members = delete_member k user.id db.party_members }

-- The player was a member of the party, and is none any more; a party whose leader leaves, or whose
-- size is 1 at most, is disbanded, and of another one the size is one smaller.
pub record IsLeft (k : ℕ) (user : Player) (before after : Database) : Type 0 where
  pub member : is_member k user.id before.party_members ≡ true
  pub row : Party
  pub found : find_party k before.parties ≡ some row
  pub left_at : ℕ
  pub written : after ≡ (
      if (row.leader_id == user.id) || leb row.size 1
      then set_party k (set_status disbanded left_at) (without_member k user before)
      else set_party k (resize (λ n. n - 1) left_at) (without_member k user before))

-- Without an exception the player has left. With one, nothing has changed, or the player has left, or
-- the member row is gone and the row of the party is as it was.
abbrev pub IsLeaving : ℕ → Player → Database → Outcome LeaveResult → Database → Type 0
IsLeaving k user before (ok r) after = IsLeft k user before after
IsLeaving k user before (raise e) after =
    (after ≡ before) ⊎ (IsLeft k user before after ⊎ (after ≡ without_member k user before))

leaving :
    {S : Type 0} (now k : ℕ) (user : Player) (before : Database) (r : Outcome LeaveResult)
    (w : World S)
    → Ends now
        (λ _. IsLeft k user before)
        (λ db. (db ≡ before) ⊎ (IsLeft k user before db ⊎ (db ≡ without_member k user before)))
        r
        w
    → IsLeaving k user before r w.db
leaving now k user before (ok a) w h = h.1
leaving now k user before (raise e) w h = h.1

module _ (server : RedisServer) where
  open server use {State}

  leave_update-Effect :
      (k : ℕ) (user : Player) (p : Party) (now : ℕ) (before : Database)
      → is_member k user.id before.party_members ≡ true
      → find_party k before.parties ≡ some p
      → Triple {S = State} now
          (λ db. db ≡ without_member k user before)
          (leave_update k ((p.leader_id == user.id) || leb p.size 1))
          (λ _. IsLeft k user before)
          (λ db. IsLeft k user before db ⊎ (db ≡ without_member k user before))
  unfolding leave_update
  leave_update-Effect k user p now before member found =
      Triple-execute _ (λ _ h. inr h)
        (λ w t h. record {
          member = member;
          row = p;
          found = found;
          left_at = w.now;
          written = rw h refl;
        })
        (λ _ h. inl h)

  leave_rows-Effect :
      (k : ℕ) (user : Player) (now : ℕ) (before : Database)
      → Triple {S = State} now
          (λ db. db ≡ before)
          (leave_rows k user)
          (λ _. IsLeft k user before)
          (λ db. (db ≡ before) ⊎ (IsLeft k user before db ⊎ (db ≡ without_member k user before)))
  unfolding leave_rows
  leave_rows-Effect k user now before = Triple-bind (Triple-fetch _ (λ _ h. inl h)) λ member.
      Triple-bind (Triple-fail_if (not member) _ (λ _ h. inl h.0)) λ _.
        Triple-bind (Triple-fetch _ (λ _ h. inl h.0.0)) λ found.
          Triple-bind (Triple-or_fail found _ (λ _ h. inl h.0.0.0)) λ p.
            Triple-bind
              {Q = λ _ db.
                (is_member k user.id before.party_members ≡ true)
                × (find_party k before.parties ≡ some p)
                × (db ≡ without_member k user before)}
              (Triple-execute _ (λ _ h. inl h.0.0.0.0)
                (λ w t h.
                  let same = h.0.0.0.0 in
                  (
                    rw (← same) (h.0.0.0.1 ∙ not-false member h.0.0.1),
                    rw (← same) (h.0.1 ∙ h.1),
                    rw same refl,
                  ))
                (λ _ h. inr (inr h.2)))
              λ _.
                Triple-bind {Q = λ _. IsLeft k user before} (update_after k user p now before)
                  λ _. Triple-pure _ (λ _ h. h)
    where
      update_after :
          (k : ℕ) (user : Player) (p : Party) (now : ℕ) (before : Database)
          → Triple {S = State} now
              (λ db.
                (is_member k user.id before.party_members ≡ true)
                × (find_party k before.parties ≡ some p)
                × (db ≡ without_member k user before))
              (leave_update k ((p.leader_id == user.id) || leb p.size 1))
              (λ _. IsLeft k user before)
              (λ db.
                (db ≡ before) ⊎ (IsLeft k user before db ⊎ (db ≡ without_member k user before)))
      update_after k user p now before = record {
        at = λ w t h.
            (Triple-weaken (leave_update-Effect k user p now before h.0 h.1) (λ _ x. x) (λ _ _ x. x)
                (λ _ x. inr x)).at
              w t h.2;
      }

  after_leave-keeps :
      (k : ℕ) (user : Player) (b : Bool) (now : ℕ) (P Exc : Database → Type 0)
      → Triple now P (after_leave server k user b) (λ _. P) Exc
  unfolding after_leave
  after_leave-keeps k user true now P Exc = Triple-pure _ (λ _ h. h)
  after_leave-keeps k user false now P Exc = Triple-bind (Triple-quiet (broadcast-Quiet k _)) λ _.
      Triple-bind (Triple-quiet (invalidate_party_cache-Quiet server k)) λ _.
        Triple-bind (Triple-quiet (clear_player_session-Quiet server user.id))
          λ _. Triple-pure _ (λ _ h. h)

  leave_party-Effect :
      (k : ℕ) (user : Player) (now : ℕ) (before : Database)
      → Triple now
          (λ db. db ≡ before)
          (leave_party server k user)
          (λ _. IsLeft k user before)
          (λ db. (db ≡ before) ⊎ (IsLeft k user before db ⊎ (db ≡ without_member k user before)))
  unfolding leave_party
  leave_party-Effect k user now before = Triple-handler _ (
      Triple-bind (leave_rows-Effect k user now before)
        λ disband. after_leave-keeps k user disband now _ _)

  -- Leaving a party: without an exception the player was a member and is none any more, and the party
  -- is disbanded if its leader left or its row gave its size as 1 at most, else the size in its row is
  -- one smaller. With an exception nothing has changed, or that has happened, or the member row is
  -- gone and the row of the party is as it was.
  pub leave_party-IsLeaving :
      (k : ℕ) (user : Player) (w : World State)
      → let (r, w') = leave_party server k user w in IsLeaving k user w.db r w'.db
  leave_party-IsLeaving k user w =
      leaving w.now k user w.db (leave_party server k user w).0 (leave_party server k user w).1
        ((leave_party-Effect k user w.now w.db).at w refl refl)
