-- ===== src/Party/Changes.antt =====
-- What the statements of join_party, enter_queue and leave_queue change, when they all go through.
use matchmaker_platform.Prelude.{
  ℕ, ◌+◌, ◌<◌, ◌≡◌, refl, ap, ◌∙◌, ◌⊎◌, inl, inr, Bool, true, false, not, none, some, [], ◌∷◌, ◌++◌,
  arith, leb, ◌==◌, is_some,
}
use matchmaker_platform.Schema.{Database, Player, Party, queueing}
use matchmaker_platform.Tables.{
  find_party, party_of, count_members, count_ready, member_mmrs, average,
}
use matchmaker_platform.Api.Triple.{
  Triple, Triple-bind, Triple-pure, Triple-or_fail, Triple-fetch, Triple-fail_if, Triple-execute,
  Triple-insert,
}
use matchmaker_platform.Party.{
  QueueRequest, insert_member, new_member, set_party, resize, open_to_join, is_queueing,
}
use matchmaker_platform.Party.Safety.{free_of, not-false, not_full}
use matchmaker_platform.Party.Membership.{get_party_with_members, lock, join_rows}
use matchmaker_platform.Party.Queueing.{enqueue, dequeue, enqueue_rows, dequeue_rows, ready_stats}

insert_member-same :
    (k q now : ℕ) (ready : Bool) (db db' : Database)
    → insert_member (new_member k q now ready) db ≡ some db'
    → db' ≡ record db { party_members = db.party_members ++ new_member k q now ready ∷ [] }
unfolding insert_member
insert_member-same k q now ready db db' e = ground arith

-- The player was in no party, the party was open and had a place, and the tables differ in the
-- new member, who is not ready, and in the size of the party.
pub record IsJoined (k : ℕ) (user : Player) (before after : Database) : Type 0 where
  pub free : party_of user.id before.party_members ≡ none
  pub row : Party
  pub found : find_party k before.parties ≡ some row
  pub place : row.size < row.max_size
  pub open_status : open_to_join row.status ≡ true
  pub joined_at : ℕ
  pub written :
      after
      ≡ set_party k (resize (λ n. n + 1) joined_at) (record before {
        party_members = before.party_members ++ new_member k user.id joined_at false ∷ [];
      })

-- The leader of a party whose members are all ready has queued it: the row has the mode, the team
-- size and the average rating of the members.
pub record IsQueued (k : ℕ) (request : QueueRequest) (user : Player) (before after : Database)
    : Type 0 where
  pub row : Party
  pub found : find_party k before.parties ≡ some row
  pub leader : (row.leader_id == user.id) ≡ true
  pub all_ready :
      (count_ready k before.party_members == count_members k before.party_members) ≡ true
  pub queued_at : ℕ
  pub written :
      after
      ≡ set_party k
          (enqueue request (average (member_mmrs k before.players before.party_members)) queued_at)
          before

-- The leader of a party in the queue has taken it out.
pub record IsDequeued (k : ℕ) (user : Player) (before after : Database) : Type 0 where
  pub row : Party
  pub found : find_party k before.parties ≡ some row
  pub leader : (row.leader_id == user.id) ≡ true
  pub was_queueing : row.status ≡ queueing
  pub left_at : ℕ
  pub written : after ≡ set_party k (dequeue left_at) before

queueing_of : (p : Party) → not (is_queueing p.status) ≡ false → p.status ≡ queueing
queueing_of p h = ground arith

module _ {S : Type 0} where
  pub join_rows-Effect :
      (k : ℕ) (user : Player) (now : ℕ) (before : Database)
      → Triple {S = S} now
          (λ db. db ≡ before)
          (join_rows k user)
          (λ _. IsJoined k user before)
          (λ _. Unit)
  unfolding join_rows lock
  join_rows-Effect k user now before =
      Triple-bind {Q = λ _ db. db ≡ before} (Triple-execute _ (λ _ _. tt) (λ w t h. h) (λ _ _. tt))
        λ _. Triple-bind (Triple-fetch _ (λ _ _. tt)) λ existing.
          Triple-bind (Triple-fail_if (is_some existing) _ (λ _ _. tt)) λ _.
            Triple-bind (Triple-fetch _ (λ _ _. tt)) λ found.
              Triple-bind (Triple-or_fail found _ (λ _ _. tt)) λ p.
                Triple-bind (Triple-fail_if (leb p.max_size p.size) _ (λ _ _. tt)) λ _.
                  Triple-bind (Triple-fail_if (not (open_to_join p.status)) _ (λ _ _. tt)) λ _.
                    Triple-bind
                      {Q = λ _ db.
                        (party_of user.id before.party_members ≡ none)
                        × (find_party k before.parties ≡ some p)
                        × (p.size < p.max_size)
                        × (open_to_join p.status ≡ true)
                        × (db ≡ record before {
                          party_members =
                              before.party_members ++ new_member k user.id now false ∷ [];
                        })}
                      (Triple-insert (λ w. insert_member (new_member k user.id w.now false) w.db)
                        (λ _ _. tt)
                        (λ w db t h e.
                          let same = h.0.0.0.0.0.0 in
                          (
                            rw (← same) (free_of existing h.0.0.0.0.0.1 h.0.0.0.0.1),
                            rw (← same) (h.0.0.0.1 ∙ h.0.0.1),
                            not_full p h.0.1,
                            not-false _ h.1,
                            rw (← same, ← t) (insert_member-same k user.id w.now false w.db db e),
                          ))
                        (λ _ _. tt))
                      λ _.
                        Triple-execute _ (λ _ _. tt)
                          (λ w t h. record {
                            free = h.0;
                            row = p;
                            found = h.1;
                            place = h.2;
                            open_status = h.3;
                            joined_at = now;
                            written = rw (t, h.4) refl;
                          })
                          (λ _ _. tt)

  pub enqueue_rows-Effect :
      (k : ℕ) (request : QueueRequest) (user : Player) (now : ℕ) (before : Database)
      → Triple {S = S} now
          (λ db. db ≡ before)
          (enqueue_rows k request user)
          (λ _. IsQueued k request user before)
          (λ db. (db ≡ before) ⊎ IsQueued k request user before db)
  unfolding enqueue_rows
  enqueue_rows-Effect k request user now before =
      Triple-bind (Triple-fetch _ (λ _ h. inl h)) λ found.
        Triple-bind (Triple-or_fail found _ (λ _ h. inl h.0)) λ p.
          Triple-bind (Triple-fail_if (not (p.leader_id == user.id)) _ (λ _ h. inl h.0.0)) λ _.
            Triple-bind (Triple-fetch (ready_stats k) (λ _ h. inl h.0.0.0)) λ counts.
              Triple-bind (Triple-fail_if (not (counts.1 == counts.0)) _ (λ _ h. inl h.0.0.0.0))
                λ _. Triple-bind (Triple-fetch _ (λ _ h. inl h.0.0.0.0.0)) λ avg.
                  Triple-bind {Q = λ _. IsQueued k request user before}
                    (Triple-execute _ (λ _ h. inl h.0.0.0.0.0.0)
                      (λ w t h.
                        let same = h.0.0.0.0.0.0 in
                        record {
                          row = p;
                          found = rw (← same) (h.0.0.0.0.0.1 ∙ h.0.0.0.0.1);
                          leader = not-false _ h.0.0.0.1;
                          all_ready =
                              rw (← same) (ap (λ c. c.1 == c.0) h.0.0.1 ∙ not-false _ h.0.1);
                          queued_at = w.now;
                          written = rw (← same, h.1) refl;
                        })
                      (λ _ h. inr h))
                    λ _. Triple-pure _ (λ _ h. h)

  pub dequeue_rows-Effect :
      (k : ℕ) (user : Player) (now : ℕ) (before : Database)
      → Triple {S = S} now
          (λ db. db ≡ before)
          (dequeue_rows k user)
          (λ _. IsDequeued k user before)
          (λ db. (db ≡ before) ⊎ IsDequeued k user before db)
  unfolding dequeue_rows
  dequeue_rows-Effect k user now before = Triple-bind (Triple-fetch _ (λ _ h. inl h)) λ found.
      Triple-bind (Triple-or_fail found _ (λ _ h. inl h.0)) λ p.
        Triple-bind (Triple-fail_if (not (p.leader_id == user.id)) _ (λ _ h. inl h.0.0)) λ _.
          Triple-bind (Triple-fail_if (not (is_queueing p.status)) _ (λ _ h. inl h.0.0.0)) λ _.
            Triple-bind {Q = λ _. IsDequeued k user before}
              (Triple-execute _ (λ _ h. inl h.0.0.0.0)
                (λ w t h.
                  let same = h.0.0.0.0 in
                  record {
                    row = p;
                    found = rw (← same) (h.0.0.0.1 ∙ h.0.0.1);
                    leader = not-false _ h.0.1;
                    was_queueing = queueing_of p h.1;
                    left_at = w.now;
                    written = rw same refl;
                  })
                (λ _ h. inr h))
              λ _. Triple-pure _ (λ _ h. h)

  pub get_party_with_members-keeps :
      (k now : ℕ) (P Exc : Database → Type 0)
      → ((db : Database) → P db → Exc db)
      → Triple {S = S} now P (get_party_with_members k) (λ _. P) Exc
  unfolding get_party_with_members
  get_party_with_members-keeps k now P Exc x = Triple-bind (Triple-fetch _ x) λ found.
      Triple-bind (Triple-or_fail found _ (λ _ h. x _ h.0)) λ p.
        Triple-bind (Triple-fetch _ (λ _ h. x _ h.0.0)) λ members. Triple-pure _ (λ _ h. h.0.0.0)
