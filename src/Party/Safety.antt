-- ===== src/Party/Safety.antt =====
-- create_party, get_party, join_party and leave_party (services/api/routes/party.py) and the
-- invariant of `Capacity`: the proofs walk the statements of each endpoint.
use matchmaker_platform.Prelude.{
  ℕ, ◌≡◌, refl, ◌<◌, Option, none, some, Bool, true, false, arith, leb, not, is_some, ◌∙◌,
}
use matchmaker_platform.Schema.{Player, Party, PartyStatus, disbanded}
use matchmaker_platform.Tables.{party_of}
use matchmaker_platform.Redis.{PartyJson, RedisServer}
use matchmaker_platform.Api.{World, Action, exception}
use matchmaker_platform.Api.Triple.{
  Triple, Triple-bind, Triple-pure, Triple-or_fail, Triple-fetch, Triple-weaken, Triple-transaction,
  Triple-handler, Triple-fail_if, Triple-execute, Triple-insert,
}
use matchmaker_platform.Api.Quiet.{Triple-quiet, broadcast-Quiet}
use matchmaker_platform.Cache.Laws.{
  cache_party-Quiet, get_cached_party-Quiet, invalidate_party_cache-Quiet,
  track_player_session-Quiet, clear_player_session-Quiet,
}
use matchmaker_platform.Party.Response.{party_response}
use matchmaker_platform.Party.{
  CreatePartyRequest, IsValidCreate, set_status, insert_member, insert_party, new_member, new_party,
  either_region, open_to_join,
}
use matchmaker_platform.Party.Capacity.{
  IsConsistent, KeepsSize, HasRoom, IsAhead, set_party-IsConsistent, delete-HasRoom,
  shrink-IsConsistent, insert_member-IsAhead, grow-IsConsistent, IsNew, insert_party-IsNew,
  insert_member-IsConsistent,
}
use matchmaker_platform.Party.Membership.{
  get_party_with_members, lock, create_rows, join_rows, leave_update, leave_rows, create_party,
  get_or_fetch, get_party, join_party, after_leave, leave_party,
}

-- Whether it returns or raises, the invariant holds afterwards.
abbrev pub Safe : {S A : Type 0} → Action S A → Type 0
Safe {S} m = (now : ℕ) → Triple {S = S} now IsConsistent m (λ _. IsConsistent) IsConsistent

pub free_of :
    {o : Option ℕ} (existing : Option ℕ) → o ≡ existing → is_some existing ≡ false → o ≡ none
free_of none e h = e
free_of (some k) e h = cc

pub not-false : (b : Bool) → not b ≡ false → b ≡ true
not-false true h = refl
not-false false h = cc

pub set_status-KeepsSize : (s : PartyStatus) (now : ℕ) → KeepsSize (set_status s now)
set_status-KeepsSize s now = record {
  same_id = λ p. refl;
  same_size = λ p. refl;
  same_max = λ p. refl;
}

pub not_full : (p : Party) → leb p.max_size p.size ≡ false → p.size < p.max_size
not_full p h = ground arith

module _ {S : Type 0} where
  pub get_party_with_members-Safe : (k : ℕ) → Safe {S = S} (get_party_with_members k)
  unfolding get_party_with_members
  get_party_with_members-Safe k now = Triple-bind (Triple-fetch _ (λ _ h. h)) λ found.
      Triple-bind (Triple-or_fail found _ (λ _ h. h.0))
        λ p. Triple-bind (Triple-fetch _ (λ _ h. h.0.0)) λ members. Triple-pure _ (λ _ h. h.0.0.0)

  lock-Safe : (q : ℕ) → Safe {S = S} (lock q)
  unfolding lock
  lock-Safe q now = Triple-execute _ (λ _ h. h) (λ w t h. h) (λ _ h. h)

  join_rows-Triple :
      (k : ℕ) (user : Player) (now : ℕ)
      → Triple {S = S} now IsConsistent (join_rows k user) (λ _. IsConsistent) (λ _. Unit)
  unfolding join_rows
  join_rows-Triple k user now =
      Triple-bind (Triple-weaken (lock-Safe user.id now) (λ _ h. h) (λ _ _ h. h) (λ _ _. tt)) λ _.
        Triple-bind (Triple-fetch _ (λ _ _. tt)) λ existing.
          Triple-bind (Triple-fail_if (is_some existing) _ (λ _ _. tt)) λ _.
            Triple-bind (Triple-fetch _ (λ _ _. tt)) λ found.
              Triple-bind (Triple-or_fail found _ (λ _ _. tt)) λ p.
                Triple-bind (Triple-fail_if (leb p.max_size p.size) _ (λ _ _. tt)) λ _.
                  Triple-bind (Triple-fail_if (not (open_to_join p.status)) _ (λ _ _. tt)) λ _.
                    Triple-bind {Q = λ _. IsAhead k}
                      (Triple-insert (λ w. insert_member (new_member k user.id w.now false) w.db)
                        (λ _ _. tt)
                        (λ w db t h e.
                          insert_member-IsAhead k user.id w.now false p w.db db h.0.0.0.0.0.0
                            (free_of existing (h.0.0.0.0.0.1) h.0.0.0.0.1) (h.0.0.0.1 ∙ h.0.0.1)
                            (not_full p h.0.1) e)
                        (λ _ _. tt))
                      λ _.
                        Triple-execute _ (λ _ _. tt) (λ w t h. grow-IsConsistent k w.now w.db h)
                          (λ _ _. tt)

  create_rows-Triple :
      (request : CreatePartyRequest) (user : Player) (new_id now : ℕ)
      → IsValidCreate request
      → Triple {S = S} now IsConsistent
          (create_rows request user new_id)
          (λ _. IsConsistent)
          (λ _. Unit)
  unfolding create_rows
  create_rows-Triple request user new_id now valid =
      let row = λ (w : World S).
        new_party new_id w.now user.id (either_region request.region user.region)
          request.max_size in
      Triple-bind (Triple-weaken (lock-Safe user.id now) (λ _ h. h) (λ _ _ h. h) (λ _ _. tt)) λ _.
        Triple-bind (Triple-fetch (λ db. party_of user.id db.party_members) (λ _ _. tt)) λ existing.
          Triple-bind (Triple-fail_if (is_some existing) _ (λ _ _. tt)) λ _.
            Triple-bind {Q = λ _. IsNew new_id user.id}
              (Triple-insert (λ w. insert_party (row w) w.db) (λ _ _. tt)
                (λ w db t h e.
                  insert_party-IsNew new_id user.id (row w) w.db db h.0.0
                    (free_of existing h.0.1 h.1) refl refl (omega arith) e)
                (λ _ _. tt))
              λ _.
                Triple-insert (λ w. insert_member (new_member new_id user.id w.now true) w.db)
                  (λ _ _. tt)
                  (λ w db t h e. insert_member-IsConsistent new_id user.id w.now w.db db h e)
                  (λ _ _. tt)

module _ (server : RedisServer) where
  open server use {State}

  pub join_party-Safe : (k : ℕ) (user : Player) → Safe (join_party server k user)
  unfolding join_party
  join_party-Safe k user now = Triple-handler _ (
      Triple-bind (Triple-transaction (join_rows-Triple k user now) (λ _ h. h) (λ _ _ h. h)) λ _.
        Triple-bind (Triple-quiet (broadcast-Quiet k _)) λ _.
          Triple-bind (Triple-quiet (invalidate_party_cache-Quiet server k)) λ _.
            Triple-bind (Triple-quiet (track_player_session-Quiet server user.id k)) λ _.
              Triple-bind (get_party_with_members-Safe k now) λ d.
                Triple-bind (Triple-quiet (cache_party-Quiet server k d))
                  λ _. Triple-pure _ (λ _ h. h))

  pub create_party-Safe :
      (request : CreatePartyRequest) (user : Player) (new_id : ℕ)
      → IsValidCreate request
      → Safe (create_party server request user new_id)
  unfolding create_party
  create_party-Safe request user new_id valid now = Triple-handler _ (
      Triple-bind
        (Triple-transaction (create_rows-Triple request user new_id now valid) (λ _ h. h)
          (λ _ _ h. h))
        λ _. Triple-bind (get_party_with_members-Safe new_id now) λ d.
          Triple-bind (Triple-quiet (cache_party-Quiet server new_id d)) λ _.
            Triple-bind (Triple-quiet (track_player_session-Quiet server user.id new_id))
              λ _. Triple-pure _ (λ _ h. h))

  get_or_fetch-Safe : (k : ℕ) (cached : Option PartyJson) → Safe (get_or_fetch server k cached)
  unfolding get_or_fetch
  get_or_fetch-Safe k (some cached) now =
      Triple-weaken (Triple-or_fail (party_response cached) exception (λ _ h. h)) (λ _ h. h)
        (λ _ _ h. h.0) (λ _ h. h)
  get_or_fetch-Safe k none now =
      Triple-bind (get_party_with_members-Safe k now)
        λ d. Triple-bind (Triple-quiet (cache_party-Quiet server k d)) λ _. Triple-pure _ (λ _ h. h)

  pub get_party-Safe : (k : ℕ) → Safe (get_party server k)
  unfolding get_party
  get_party-Safe k now = Triple-handler _ (
      Triple-bind (Triple-quiet (get_cached_party-Quiet server k))
        λ cached. get_or_fetch-Safe k cached now)

  after_leave-Safe : (k : ℕ) (user : Player) (b : Bool) → Safe (after_leave server k user b)
  unfolding after_leave
  after_leave-Safe k user true now = Triple-pure _ (λ _ h. h)
  after_leave-Safe k user false now = Triple-bind (Triple-quiet (broadcast-Quiet k _)) λ _.
      Triple-bind (Triple-quiet (invalidate_party_cache-Quiet server k)) λ _.
        Triple-bind (Triple-quiet (clear_player_session-Quiet server user.id))
          λ _. Triple-pure _ (λ _ h. h)

  leave_update-Triple :
      (k : ℕ) (disband : Bool) (now : ℕ)
      → Triple {S = State} now (HasRoom k) (leave_update k disband) (λ _. IsConsistent) IsConsistent
  unfolding leave_update
  leave_update-Triple k true now =
      Triple-execute _ (λ _ h. h.consistent)
        (λ w t h.
          set_party-IsConsistent k (set_status disbanded w.now) w.db (set_status-KeepsSize _ _)
            h.consistent)
        (λ _ h. h)
  leave_update-Triple k false now =
      Triple-execute _ (λ _ h. h.consistent) (λ w t h. shrink-IsConsistent k w.now w.db h)
        (λ _ h. h)

  leave_rows-Safe : (k : ℕ) (user : Player) → Safe {S = State} (leave_rows k user)
  unfolding leave_rows
  leave_rows-Safe k user now = Triple-bind (Triple-fetch _ (λ _ h. h)) λ member.
      Triple-bind (Triple-fail_if (not member) _ (λ _ h. h.0)) λ _.
        Triple-bind (Triple-fetch _ (λ _ h. h.0.0)) λ found.
          Triple-bind (Triple-or_fail found _ (λ _ h. h.0.0.0)) λ p.
            Triple-bind {Q = λ _. HasRoom k}
              (Triple-execute _ (λ _ h. h.0.0.0.0)
                (λ w t h.
                  delete-HasRoom k user.id w.db (h.0.0.0.1 ∙ not-false member h.0.0.1) h.0.0.0.0)
                (λ _ h. h.consistent))
              λ _. Triple-bind (leave_update-Triple k _ now) λ _. Triple-pure _ (λ _ h. h)

  pub leave_party-Safe : (k : ℕ) (user : Player) → Safe (leave_party server k user)
  unfolding leave_party
  leave_party-Safe k user now =
      Triple-handler _
        (Triple-bind (leave_rows-Safe k user now) λ disband. after_leave-Safe k user disband now)
