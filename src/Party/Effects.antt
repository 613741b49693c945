-- ===== src/Party/Effects.antt =====
-- join_party, enter_queue and leave_queue (services/api/routes/party.py): the tables before and
-- after a request.
use matchmaker_platform.Prelude.{ℕ, ◌≡◌, refl, ◌⊎◌, inl, inr}
use matchmaker_platform.Schema.{Database, Player}
use matchmaker_platform.Redis.{RedisServer}
use matchmaker_platform.Api.{World}
use matchmaker_platform.Api.Triple.{
  Triple, Triple-bind, Triple-pure, Triple-transaction, Triple-handler,
}
use matchmaker_platform.Api.Quiet.{Triple-quiet, broadcast-Quiet}
use matchmaker_platform.Api.Effect.{IsEffect, effect}
use matchmaker_platform.Cache.Laws.{
  cache_party-Quiet, invalidate_party_cache-Quiet, track_player_session-Quiet,
}
use matchmaker_platform.Party.Membership.{join_party}
use matchmaker_platform.Party.Changes.{IsJoined, join_rows-Effect, get_party_with_members-keeps}

module _ (server : RedisServer) where
  open server use {State}

  join_party-Effect :
      (k : ℕ) (user : Player) (now : ℕ) (before : Database)
      → Triple now
          (λ db. db ≡ before)
          (join_party server k user)
          (λ _. IsJoined k user before)
          (λ db. (db ≡ before) ⊎ IsJoined k user before db)
  unfolding join_party
  join_party-Effect k user now before = Triple-handler _ (
      Triple-bind
        (Triple-transaction (join_rows-Effect k user now before) (λ _ h. inl h) (λ _ _ h. inr h))
        λ _. Triple-bind (Triple-quiet (broadcast-Quiet k _)) λ _.
          Triple-bind (Triple-quiet (invalidate_party_cache-Quiet server k)) λ _.
            Triple-bind (Triple-quiet (track_player_session-Quiet server user.id k)) λ _.
              Triple-bind (get_party_with_members-keeps k now _ _ (λ _ h. inr h)) λ d.
                Triple-bind (Triple-quiet (cache_party-Quiet server k d))
                  λ _. Triple-pure _ (λ _ h. h))

  -- A join is all or nothing: without an exception, and with one unless nothing has changed, the
  -- player was in no party, the party was open with a place left, and the tables differ exactly in
  -- the new member row and the size of the party.
  pub join_party-IsEffect :
      (k : ℕ) (user : Player) (w : World State)
      → let (r, w') = join_party server k user w in IsEffect (IsJoined k user w.db) w.db r w'.db
  join_party-IsEffect k user w =
      effect w.now (IsJoined k user w.db) w.db (join_party server k user w).0
        (join_party server k user w).1 ((join_party-Effect k user w.now w.db).at w refl refl)
