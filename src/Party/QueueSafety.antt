-- ===== src/Party/QueueSafety.antt =====
-- toggle_ready, enter_queue and leave_queue (services/api/routes/party.py) and the invariant of
-- `Capacity`.
use matchmaker_platform.Prelude.{ℕ, refl, Option, not, ◌==◌}
use matchmaker_platform.Prelude.Int.{ℤ}
use matchmaker_platform.Schema.{Player}
use matchmaker_platform.Redis.{RedisServer}
use matchmaker_platform.Api.Triple.{
  Triple-bind, Triple-pure, Triple-or_fail, Triple-fetch, Triple-handler, Triple-fail_if,
  Triple-execute, Triple-update,
}
use matchmaker_platform.Api.Quiet.{Triple-quiet, broadcast-Quiet}
use matchmaker_platform.Cache.Laws.{
  cache_party-Quiet, invalidate_party_cache-Quiet, set_ready_check_timer-Quiet,
  clear_ready_check_timer-Quiet,
}
use matchmaker_platform.Events.Laws.{publish_queue_enter-Quiet, publish_queue_leave-Quiet}
use matchmaker_platform.Party.{QueueRequest, touch, is_queueing}
use matchmaker_platform.Party.Capacity.{KeepsSize, set_party-IsConsistent, toggle-IsConsistent}
use matchmaker_platform.Party.Queueing.{
  enqueue, dequeue, toggle_returning, enqueue_rows, dequeue_rows, toggle_ready, enter_queue,
  leave_queue,
}
use matchmaker_platform.Party.Safety.{Safe, get_party_with_members-Safe}

touch-KeepsSize : (now : ℕ) → KeepsSize (touch now)
touch-KeepsSize now = record { same_id = λ p. refl; same_size = λ p. refl; same_max = λ p. refl }

enqueue-KeepsSize : (r : QueueRequest) (avg : Option ℤ) (now : ℕ) → KeepsSize (enqueue r avg now)
enqueue-KeepsSize r avg now = record {
  same_id = λ p. refl;
  same_size = λ p. refl;
  same_max = λ p. refl;
}

dequeue-KeepsSize : (now : ℕ) → KeepsSize (dequeue now)
dequeue-KeepsSize now = record { same_id = λ p. refl; same_size = λ p. refl; same_max = λ p. refl }

module _ {S : Type 0} where
  toggle_returning-Safe : (k q : ℕ) → Safe {S = S} (toggle_returning k q)
  unfolding toggle_returning
  toggle_returning-Safe k q now =
      Triple-update _ (λ _ h. h) (λ w t h. toggle-IsConsistent k q w.db h) (λ _ h. h)

  enqueue_rows-Safe :
      (k : ℕ) (request : QueueRequest) (user : Player) → Safe {S = S} (enqueue_rows k request user)
  unfolding enqueue_rows
  enqueue_rows-Safe k request user now = Triple-bind (Triple-fetch _ (λ _ h. h)) λ found.
      Triple-bind (Triple-or_fail found _ (λ _ h. h.0)) λ p.
        Triple-bind (Triple-fail_if (not (p.leader_id == user.id)) _ (λ _ h. h.0.0)) λ _.
          Triple-bind (Triple-fetch _ (λ _ h. h.0.0.0)) λ counts.
            Triple-bind (Triple-fail_if (not (counts.1 == counts.0)) _ (λ _ h. h.0.0.0.0)) λ _.
              Triple-bind (Triple-fetch _ (λ _ h. h.0.0.0.0.0)) λ avg.
                Triple-bind
                  (Triple-execute _ (λ _ h. h.0.0.0.0.0.0)
                    (λ w t h.
                      set_party-IsConsistent k (enqueue request avg w.now) w.db
                        (enqueue-KeepsSize request avg w.now) h.0.0.0.0.0.0)
                    (λ _ h. h))
                  λ _. Triple-pure _ (λ _ h. h)

  dequeue_rows-Safe : (k : ℕ) (user : Player) → Safe {S = S} (dequeue_rows k user)
  unfolding dequeue_rows
  dequeue_rows-Safe k user now = Triple-bind (Triple-fetch _ (λ _ h. h)) λ found.
      Triple-bind (Triple-or_fail found _ (λ _ h. h.0)) λ p.
        Triple-bind (Triple-fail_if (not (p.leader_id == user.id)) _ (λ _ h. h.0.0)) λ _.
          Triple-bind (Triple-fail_if (not (is_queueing p.status)) _ (λ _ h. h.0.0.0)) λ _.
            Triple-bind
              (Triple-execute _ (λ _ h. h.0.0.0.0)
                (λ w t h.
                  set_party-IsConsistent k (dequeue w.now) w.db (dequeue-KeepsSize w.now) h.0.0.0.0)
                (λ _ h. h))
              λ _. Triple-pure _ (λ _ h. h)

module _ (server : RedisServer) where
  open server use {State}

  pub toggle_ready-Safe : (k : ℕ) (user : Player) → Safe (toggle_ready server k user)
  unfolding toggle_ready
  toggle_ready-Safe k user now = Triple-handler _ (
      Triple-bind (toggle_returning-Safe k user.id now) λ result.
        Triple-bind (Triple-or_fail result _ (λ _ h. h)) λ is_ready.
          Triple-bind (Triple-fetch _ (λ _ h. h.0)) λ counts.
            Triple-bind (Triple-fetch _ (λ _ h. h.0.0)) λ names.
              Triple-bind
                (Triple-execute _ (λ _ h. h.0.0.0)
                  (λ w t h.
                    set_party-IsConsistent k (touch w.now) w.db (touch-KeepsSize w.now) h.0.0.0)
                  (λ _ h. h))
                λ _. Triple-bind (Triple-quiet (broadcast-Quiet k _)) λ _.
                  Triple-bind (Triple-quiet (invalidate_party_cache-Quiet server k))
                    λ _. Triple-pure _ (λ _ h. h))

  pub enter_queue-Safe :
      (k : ℕ) (request : QueueRequest) (user : Player) → Safe (enter_queue server k request user)
  unfolding enter_queue
  enter_queue-Safe k request user now = Triple-handler _ (
      Triple-bind (enqueue_rows-Safe k request user now) λ read.
        Triple-bind (Triple-quiet (publish_queue_enter-Quiet k _ _ _ _ _)) λ _.
          Triple-bind (Triple-quiet (broadcast-Quiet k _)) λ _.
            Triple-bind (Triple-quiet (invalidate_party_cache-Quiet server k)) λ _.
              Triple-bind (Triple-quiet (set_ready_check_timer-Quiet server k 30)) λ _.
                Triple-bind (get_party_with_members-Safe k now) λ d.
                  Triple-bind (Triple-quiet (cache_party-Quiet server k d))
                    λ _. Triple-pure _ (λ _ h. h))

  pub leave_queue-Safe : (k : ℕ) (user : Player) → Safe (leave_queue server k user)
  unfolding leave_queue
  leave_queue-Safe k user now = Triple-handler _ (
      Triple-bind (dequeue_rows-Safe k user now) λ p.
        Triple-bind (Triple-quiet (publish_queue_leave-Quiet k _ _)) λ _.
          Triple-bind (Triple-quiet (broadcast-Quiet k _)) λ _.
            Triple-bind (Triple-quiet (invalidate_party_cache-Quiet server k)) λ _.
              Triple-bind (Triple-quiet (clear_ready_check_timer-Quiet server k)) λ _.
                Triple-bind (get_party_with_members-Safe k now) λ d.
                  Triple-bind (Triple-quiet (cache_party-Quiet server k d))
                    λ _. Triple-pure _ (λ _ h. h))
