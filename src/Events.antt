-- ===== src/Events.antt =====
-- services/api/utils/nats_events.py: events for the matchmaker; no endpoint calls the two publishers
-- on parties. Every publisher catches every exception, also the RuntimeError of `get_nats` without a client.
pub mod Laws
use matchmaker_platform.Prelude.{
  ℕ, String, Bool, true, false, Option, none, some, List, [], ◌∷◌, ◌++◌, if◌then◌else◌,
}
use matchmaker_platform.Prelude.Int.{ℤ}
use matchmaker_platform.Text.{Text, codes}
use matchmaker_platform.Api.{
  QueueEvent, queue_enter, queue_leave, party_disbanded, party_updated, World, Action, ok,
  fault_now, later,
}

-- nats.publish(subject, event)
unfoldable pub publish : {S : Type 0} → Text → QueueEvent → Action S (Unit {0})
publish subject event w =
    let next = record w { faults = later w.faults } in
    (
      ok tt,
      if w.nats
          then (if fault_now w.faults
              then next
              else record next { published = w.published ++ (subject, event) ∷ [] })
          else w,
    )

-- f"matchmaker.queue.{mode}.{region}"
abbrev pub queue_subject : String → String → Text
queue_subject mode region = codes "matchmaker.queue." ++ (codes mode ++ (codes "." ++ codes region))

unfoldable pub publish_queue_enter :
    {S : Type 0} → ℕ → String → ℕ → Option ℤ → String → ℕ → Action S (Unit {0})
unfolding publish
publish_queue_enter party_id mode team_size avg_mmr region party_size =
    publish (queue_subject mode region)
      (queue_enter party_id mode team_size avg_mmr region party_size)

unfoldable pub publish_queue_leave : {S : Type 0} → ℕ → String → String → Action S (Unit {0})
unfolding publish
publish_queue_leave party_id mode region =
    publish (queue_subject mode region) (queue_leave party_id mode region)

abbrev pub party_subject : Text
party_subject = codes "party.events"

unfoldable pub publish_party_disbanded : {S : Type 0} → ℕ → String → Action S (Unit {0})
unfolding publish
publish_party_disbanded party_id reason = publish party_subject (party_disbanded party_id reason)

-- data or {}
abbrev or_empty : Option String → String
or_empty none = "{}"
or_empty (some data_text) = data_text

unfoldable pub publish_party_updated :
    {S : Type 0} → ℕ → String → Option String → Action S (Unit {0})
unfolding publish
publish_party_updated party_id update_type data_text =
    publish party_subject (party_updated party_id update_type (or_empty data_text))
