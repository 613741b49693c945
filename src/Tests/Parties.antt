-- ===== src/Tests/Parties.antt =====
-- Runs of the party endpoints, and the theorems on them at concrete parties.
use matchmaker_platform.Prelude.{
  ℕ, ◌+◌, ◌-◌, ◌++◌, ◌&&◌, ◌==◌, false, is_some, true, ◌≡◌, refl, Option, none, some, [], ◌∷◌,
  arith,
}
use matchmaker_platform.Schema.{Database, Party, PartyStatus, disbanded, queueing}
use matchmaker_platform.Tables.{
  find_party, find_player, party_of, is_member, count_members, count_player, count_ready,
  members_of, insert_by_joined, update_party, delete_member, member_mmrs, average,
}
use matchmaker_platform.Redis.Memory.{memory}
use matchmaker_platform.Api.{raise, http}
use matchmaker_platform.Api.Effect.{IsEffect}
use matchmaker_platform.Party.{
  CreatePartyRequest, QueueRequest, new_party, new_member, insert_member, resize, set_party,
}
use matchmaker_platform.Party.Interleaving.{
  Stage, has_lock, has_row, Joins, set_stage, to_stage, Move, Moves,
}
use matchmaker_platform.Party.Interleaving.Sound.{Moves-IsConsistent}
use matchmaker_platform.Party.Capacity.{IsConsistent}
use matchmaker_platform.Party.Membership.{
  create_party, get_party, join_party, leave_party, membership,
}
use matchmaker_platform.Party.Queueing.{enter_queue, queue_endpoints}
use matchmaker_platform.Party.Response.{party_response}
use matchmaker_platform.Party.Changes.{IsJoined}
use matchmaker_platform.Party.Effects.{join_party-IsEffect}
use matchmaker_platform.Party.Answers.{join_answer, join_party-answer}
use matchmaker_platform.Party.Leaving.{IsLeaving, leave_party-IsLeaving}
use matchmaker_platform.System.{Environment, Reach, Step, Reach-IsConsistent}
use matchmaker_platform.Tests.{
  alice, bob, player, no_parties, one_party, world, hundredths, calendar, hmac,
}
use matchmaker_platform.Tests.Accounts.{clear_jwt, clear_passwords, settings, message}
use matchmaker_platform.Tests.Requests.{by_time, by_rating}
use matchmaker_platform.Text.{decimal}

abbrev env : Environment
env = record {
  server = memory;
  jsonb_as_object = true;
  floats = hundredths;
  calendar = calendar;
  hmac = hmac;
  id_text = decimal;
  jwt = clear_jwt;
  settings = settings;
  passwords = clear_passwords;
  message = message;
  by_time = by_time;
  by_rating = by_rating;
}

abbrev request : CreatePartyRequest
request = record { max_size = 2; region = none }

abbrev ranked : QueueRequest
ranked = record { mode = "ranked"; team_size = 1 }

abbrev queued_party : Database
queued_party = record one_party {
  parties =
      record (new_party 10 0 1 "us-west" 2) { status = queueing; queue_mode = some "ranked" } ∷ [];
}

abbrev status_of : Option Party → Option PartyStatus
status_of none = none
status_of (some p) = some p.status

no_parties-IsConsistent : IsConsistent no_parties
unfolding find_party count_members count_player
no_parties-IsConsistent = record { fits = λ k. refl; one_party = λ q. omega arith }

Reach-IsConsistent_example :
    IsConsistent
      (join_party memory 10 bob (create_party memory request alice 10 (world no_parties)).1).1.db
Reach-IsConsistent_example = Reach-IsConsistent env no_parties-IsConsistent (
    Reach.next
      (Reach.next Reach.here
        (Step.create (world no_parties) request alice 10 (omega arith, omega arith)))
      (Step.join (create_party memory request alice 10 (world no_parties)).1 10 bob))

join_party-IsEffect_example :
    let (r, w') = join_party memory 10 bob (world one_party) in
    IsEffect (IsJoined 10 bob one_party) one_party r w'.db
join_party-IsEffect_example = join_party-IsEffect memory 10 bob (world one_party)

leave_party-IsLeaving_example :
    let (r, w') = leave_party memory 10 alice (world one_party) in
    IsLeaving 10 alice one_party r w'.db
leave_party-IsLeaving_example = leave_party-IsLeaving memory 10 alice (world one_party)

bob_there : is_some (find_player bob.id one_party.players) ≡ true
unfolding find_player
bob_there = refl

join_party-answer_example :
    (join_party memory 10 bob (world one_party)).0 ≡ join_answer 10 bob 100 one_party
join_party-answer_example = join_party-answer memory 10 bob (world one_party) refl bob_there

-- The second place is taken, and a third player is turned away.
full_party :
    let w = (join_party memory 10 bob (world one_party)).1 in
    (count_members 10 w.db.party_members ≡ 2)
    × ((join_party memory 10 (player 3 "carol") w).0 ≡ raise (http 400 "Party is full"))
unfolding membership find_party find_player party_of is_member count_members members_of
    insert_by_joined update_party
full_party = (refl, refl)

-- A party that its leader has disbanded can still be queued.
queue_disbanded :
    let w = (leave_party memory 10 alice (world one_party)).1 in
    let v = (enter_queue memory 10 ranked alice w).1 in
    (status_of (find_party 10 w.db.parties) ≡ some disbanded)
    × (status_of (find_party 10 v.db.parties) ≡ some queueing)
unfolding queue_endpoints find_party find_player party_of is_member count_members count_ready
    members_of insert_by_joined update_party delete_member member_mmrs average
queue_disbanded = (refl, refl)

-- After its leader has disbanded a party, get_party still returns it as it was cached.
stale_party :
    let w = (get_party memory 10 (world one_party)).1 in
    let v = (leave_party memory 10 alice w).1 in
    ((get_party memory 10 v).0 ≡ (get_party memory 10 (world one_party)).0)
    × (status_of (find_party 10 v.db.parties) ≡ some disbanded)
unfolding membership find_party find_player party_of is_member count_members members_of
    insert_by_joined update_party delete_member party_response
stale_party = (refl, refl)

-- A party of three, which Bob leaves twice at once: both requests have found him among the members
-- before either deletes him, and both then count the party down.
abbrev trio : Database
trio = record one_party {
  parties = record (new_party 10 0 1 "us-west" 3) { size = 3 } ∷ [];
  party_members = new_member 10 1 0 true ∷ new_member 10 2 0 true ∷ new_member 10 3 0 true ∷ [];
}

abbrev without_bob : Database → Database
without_bob db = record db { party_members = delete_member 10 2 db.party_members }

abbrev one_fewer : Database → Database
one_fewer = set_party 10 (resize (λ n. n - 1) 100)

abbrev left_twice : Database
left_twice = one_fewer (one_fewer (without_bob (without_bob trio)))

abbrev size_of : Option Party → Option ℕ
size_of none = none
size_of (some p) = some p.size

leave_party_twice :
    (is_member 10 2 trio.party_members ≡ true)
    × (size_of (find_party 10 left_twice.parties) ≡ some 1)
    × (◌≡◌ {A = ℕ} (count_members 10 left_twice.party_members) 2)
unfolding is_member find_party update_party delete_member count_members
leave_party_twice = (refl, refl, refl)

-- Bob takes the one free place of party 10, while another transaction waits.
abbrev joiner : ℕ → ℕ
joiner i = i + 2

abbrev into_party : ℕ → ℕ
into_party i = 10

abbrev before_joins : Joins
before_joins = record { db = one_party; stage = λ i. Stage.waiting }

abbrev bob_joined : Database
bob_joined =
    set_party 10 (resize (λ n. n + 1) 100) (record one_party {
      party_members = one_party.party_members ++ new_member 10 2 100 false ∷ [];
    })

abbrev locked_first : Joins
locked_first = to_stage 0 Stage.locked before_joins

abbrev checked_first : Joins
checked_first = to_stage 0 Stage.checked locked_first

abbrev both_locked : Joins
both_locked = to_stage 1 Stage.locked checked_first

abbrev admitted_first : Joins
admitted_first = to_stage 0 Stage.admitted both_locked

abbrev after_first : Joins
after_first = record { db = bob_joined; stage = set_stage 0 Stage.ended admitted_first.stage }

nobody_else : (j : ℕ) → (has_lock (checked_first.stage j) && j + 2 == 3) ≡ false
nobody_else j = ground arith

no_row_held : (j : ℕ) → (has_row (both_locked.stage j) && into_party j == into_party 0) ≡ false
no_row_held j = ground arith

joins : Moves (λ q. q) joiner into_party before_joins after_first
unfolding party_of find_party insert_member is_member find_player
joins =
    Moves.next
      (Moves.next
        (Moves.next
          (Moves.next (Moves.next Moves.here (Move.take_lock before_joins 0 refl (λ j. refl)))
            (Move.check locked_first 0 refl refl))
          (Move.take_lock checked_first 1 refl nobody_else))
        (Move.admit both_locked 0 (new_party 10 0 1 "us-west" 2) refl no_row_held refl refl refl))
      (Move.commit admitted_first 0 100 _ refl refl)

one_party-IsConsistent : IsConsistent one_party
unfolding find_party count_members count_player
one_party-IsConsistent = record { fits = λ k. ground arith; one_party = λ q. ground arith }

Moves-IsConsistent_example : IsConsistent bob_joined
Moves-IsConsistent_example =
    Moves-IsConsistent (λ q. q) joiner into_party one_party-IsConsistent (λ i. refl) joins
