-- ===== src/Tables/Members.antt =====
-- Laws of the statements on game.party_member.
use matchmaker_platform.Prelude.{
  ℕ, ◌+◌, ◌≤◌, ◌≡◌, ◌≢◌, none, List, [], ◌∷◌, ◌++◌, true, false, arith, ◌==◌, if◌then◌else◌,
}
use matchmaker_platform.Schema.{PartyMember}
use matchmaker_platform.Tables.{
  party_of, is_member, delete_member, toggle_member, count_members, count_ready, count_player,
}

pub count_members-append :
    (k : ℕ) (ms : List PartyMember) (m : PartyMember)
    → count_members k (ms ++ m ∷ []) ≡ count_members k ms + (if m.party_id == k then 1 else 0)
unfolding count_members
count_members-append k [] m = ground arith
count_members-append k (x ∷ ms) m = ground (arith, count_members-append k ms m)

pub count_player-append :
    (q : ℕ) (ms : List PartyMember) (m : PartyMember)
    → count_player q (ms ++ m ∷ []) ≡ count_player q ms + (if m.player_id == q then 1 else 0)
unfolding count_player
count_player-append q [] m = ground arith
count_player-append q (x ∷ ms) m = ground (arith, count_player-append q ms m)

pub count_player_of_none :
    (q : ℕ) (ms : List PartyMember) → party_of q ms ≡ none → count_player q ms ≡ 0
unfolding count_player party_of
count_player_of_none q [] h = omega arith
count_player_of_none q (x ∷ ms) h = ground (arith, count_player_of_none q ms)

pub count_members-delete-le :
    (j k q : ℕ) (ms : List PartyMember)
    → count_members j (delete_member k q ms) ≤ count_members j ms
unfolding count_members delete_member
count_members-delete-le j k q [] = omega arith
count_members-delete-le j k q (x ∷ ms) = ground (arith, count_members-delete-le j k q ms)

pub count_player-delete-le :
    (p k q : ℕ) (ms : List PartyMember) → count_player p (delete_member k q ms) ≤ count_player p ms
unfolding count_player delete_member
count_player-delete-le p k q [] = omega arith
count_player-delete-le p k q (x ∷ ms) = ground (arith, count_player-delete-le p k q ms)

-- Deleting from one party leaves the count of every other party.
pub count_members-delete_ne :
    (j k q : ℕ) (ms : List PartyMember)
    → j ≢ k
    → count_members j (delete_member k q ms) ≡ count_members j ms
unfolding count_members delete_member
count_members-delete_ne j k q [] h = omega arith
count_members-delete_ne j k q (x ∷ ms) h = ground (arith, count_members-delete_ne j k q ms)

pub count_members-delete_lt :
    (k q : ℕ) (ms : List PartyMember)
    → is_member k q ms ≡ true
    → count_members k (delete_member k q ms) + 1 ≤ count_members k ms
unfolding count_members delete_member is_member
count_members-delete_lt k q [] h = cc
count_members-delete_lt k q (x ∷ ms) h =
    ground (arith, count_members-delete_lt k q ms, count_members-delete-le k k q ms)

pub not_member_of_count :
    (k q : ℕ) (ms : List PartyMember) → count_player q ms ≡ 0 → is_member k q ms ≡ false
unfolding count_player is_member
not_member_of_count k q [] h = ground arith
not_member_of_count k q (x ∷ ms) h = ground (arith, not_member_of_count k q ms)

pub delete_member_absent :
    (k q : ℕ) (ms : List PartyMember) → count_player q ms ≡ 0 → delete_member k q ms ≡ ms
unfolding count_player delete_member
delete_member_absent k q [] h = ground arith
delete_member_absent k q (x ∷ ms) h = ground (arith, delete_member_absent k q ms)

-- Where a player has one row at most, deleting it takes one from the count.
pub count_members-delete :
    (k q : ℕ) (ms : List PartyMember)
    → is_member k q ms ≡ true
    → count_player q ms ≤ 1
    → count_members k (delete_member k q ms) + 1 ≡ count_members k ms
unfolding count_members delete_member is_member count_player
count_members-delete k q [] h one = cc
count_members-delete k q (x ∷ ms) h one =
    ground (arith, count_members-delete k q ms, delete_member_absent k q ms)

pub count_members-toggle :
    (j k q : ℕ) (ms : List PartyMember)
    → count_members j (toggle_member k q ms) ≡ count_members j ms
unfolding count_members toggle_member
count_members-toggle j k q [] = ground arith
count_members-toggle j k q (x ∷ ms) = ground (arith, count_members-toggle j k q ms)

pub count_player-toggle :
    (p k q : ℕ) (ms : List PartyMember) → count_player p (toggle_member k q ms) ≡ count_player p ms
unfolding count_player toggle_member
count_player-toggle p k q [] = ground arith
count_player-toggle p k q (x ∷ ms) = ground (arith, count_player-toggle p k q ms)

pub count_ready-le : (k : ℕ) (ms : List PartyMember) → count_ready k ms ≤ count_members k ms
unfolding count_ready count_members
count_ready-le k [] = omega arith
count_ready-le k (x ∷ ms) = ground (arith, count_ready-le k ms)
