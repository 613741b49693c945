-- ===== src/Tables.antt =====
-- What the SQL statements of the API compute on the rows of a table: the WHERE clauses by key,
-- COUNT with FILTER, UPDATE ... SET, DELETE, the uniqueness of a primary key on INSERT, JOIN with
-- game.player, and ORDER BY joined_at.
pub mod Parties
pub mod Members
use matchmaker_platform.Prelude.{
  ℕ, zero, suc, ◌+◌, ◌*◌, ◌/◌, String, Option, none, some, List, [], ◌∷◌, ◌++◌, Bool, true, false,
  not, ◌&&◌, ltb, ◌==◌, if◌then◌else◌, length,
}
use matchmaker_platform.Prelude.Int.{ℤ, pos, negsuc, sum}
use matchmaker_platform.Schema.{Player, Party, PartyMember}

-- SELECT ... FROM game.player WHERE id = $1
unfoldable pub find_player : ℕ → List Player → Option Player
find_player k [] = none
find_player k (p ∷ ps) = if p.id == k then some p else find_player k ps

-- SELECT ... FROM game.party WHERE id = $1
unfoldable pub find_party : ℕ → List Party → Option Party
find_party k [] = none
find_party k (p ∷ ps) = if p.id == k then some p else find_party k ps

-- UPDATE game.party SET ... WHERE id = $1
unfoldable pub update_party : ℕ → (Party → Party) → List Party → List Party
update_party k f [] = []
update_party k f (p ∷ ps) = (if p.id == k then f p else p) ∷ update_party k f ps

-- SELECT party_id FROM game.party_member WHERE player_id = $1, the first row
unfoldable pub party_of : ℕ → List PartyMember → Option ℕ
party_of q [] = none
party_of q (m ∷ ms) = if m.player_id == q then some m.party_id else party_of q ms

-- SELECT 1 FROM game.party_member WHERE party_id = $1 AND player_id = $2
unfoldable pub is_member : ℕ → ℕ → List PartyMember → Bool
is_member k q [] = false
is_member k q (m ∷ ms) = if m.party_id == k && m.player_id == q then true else is_member k q ms

-- DELETE FROM game.party_member WHERE party_id = $1 AND player_id = $2
unfoldable pub delete_member : ℕ → ℕ → List PartyMember → List PartyMember
delete_member k q [] = []
delete_member k q (m ∷ ms) =
    let rest = delete_member k q ms in
    if m.party_id == k && m.player_id == q then rest else m ∷ rest

-- UPDATE game.party_member SET ready = NOT ready WHERE party_id = $1 AND player_id = $2
unfoldable pub toggle_member : ℕ → ℕ → List PartyMember → List PartyMember
toggle_member k q [] = []
toggle_member k q (m ∷ ms) =
    (if m.party_id == k && m.player_id == q then record m { ready = not m.ready } else m)
    ∷ toggle_member k q ms

-- ... RETURNING ready: the row as the UPDATE has left it
unfoldable pub ready_of : ℕ → ℕ → List PartyMember → Option Bool
ready_of k q [] = none
ready_of k q (m ∷ ms) =
    if m.party_id == k && m.player_id == q then some m.ready else ready_of k q ms

-- SELECT COUNT(*) FROM game.party_member WHERE party_id = $1
unfoldable pub count_members : ℕ → List PartyMember → ℕ
count_members k [] = 0
count_members k (m ∷ ms) = (if m.party_id == k then 1 else 0) + count_members k ms

-- COUNT(*) FILTER (WHERE ready = TRUE)
unfoldable pub count_ready : ℕ → List PartyMember → ℕ
count_ready k [] = 0
count_ready k (m ∷ ms) = (if m.party_id == k && m.ready then 1 else 0) + count_ready k ms

-- The number of rows of one player, in all parties.
unfoldable pub count_player : ℕ → List PartyMember → ℕ
count_player q [] = 0
count_player q (m ∷ ms) = (if m.player_id == q then 1 else 0) + count_player q ms

-- SELECT p.username ... JOIN game.player p ... WHERE pm.party_id = $1 AND pm.ready = FALSE
unfoldable pub not_ready_names : ℕ → List Player → List PartyMember → List String
not_ready_names k ps [] = []
not_ready_names k ps (m ∷ ms) =
    let rest = not_ready_names k ps ms in
    if m.party_id == k && not m.ready
    then elim (find_player m.player_id ps) [ none ↦ rest | some p ↦ p.username ∷ rest ]
    else rest

-- SELECT p.mmr ... JOIN game.player p ... WHERE pm.party_id = $1
unfoldable pub member_mmrs : ℕ → List Player → List PartyMember → List ℤ
member_mmrs k ps [] = []
member_mmrs k ps (m ∷ ms) =
    let rest = member_mmrs k ps ms in
    if m.party_id == k
    then elim (find_player m.player_id ps) [ none ↦ rest | some p ↦ p.mmr ∷ rest ]
    else rest

-- The cast of a numeric to int rounds to the nearest, halves away from zero.
unfoldable pub round_div : ℤ → ℕ → ℤ
round_div (pos a) n = pos ((2 * a + n) / (2 * n))
round_div (negsuc a) n = elim ((2 * (a + 1) + n) / (2 * n)) [ zero ↦ pos 0 | suc b ↦ negsuc b ]

-- AVG(p.mmr)::int, which is NULL over no rows
unfoldable pub average : List ℤ → Option ℤ
unfolding round_div sum
average [] = none
average (x ∷ xs) = some (round_div (sum (x ∷ xs)) (length (x ∷ xs)))

-- What a response shows of a member: party_member joined with player.
pub record MemberInfo : Type 0 where
  pub player_id : ℕ
  pub username : String
  pub joined_at : ℕ
  pub ready : Bool
  pub role : Option String

-- ORDER BY joined_at ASC: rows that joined at the same time keep their order.
unfoldable pub insert_by_joined : MemberInfo → List MemberInfo → List MemberInfo
insert_by_joined m [] = m ∷ []
insert_by_joined m (x ∷ xs) =
    let rest = insert_by_joined m xs in if ltb x.joined_at m.joined_at then x ∷ rest else m ∷ x ∷ xs

-- SELECT ... FROM game.party_member pm JOIN game.player p ... WHERE pm.party_id = $1 ORDER BY ...
unfoldable pub members_of : ℕ → List Player → List PartyMember → List MemberInfo
unfolding insert_by_joined find_player
members_of k ps [] = []
members_of k ps (m ∷ ms) =
    let rest = members_of k ps ms in
    if m.party_id == k
    then elim (find_player m.player_id ps) [
      | none ↦ rest
      | some p ↦
          insert_by_joined
            (record {
              player_id = m.player_id;
              username = p.username;
              joined_at = m.joined_at;
              ready = m.ready;
              role = m.role;
            })
            rest
    ]
    else rest
