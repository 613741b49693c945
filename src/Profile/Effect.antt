-- ===== src/Profile/Effect.antt =====
-- What update_my_profile (services/api/routes/profile.py) answers and changes.
use matchmaker_platform.Prelude.{
  ℕ, ◌≡◌, ◌⊎◌, refl, ◌∙◌, String, false, Option, none, some, List, [], ◌∷◌, ◌==◌, if◌then◌else◌,
  arith, inl, inr, Bool-cases, Option-cases,
}
use matchmaker_platform.Schema.{Database, Player}
use matchmaker_platform.Tables.{find_player}
use matchmaker_platform.Api.{World, Outcome, ok, raise, actions, fault_now, later}
use matchmaker_platform.Profile.{
  ProfileResponse, UpdateProfileRequest, profile_of, update_player, in_region, with_players,
  update_region, update_my_profile,
}

abbrev map_player : (Player → Player) → Option Player → Option Player
map_player f none = none
map_player f (some p) = some (f p)

find_player-update :
    (j k : ℕ) (region : String) (ps : List Player)
    → find_player j (update_player k (in_region region) ps)
      ≡ (if k == j then map_player (in_region region) (find_player j ps) else find_player j ps)
unfolding find_player update_player
find_player-update j k region [] = ground arith
find_player-update j k region (p ∷ ps) = ground (arith, find_player-update j k region ps)

update_player-missing :
    (k : ℕ) (f : Player → Player) (ps : List Player)
    → find_player k ps ≡ none
    → update_player k f ps ≡ ps
unfolding find_player update_player
update_player-missing k f [] h = refl
update_player-missing k f (p ∷ ps) h = ground (arith, update_player-missing k f ps)

-- The account has the new region, and everything else is as it was.
pub record IsMoved (user row : Player) (region : String) (before after : Database) : Type 0 where
  pub found : find_player user.id before.players ≡ some row
  pub written :
      after ≡ with_players before (update_player user.id (in_region region) before.players)
  pub moved : find_player user.id after.players ≡ some (in_region region row)
  pub others :
      (j : ℕ) → (user.id == j) ≡ false → find_player j after.players ≡ find_player j before.players

-- The answer, and the tables after it.
abbrev pub IsUpdated :
    Option String → Player → Database → Outcome ProfileResponse → Database → Type 0
IsUpdated none user before r after = (r ≡ ok (profile_of user)) × (after ≡ before)
IsUpdated (some region) user before (ok profile) after =
    (row : Player) × IsMoved user row region before after
    × (profile ≡ profile_of (in_region region row))
IsUpdated (some region) user before (raise e) after =
    (after ≡ before) ⊎ ((row : Player) × IsMoved user row region before after)

module _ (user : Player) (region : String) where
  there :
      (ps : List Player) (row : Player)
      → find_player user.id ps ≡ some row
      → find_player user.id (update_player user.id (in_region region) ps)
        ≡ some (in_region region row)
  there ps row found = find_player-update user.id user.id region ps ∙ ground (arith, found)

  missed :
      (ps : List Player)
      → find_player user.id ps ≡ none
      → find_player user.id (update_player user.id (in_region region) ps) ≡ none
  missed ps missing = find_player-update user.id user.id region ps ∙ ground (arith, missing)

  moving :
      (before : Database) (row : Player)
      → find_player user.id before.players ≡ some row
      → IsMoved user row region before
          (with_players before (update_player user.id (in_region region) before.players))
  moving before row found = record {
    found = found;
    written = refl;
    moved = there before.players row found;
    others = λ j other. find_player-update j user.id region before.players ∙ rw other refl;
  }

  IsUpdated-region :
      {S : Type 0} (w : World S)
      → let (r, w') = update_my_profile (record { region = some region }) user w in
        IsUpdated (some region) user w.db r w'.db
  unfolding update_my_profile update_region actions
  IsUpdated-region w = elim (Bool-cases (fault_now w.faults)) [
    | inl bad ↦ rw bad (inl refl)
    | inr good ↦ elim (Option-cases (find_player user.id w.db.players)) [
      | inl missing ↦
          let same = update_player-missing user.id (in_region region) w.db.players missing in
          elim (Bool-cases (fault_now (later w.faults))) [
            | inl lost ↦ rw (good, lost, same) (inl refl)
            | inr heard ↦ rw (good, heard, missed w.db.players missing, same) (inl refl)
          ]
      | inr (row, found) ↦ elim (Bool-cases (fault_now (later w.faults))) [
        | inl lost ↦ rw (good, lost) (inr (row, moving w.db row found))
        | inr heard ↦
            rw (good, heard, there w.db.players row found) (row, moving w.db row found, refl)
      ]
    ]
  ]

module _ {S : Type 0} (user : Player) (w : World S) where
  updated :
      (region : Option String)
      → let (r, w') = update_my_profile (record { region = region }) user w in
        IsUpdated region user w.db r w'.db
  unfolding update_my_profile update_region actions
  updated none = (refl, refl)
  updated (some region) = IsUpdated-region user region w

  pub update_my_profile-IsUpdated :
      (updates : UpdateProfileRequest)
      → let (r, w') = update_my_profile updates user w in IsUpdated updates.region user w.db r w'.db
  update_my_profile-IsUpdated updates = updated updates.region
