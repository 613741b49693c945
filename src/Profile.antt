-- ===== src/Profile.antt =====
-- services/api/routes/profile.py: get_my_profile and update_my_profile, with their request and
-- response types of services/api/models/schemas.py.
pub mod Effect
use matchmaker_platform.Prelude.{ℕ, String, Option, none, some, List, [], ◌∷◌, ◌==◌, if◌then◌else◌}
use matchmaker_platform.Prelude.Int.{ℤ}
use matchmaker_platform.Schema.{Database, Player}
use matchmaker_platform.Tables.{find_player}
use matchmaker_platform.Api.{Action, http, pure, or_fail, ◌>>=◌, ◌>>◌, statement, handler}

pub record ProfileResponse : Type 0 where
  pub player_id : ℕ
  pub username : String
  pub email : String
  pub region : String
  pub mmr : ℤ
  pub created_at : ℕ

pub record UpdateProfileRequest : Type 0 where
  pub region : Option String

abbrev pub profile_of : Player → ProfileResponse
profile_of p = record {
  player_id = p.id;
  username = p.username;
  email = p.email;
  region = p.region;
  mmr = p.mmr;
  created_at = p.created_at;
}

-- UPDATE game.player SET ... WHERE id = $n
unfoldable pub update_player : ℕ → (Player → Player) → List Player → List Player
update_player k f [] = []
update_player k f (p ∷ ps) = (if p.id == k then f p else p) ∷ update_player k f ps

-- The row is the argument of the dependency; nothing in the body raises.
abbrev pub get_my_profile : {S : Type 0} → Player → Action S ProfileResponse
get_my_profile current_user = pure (profile_of current_user)

abbrev pub in_region : String → Player → Player
in_region region p = record p { region = region }

abbrev pub with_players : Database → List Player → Database
with_players db ps = record db { players = ps }

-- ... RETURNING: the row as the UPDATE has left it
abbrev pub move_player : ℕ → String → Database → Option Player × Database
move_player k region db =
    let players = update_player k (in_region region) db.players in
    (find_player k players, with_players db players)

unfoldable pub update_region : {S : Type 0} → Option String → Player → Action S ProfileResponse
update_region none current_user = pure (profile_of current_user)
update_region (some region) current_user = do
  result ← statement (λ w. some (move_player current_user.id region w.db))
  row ← or_fail result (http 404 "Profile not found")
  pure (profile_of row)

unfoldable pub update_my_profile :
    {S : Type 0} → UpdateProfileRequest → Player → Action S ProfileResponse
update_my_profile updates current_user =
    handler "Failed to update profile" (update_region updates.region current_user)
