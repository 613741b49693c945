-- ===== src/Accounts/Safety.antt =====
-- Accounts, profiles and queries leave the parties alone: what register, update_my_profile and the
-- actions that only read (services/api/routes/auth.py, profile.py, leaderboard.py) keep.
use matchmaker_platform.Prelude.{ℕ, String, Bool, Option, none, some, List, inl, inr}
use matchmaker_platform.Text.{Text}
use matchmaker_platform.Schema.{Database, Player}
use matchmaker_platform.Auth.{Jwt, Passwords, Settings}
use matchmaker_platform.Api.{World, Outcome, ok, raise, Action}
use matchmaker_platform.Api.Quiet.{Steady}
use matchmaker_platform.Api.Effect.{IsEffect-keeps}
use matchmaker_platform.Party.Capacity.{IsConsistent}
use matchmaker_platform.Profile.{
  ProfileResponse, UpdateProfileRequest, with_players, update_my_profile,
}
use matchmaker_platform.Profile.Effect.{IsUpdated, update_my_profile-IsUpdated}
use matchmaker_platform.Accounts.{RegisterRequest, UniqueColumn, register}
use matchmaker_platform.Accounts.Uniqueness.{IsRegistered, register-IsEffect}

with_players-IsConsistent :
    (db : Database) (ps : List Player) → IsConsistent db → IsConsistent (with_players db ps)
with_players-IsConsistent db ps h = record { fits = h.fits; one_party = h.one_party }

pub Steady-IsConsistent :
    {S A : Type 0} {m : Action S A}
    → Steady m
    → (w : World S) → IsConsistent w.db
    → IsConsistent (m w).1.db
Steady-IsConsistent k w h = rw (k.same_db w) h

pub register-IsConsistent :
    {S : Type 0} (jwt : Jwt) (settings : Settings) (passwords : Passwords) (email_first : Bool)
    (message : UniqueColumn → Player → Text) (request : RegisterRequest) (salt new_id : ℕ)
    (w : World S)
    → IsConsistent w.db
    → IsConsistent (register jwt settings passwords email_first message request salt new_id w).1.db
register-IsConsistent jwt settings passwords email_first message request salt new_id w c =
    let (r, w') = register jwt settings passwords email_first message request salt new_id w in
    IsEffect-keeps (IsRegistered passwords request salt new_id w.now w.db) IsConsistent w.db c
      (λ after h. rw h.written (with_players-IsConsistent w.db _ c)) r w'.db
      (register-IsEffect jwt settings passwords email_first message request salt new_id w)

updated_IsConsistent :
    (region : Option String) (user : Player) (before : Database)
    → IsConsistent before
    → (r : Outcome ProfileResponse) (after : Database) → IsUpdated region user before r after
    → IsConsistent after
updated_IsConsistent none user before c r after h = rw h.1 c
updated_IsConsistent (some region) user before c (ok profile) after h =
    rw h.1.written (with_players-IsConsistent before _ c)
updated_IsConsistent (some region) user before c (raise e) after h = elim h [
  | inl same ↦ rw same c
  | inr moved ↦ rw moved.1.written (with_players-IsConsistent before _ c)
]

pub update_my_profile-IsConsistent :
    {S : Type 0} (updates : UpdateProfileRequest) (user : Player) (w : World S)
    → IsConsistent w.db
    → IsConsistent (update_my_profile updates user w).1.db
update_my_profile-IsConsistent updates user w c =
    let (r, w') = update_my_profile updates user w in
    updated_IsConsistent updates.region user w.db c r w'.db
      (update_my_profile-IsUpdated user w updates)
