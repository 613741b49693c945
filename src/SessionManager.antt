-- ===== src/SessionManager.antt =====
-- services/api/utils/session_manager.py: the mock server allocator, session tokens and the
-- lifecycle of a session. Ids are numbers; `id_text` is `str` of a UUID, and `hmac` stands for
-- `hmac.new(secret, message, sha256).hexdigest()`, both given from outside.
pub mod Lifecycle
pub mod Allocator
pub mod Token
use matchmaker_platform.Prelude.{
  ℕ, ◌+◌, String, Bool, true, false, Option, none, some, List, [], ◌∷◌, ◌++◌, map, ◌==◌, ◌&&◌, ltb,
  if◌then◌else◌, length, is_some,
}
use matchmaker_platform.Schema.{SessionStatus, allocating, active, ended, cancelled}
use matchmaker_platform.Text.{Text, codes, decimal, join, sorted}

-- MockServerAllocator: the dict `_allocated_servers` holds an endpoint for each match.
pub record ServerAllocator : Type 0 where
  pub base_host : Text
  pub base_port : ℕ
  pub allocated_servers : List (ℕ × Text)

unfoldable pub init_server_allocator : Text → ℕ → ServerAllocator
init_server_allocator base_host base_port = record {
  base_host = base_host;
  base_port = base_port;
  allocated_servers = [];
}

unfoldable pub lookup_server : ℕ → List (ℕ × Text) → Option Text
lookup_server k [] = none
lookup_server k ((j, e) ∷ d) = if j == k then some e else lookup_server k d

-- self._allocated_servers[match_id] = endpoint
unfoldable pub store_server : ℕ → Text → List (ℕ × Text) → List (ℕ × Text)
store_server k e [] = (k, e) ∷ []
store_server k e ((j, f) ∷ d) =
    let rest = store_server k e d in if j == k then (j, e) ∷ d else (j, f) ∷ rest

-- self._allocated_servers.pop(match_id), where the key is there
unfoldable pub pop_server : ℕ → List (ℕ × Text) → List (ℕ × Text)
pop_server k [] = []
pop_server k ((j, f) ∷ d) = let rest = pop_server k d in if j == k then d else (j, f) ∷ rest

-- f"{region}.{self.base_host}:{port}"
unfoldable pub endpoint_text : String → Text → ℕ → Text
endpoint_text region base_host port =
    codes region ++ (codes "." ++ (base_host ++ (codes ":" ++ decimal port)))

-- The allocator afterwards, and the endpoint. The mode is not used.
unfoldable pub allocate_server : ℕ → String → String → ServerAllocator → ServerAllocator × Text
unfolding endpoint_text store_server
allocate_server match_id region mode a =
    let port = a.base_port + length a.allocated_servers in
    let endpoint = endpoint_text region a.base_host port in
    (record a { allocated_servers = store_server match_id endpoint a.allocated_servers }, endpoint)

unfoldable pub deallocate_server : ℕ → ServerAllocator → ServerAllocator
unfolding lookup_server pop_server
deallocate_server match_id a =
    if is_some (lookup_server match_id a.allocated_servers)
    then record a { allocated_servers = pop_server match_id a.allocated_servers }
    else a

-- f"{match_id}:{'|'.join(sorted(player_ids))}"
unfoldable pub token_message : (ℕ → Text) → ℕ → List ℕ → Text
unfolding join sorted
token_message id_text match_id player_ids =
    id_text match_id ++ (codes ":" ++ join (codes "|") (sorted (map id_text player_ids)))

-- `none` is the RuntimeError of `get_session_secret` before `init_session_secret`.
unfoldable pub generate_session_token :
    (Text → Text → Text) → (ℕ → Text) → Option Text → ℕ → List ℕ → Option Text
unfolding token_message
generate_session_token hmac id_text none match_id player_ids = none
generate_session_token hmac id_text (some secret) match_id player_ids =
    some (hmac secret (token_message id_text match_id player_ids))

unfoldable pub same_text : Text → Text → Bool
same_text [] [] = true
same_text (x ∷ a) (y ∷ b) = let rest = same_text a b in if x == y then rest else false
same_text _ _ = false

unfoldable pub is_ascii : Text → Bool
is_ascii [] = true
is_ascii (x ∷ a) = let rest = is_ascii a in if ltb x 128 then rest else false

-- hmac.compare_digest, which raises a TypeError (`none`) for a text that is not all ASCII
unfoldable pub compare_digest : Text → Text → Option Bool
compare_digest a b = if is_ascii a && is_ascii b then some (same_text a b) else none

unfoldable pub verify_session_token :
    (Text → Text → Text) → (ℕ → Text) → Option Text → ℕ → List ℕ → Text → Option Bool
unfolding generate_session_token compare_digest
verify_session_token hmac id_text secret match_id player_ids token =
    elim (generate_session_token hmac id_text secret match_id player_ids) [
      | none ↦ none
      | some expected_token ↦ compare_digest token expected_token
    ]

-- SessionLifecycleManager.VALID_TRANSITIONS
unfoldable pub valid_transitions : SessionStatus → List SessionStatus
valid_transitions allocating = active ∷ cancelled ∷ []
valid_transitions active = ended ∷ cancelled ∷ []
valid_transitions ended = []
valid_transitions cancelled = []

abbrev pub same_status : SessionStatus → SessionStatus → Bool
same_status allocating allocating = true
same_status active active = true
same_status ended ended = true
same_status cancelled cancelled = true
same_status _ _ = false

-- `s in statuses`
unfoldable pub status_in : SessionStatus → List SessionStatus → Bool
status_in s [] = false
status_in s (t ∷ ts) = if same_status t s then true else status_in s ts

unfoldable pub can_transition : SessionStatus → SessionStatus → Bool
unfolding valid_transitions status_in
can_transition from_status to_status = status_in to_status (valid_transitions from_status)
