-- ===== src/PartySocket.antt =====
-- The WebSocket endpoint of services/api/routes/websocket.py: party_websocket, from the handshake to
-- the end of the connection.
pub mod Laws
use matchmaker_platform.Prelude.{
  ℕ, ◌≡◌, String, Bool, true, false, not, ◌&&◌, Option, none, some, List, [], ◌∷◌, ◌++◌,
  if◌then◌else◌,
}
use matchmaker_platform.Schema.{Database}
use matchmaker_platform.Tables.{is_member}
use matchmaker_platform.Auth.{Jwt, Settings, Payload, verify_access_token}
use matchmaker_platform.Sockets.{
  Link, Message, connection_made, pong, ConnectionManager, connect, disconnect,
}
use matchmaker_platform.Api.{
  World, Outcome, ok, raise, Action, pure, gets, modify, ◌>>=◌, ◌>>◌, fetch,
}

-- What `receive_text` and `json.loads` come to: a ping, another object, JSON that is no object (it
-- has no `get`, which raises), no JSON, or another exception. `elsewhere` is what other requests do
-- in the meantime. The list ends with the WebSocketDisconnect.
pub data Frame (S : Type 0) : Type 0 where
  ping other_object not_an_object bad_json receive_error : Frame S
  elsewhere : (World S → World S) → Frame S

-- websocket.close(code, reason) before the connection is accepted, or a connection that was served
-- until it ended.
pub data Served : Type 0 where
  refused : ℕ → String → Served
  served : ℕ → Served

-- websocket.send_json: `false` is an exception
abbrev pub send_json : {S : Type 0} → ℕ → Message → World S → Bool × World S
send_json websocket m w = elim (w.link websocket) [
  | Link.connected ↦ (true, record w { sent = w.sent ++ (websocket, m) ∷ [] })
  | _ ↦ (false, w)
]

abbrev pub with_manager : {S : Type 0} → (ConnectionManager → ConnectionManager) → World S → World S
with_manager f w = record w { manager = f w.manager }

module _ {S : Type 0} (websocket : ℕ) where
  -- The loop; an exception that is not caught in it ends it.
  unfoldable pub serve_frames : List (Frame S) → World S → World S
  serve_frames [] w = w
  serve_frames (ping ∷ fs) w =
      let (sent, w') = send_json websocket pong w in
      let rest = serve_frames fs w' in if sent then rest else w'
  serve_frames (other_object ∷ fs) w = serve_frames fs w
  serve_frames (not_an_object ∷ fs) w = w
  serve_frames (bad_json ∷ fs) w = serve_frames fs w
  serve_frames (receive_error ∷ fs) w = w
  serve_frames (elsewhere f ∷ fs) w = serve_frames fs (f w)

  -- The `try` block: manager.connect, whose `accept` may raise, the first message, and the loop.
  abbrev pub serve_accepted : (party_id player_id : ℕ) → List (Frame S) → World S → World S
  serve_accepted party_id player_id frames w =
      let (sent, w') =
        send_json websocket (connection_made party_id player_id)
          (with_manager (connect websocket party_id player_id) w) in
      let rest = serve_frames frames w' in if sent then rest else w'

  -- finally: manager.disconnect(websocket, party_id)
  unfoldable pub serve : Bool → (party_id player_id : ℕ) → List (Frame S) → World S → World S
  serve accepts party_id player_id frames w =
      with_manager (disconnect websocket party_id)
        (if accepts then serve_accepted party_id player_id frames w else w)

  unfoldable pub serve_member : Bool → (party_id player_id : ℕ) → List (Frame S) → Action S Served
  serve_member accepts party_id player_id frames = do
    member ← fetch (λ db. is_member party_id player_id db.party_members)
    if member
        then (modify (serve accepts party_id player_id frames) >> pure (served player_id))
        else pure (refused 4003 "Not a member of this party")

  abbrev pub serve_payload :
      Bool → (party_id : ℕ) → List (Frame S) → Option Payload → Action S Served
  serve_payload accepts party_id frames none = pure (refused 4001 "Invalid or expired token")
  serve_payload accepts party_id frames (some payload) = elim payload.sub [
    | none ↦ pure (refused 4001 "Invalid token payload")
    | some player_id ↦ serve_member accepts party_id player_id frames
  ]

  unfoldable pub party_websocket :
      (jwt : Jwt) → Settings → Bool → (party_id : ℕ) → jwt.Token → List (Frame S) → Action S Served
  party_websocket jwt settings accepts party_id token frames = do
    verified ← gets (λ w. verify_access_token jwt settings w.now token)
    serve_payload accepts party_id frames verified
