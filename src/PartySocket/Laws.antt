-- ===== src/PartySocket/Laws.antt =====
-- What a connection of party_websocket (services/api/routes/websocket.py) leaves behind.
use matchmaker_platform.Prelude.{
  ℕ, ◌≡◌, refl, ◌∙◌, Bool, true, false, ◌&&◌, if◌then◌else◌, some, List, [], ◌∷◌, ◌++◌, ◌==◌, arith,
  inl, inr, Bool-cases, Option-cases,
}
use matchmaker_platform.Tables.{is_member}
use matchmaker_platform.Auth.{Jwt, Settings, Payload, verify_access_token}
use matchmaker_platform.Sockets.{
  Link, Message, connection_made, pong, failing, closed, in_set, connect,
}
use matchmaker_platform.Sockets.Laws.{members, connect_iff-disconnect_iff}
use matchmaker_platform.Api.{World, Outcome, ok, raise, actions, fault_now, later}
use matchmaker_platform.PartySocket.{
  Frame, ping, other_object, not_an_object, bad_json, receive_error, elsewhere, Served, refused,
  served, serve_frames, serve_accepted, with_manager, send_json, serve, serve_member,
  party_websocket,
}

sent_manager :
    {S : Type 0} (l : Link) (sent w : World S)
    → sent.manager ≡ w.manager
    → (elim l as (λ _. Bool × World S) [ Link.connected ↦ (true, sent) | _ ↦ (false, w) ]).1.manager
      ≡ w.manager
sent_manager Link.connected sent w h = h
sent_manager failing sent w h = refl
sent_manager closed sent w h = refl

send_json-manager :
    {S : Type 0} (websocket : ℕ) (m : Message) (w : World S)
    → (send_json websocket m w).1.manager ≡ w.manager
send_json-manager websocket m w =
    sent_manager (w.link websocket) (record w { sent = w.sent ++ (websocket, m) ∷ [] }) w refl

-- Nothing else happens while the connection is served.
unfoldable pub is_alone : {S : Type 0} → List (Frame S) → Bool
is_alone [] = true
is_alone (elsewhere f ∷ fs) = false
is_alone (ping ∷ fs) = is_alone fs
is_alone (other_object ∷ fs) = is_alone fs
is_alone (not_an_object ∷ fs) = is_alone fs
is_alone (bad_json ∷ fs) = is_alone fs
is_alone (receive_error ∷ fs) = is_alone fs

module _ {S : Type 0} (websocket : ℕ) where
  serve_frames-manager :
      (fs : List (Frame S)) (w : World S)
      → is_alone fs ≡ true
      → (serve_frames websocket fs w).manager ≡ w.manager
  unfolding serve_frames is_alone
  serve_frames-manager [] w h = refl
  serve_frames-manager (ping ∷ fs) w h =
      let same = send_json-manager websocket pong w in
      elim (Bool-cases (send_json websocket pong w).0) [
        | inl e ↦ rw e (serve_frames-manager fs (send_json websocket pong w).1 h ∙ same)
        | inr e ↦ rw e same
      ]
  serve_frames-manager (other_object ∷ fs) w h = serve_frames-manager fs w h
  serve_frames-manager (not_an_object ∷ fs) w h = refl
  serve_frames-manager (bad_json ∷ fs) w h = serve_frames-manager fs w h
  serve_frames-manager (receive_error ∷ fs) w h = refl
  serve_frames-manager (elsewhere f ∷ fs) w h = cc

  serve_accepted-manager :
      (party_id player_id : ℕ) (fs : List (Frame S)) (w : World S)
      → is_alone fs ≡ true
      → (serve_accepted websocket party_id player_id fs w).manager
        ≡ connect websocket party_id player_id w.manager
  serve_accepted-manager party_id player_id fs w h =
      let joined = with_manager (connect websocket party_id player_id) w in
      let m = connection_made party_id player_id in
      let same = send_json-manager websocket m joined in
      elim (Bool-cases (send_json websocket m joined).0) [
        | inl e ↦ rw e (serve_frames-manager fs (send_json websocket m joined).1 h ∙ same)
        | inr e ↦ rw e same
      ]

  -- A connection that has ended is in the set of its party no more.
  serve-left :
      (accepts : Bool) (party_id player_id : ℕ) (fs : List (Frame S)) (w : World S)
      → in_set websocket
          (members party_id (serve websocket accepts party_id player_id fs w).manager)
        ≡ false
  unfolding serve
  serve-left accepts party_id player_id fs w =
      let before = if accepts then serve_accepted websocket party_id player_id fs w else w in
      (connect_iff-disconnect_iff websocket party_id websocket party_id player_id before.manager).1
      ∙ ground arith

  -- While a connection is served and nothing else happens, the other connections stay what they are,
  -- in its party and in the others.
  serve-others :
      (accepts : Bool) (party_id player_id : ℕ) (fs : List (Frame S)) (w : World S) (x j : ℕ)
      → is_alone fs ≡ true
      → (party_id == j && websocket == x) ≡ false
      → in_set x (members j (serve websocket accepts party_id player_id fs w).manager)
        ≡ in_set x (members j w.manager)
  unfolding serve
  serve-others accepts party_id player_id fs w x j alone other = elim (Bool-cases accepts) [
    | inl e ↦
        let c = connect websocket party_id player_id w.manager in
        rw (e, serve_accepted-manager party_id player_id fs w alone)
          ((connect_iff-disconnect_iff x j websocket party_id player_id c).1
            ∙ ground (
              arith,
              other,
              (connect_iff-disconnect_iff x j websocket party_id player_id w.manager).0,
            ))
    | inr e ↦ rw e (
        (connect_iff-disconnect_iff x j websocket party_id player_id w.manager).1
        ∙ ground (arith, other))
  ]

-- What a request to connect comes to.
abbrev pub IsSocketEnd :
    {S : Type 0}
    → (jwt : Jwt) → Settings
    → (websocket party_id : ℕ) → jwt.Token
    → World S
    → Outcome Served
    → World S
    → Type 0
IsSocketEnd jwt settings websocket party_id token w (ok (served player_id)) w' =
    ((payload : Payload) × (verify_access_token jwt settings w.now token ≡ some payload)
      × (payload.sub ≡ some player_id))
    × (is_member party_id player_id w.db.party_members ≡ true)
    × (in_set websocket (members party_id w'.manager) ≡ false)
IsSocketEnd jwt settings websocket party_id token w (ok (refused code reason)) w' =
    w'.manager ≡ w.manager
IsSocketEnd jwt settings websocket party_id token w (raise e) w' = w'.manager ≡ w.manager

module _ {S : Type 0} (jwt : Jwt) (settings : Settings) (websocket : ℕ) (accepts : Bool)
    (party_id : ℕ) (token : jwt.Token) (frames : List (Frame S)) (w : World S) where
  -- A connection is served only to a player who is a member of the party when it is made, and whose
  -- access token is valid then; however it ends, and whatever happens in the meantime, it is not in
  -- the set of the party afterwards. A connection that is refused, or whose check of the membership
  -- raises an exception, has not been in any set.
  pub party_websocket-IsSocketEnd :
      let (r, w') = party_websocket websocket jwt settings accepts party_id token frames w in
      IsSocketEnd jwt settings websocket party_id token w r w'
  unfolding party_websocket serve_member actions
  party_websocket-IsSocketEnd = elim (Option-cases (verify_access_token jwt settings w.now token)) [
    | inl none_of ↦ rw none_of refl
    | inr (payload, valid) ↦ elim (Option-cases payload.sub) [
      | inl no_sub ↦ rw (valid, no_sub) refl
      | inr (q, sub) ↦ elim (Bool-cases (fault_now w.faults)) [
        | inl bad ↦ rw (valid, sub, bad) refl
        | inr good ↦ elim (Bool-cases (fault_now (later w.faults))) [
          | inl lost ↦ rw (valid, sub, good, lost) refl
          | inr heard ↦ elim (Bool-cases (is_member party_id q w.db.party_members)) [
            | inl there ↦
                rw (valid, sub, good, heard, there)
                  ((payload, valid, sub), there, serve-left websocket accepts party_id q frames _)
            | inr absent ↦ rw (valid, sub, good, heard, absent) refl
          ]
        ]
      ]
    ]
  ]
