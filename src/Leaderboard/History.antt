-- ===== src/Leaderboard/History.antt =====
-- The pages of get_match_history (services/api/routes/leaderboard.py).
use matchmaker_platform.Prelude.{
  ℕ, zero, suc, ◌-◌, ◌*◌, ◌<◌, ◌≡◌, refl, String, false, Option, none, some, List, [], ◌∷◌, ltb,
  if◌then◌else◌, arith, length, take, drop, inl, inr, Bool-cases,
}
use matchmaker_platform.Schema.{Player, MatchHistory}
use matchmaker_platform.OrderBy.{OrderBy, rows_at, length-Perm}
use matchmaker_platform.Api.{World, ok, raise, http, actions}
use matchmaker_platform.Leaderboard.{
  MatchHistoryEntry, MatchHistoryResponse, played_later, history_of, history_entries, player_or,
  get_match_history,
}

length-drop : {A : Type 0} (n : ℕ) (xs : List A) → length (drop n xs) ≡ length xs - n
length-drop zero xs = omega arith
length-drop (suc n) [] = omega arith
length-drop (suc n) (x ∷ xs) = omega (arith, length-drop n xs)

nonempty-take :
    {A : Type 0} (n : ℕ) (xs : List A) → ltb 0 (length (take (suc n) xs)) ≡ ltb 0 (length xs)
nonempty-take n [] = refl
nonempty-take n (x ∷ xs) = ground arith

-- A page has a row exactly if there are more rows than stand before it.
nonempty-rows_at :
    (o : OrderBy played_later) (size offset : ℕ) (xs : List MatchHistory)
    → 0 < size
    → ltb 0 (length (rows_at o size offset xs)) ≡ ltb offset (length xs)
nonempty-rows_at o zero offset xs h = absurd (omega (arith, h))
nonempty-rows_at o (suc size) offset xs h =
    let rows = o.order (suc size) offset xs in
    ground (
      arith,
      nonempty-take size (drop offset rows),
      length-drop offset rows,
      length-Perm (o.order-Perm (suc size) offset xs),
    )

history_entries-text :
    (rows : List MatchHistory)
    → history_entries false rows ≡ (if ltb 0 (length rows) then none else some [])
unfolding history_entries
history_entries-text [] = refl
history_entries-text (row ∷ rows) = ground arith

module _ {S : Type 0} (by_time : OrderBy played_later) (player_id : Option ℕ) (mode : Option String)
    (page_size : ℕ) (user : Player) (w : World S) (calm : w.faults ≡ [])
    (some_rows : 0 < page_size) where
  abbrev history : List MatchHistory
  history = history_of (player_or user.id player_id) mode w.db.match_history

  abbrev page_of : ℕ → List MatchHistory
  page_of n = rows_at by_time page_size ((n - 1) * page_size) history

  abbrev response : List MatchHistoryEntry → ℕ → MatchHistoryResponse
  response entries n = record {
    entries = entries;
    total = length history;
    page = n;
    page_size = page_size;
    has_more = ltb (n * page_size) (length history);
  }

  -- While no statement fails, and where the connection hands JSONB out as text, as the pool of the API
  -- does: a page that has an entry, which is one that fewer rows of the history stand before than
  -- there are, is answered with the status 500, and one without an entry is answered as empty.
  pub get_match_history-text :
      (n : ℕ)
      → (get_match_history by_time false player_id mode n page_size user w).0 ≡ (
          if ltb ((n - 1) * page_size) (length history)
          then raise (http 500 "Failed to fetch match history")
          else ok (response [] n))
  unfolding get_match_history actions
  get_match_history-text n =
      let size = nonempty-rows_at by_time page_size ((n - 1) * page_size) history some_rows in
      elim (Bool-cases (ltb ((n - 1) * page_size) (length history))) [
        | inl h ↦ rw (calm, history_entries-text (page_of n), size, h) refl
        | inr h ↦ rw (calm, history_entries-text (page_of n), size, h) refl
      ]
