-- ===== src/Tables/Parties.antt =====
-- Laws of the statements on game.party.
use matchmaker_platform.Prelude.{
  ℕ, ◌≡◌, refl, ◌≢◌, Option, none, some, List, [], ◌∷◌, ◌++◌, arith, ◌==◌, if◌then◌else◌,
}
use matchmaker_platform.Schema.{Party}
use matchmaker_platform.Tables.{find_party, update_party}

pub id-find_party : (k : ℕ) (ps : List Party) {p : Party} → find_party k ps ≡ some p → p.id ≡ k
unfolding find_party
id-find_party k [] h = cc
id-find_party k (x ∷ ps) {p} h =
    ground (arith, λ (q : find_party k ps ≡ some p). id-find_party k ps q)

-- A row appended under a new id is found under it, and hides no other row.
pub find_party-append_new :
    (k : ℕ) (ps : List Party) (r : Party)
    → find_party r.id ps ≡ none
    → find_party k (ps ++ r ∷ []) ≡ (if r.id == k then some r else find_party k ps)
unfolding find_party
find_party-append_new k [] r h = refl
find_party-append_new k (x ∷ ps) r h = ground (arith, find_party-append_new k ps r)

abbrev pub map_party : (Party → Party) → Option Party → Option Party
map_party f none = none
map_party f (some p) = some (f p)

-- An update that keeps the id changes the row of that id alone.
pub find_party-update :
    (j k : ℕ) (f : Party → Party) (ps : List Party)
    → ((p : Party) → (f p).id ≡ p.id)
    → find_party j (update_party k f ps)
      ≡ (if k == j then map_party f (find_party j ps) else find_party j ps)
unfolding find_party update_party
find_party-update j k f [] h = ground arith
find_party-update j k f (x ∷ ps) h = ground (arith, h x, find_party-update j k f ps h)

pub find_party-update_self :
    (k : ℕ) (f : Party → Party) (ps : List Party)
    → ((p : Party) → (f p).id ≡ p.id)
    → find_party k (update_party k f ps) ≡ map_party f (find_party k ps)
find_party-update_self k f ps h = ground (arith, find_party-update k k f ps h)

pub find_party-update_ne :
    (j k : ℕ) (f : Party → Party) (ps : List Party)
    → ((p : Party) → (f p).id ≡ p.id)
    → j ≢ k
    → find_party j (update_party k f ps) ≡ find_party j ps
find_party-update_ne j k f ps h n = ground (arith, find_party-update j k f ps h)

pub find_party-append_self :
    (k : ℕ) (ps : List Party) (r : Party)
    → find_party r.id ps ≡ none
    → r.id ≡ k
    → find_party k (ps ++ r ∷ []) ≡ some r
find_party-append_self k ps r h e = ground (arith, find_party-append_new k ps r h)

pub find_party-append_ne :
    (k : ℕ) (ps : List Party) (r : Party)
    → find_party r.id ps ≡ none
    → k ≢ r.id
    → find_party k (ps ++ r ∷ []) ≡ find_party k ps
find_party-append_ne k ps r h n = ground (arith, find_party-append_new k ps r h)
