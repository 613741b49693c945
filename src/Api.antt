-- ===== src/Api.antt =====
-- What a request handler of the API runs in: the database and the services around it, and the
-- actions that a handler is made of. An action returns a result or raises, and the world comes
-- back either way, since what was written before a raise stays written.
-- Every statement that is sent to PostgreSQL takes entries of `faults`, where `true` stands for a
-- lost connection, a timeout or another error of the driver, which asyncpg raises as an exception.
-- The first entry is about the way there: the statement is not executed. The second one is about the
-- way back: the statement has been executed, and its reply is lost.
pub mod Triple
pub mod Quiet
pub mod Effect
pub mod Steady
use matchmaker_platform.Prelude.{
  ℕ, String, Bool, true, false, Option, none, some, List, [], ◌∷◌, ◌++◌, if◌then◌else◌,
}
use matchmaker_platform.Prelude.Int.{ℤ}
use matchmaker_platform.Text.{Text}
use matchmaker_platform.Schema.{Database}
use matchmaker_platform.Sockets.{ConnectionManager, Link, Message, broadcast_to_party}
use matchmaker_platform.SessionManager.{ServerAllocator}

-- What the API publishes to NATS, by services/api/utils/nats_events.py.
pub data QueueEvent : Type 0 where
  queue_enter : ℕ → String → ℕ → Option ℤ → String → ℕ → QueueEvent
  queue_leave : ℕ → String → String → QueueEvent
  party_disbanded : ℕ → String → QueueEvent
  -- `data`, an object, by its JSON text
  party_updated : ℕ → String → String → QueueEvent

-- `S` is the state of the Redis server. `none` stands for a global that was never initialised.
pub record World (S : Type 0) : Type 0 where
  pub db : Database
  pub redis : Option S
  pub manager : ConnectionManager
  pub link : ℕ → Link
  pub sent : List (ℕ × Message)
  pub nats : Bool
  pub published : List (Text × QueueEvent)
  pub allocator : Option ServerAllocator
  pub session_secret : Option Text
  pub now : ℕ
  pub faults : List Bool

-- An HTTPException with its status code and detail, a ValueError, or any other exception.
pub data Error : Type 0 where
  http : ℕ → String → Error
  value_error : String → Error
  exception : Error

pub data Outcome (A : Type 0) : Type 0 where
  ok : A → Outcome A
  raise : Error → Outcome A

abbrev pub Action : Type 0 → Type 0 → Type 0
Action S A = World S → Outcome A × World S

module _ {S A : Type 0} where
  abbrev pub pure : A → Action S A
  pure a w = (ok a, w)

  abbrev pub fail : Error → Action S A
  fail e w = (raise e, w)

  abbrev pub gets : (World S → A) → Action S A
  gets f w = (ok (f w), w)

  -- `raise` where the value is missing
  abbrev pub or_fail : Option A → Error → Action S A
  or_fail none e w = (raise e, w)
  or_fail (some a) e w = (ok a, w)

abbrev pub fail_if : {S : Type 0} → Bool → Error → Action S (Unit {0})
fail_if true e w = (raise e, w)
fail_if false e w = (ok tt, w)

abbrev pub modify : {S : Type 0} → (World S → World S) → Action S (Unit {0})
modify f w = (ok tt, f w)

module _ {S A B : Type 0} where
  abbrev pub continue : Outcome A → (A → Action S B) → Action S B
  continue (ok a) f w = f a w
  continue (raise e) f w = (raise e, w)

  infixl 5 ◌>>=◌ ◌>>◌
  abbrev pub ◌>>=◌ : Action S A → (A → Action S B) → Action S B
  ◌>>=◌ m f w = let (r, w') = m w in continue r f w'

  abbrev pub ◌>>◌ : Action S A → Action S B → Action S B
  m >> k = m >>= λ _. k

abbrev pub fault_now : List Bool → Bool
fault_now [] = false
fault_now (b ∷ bs) = b

abbrev pub later : List Bool → List Bool
later [] = []
later (b ∷ bs) = bs

module _ {S A : Type 0} where
  -- What has been done stays done, whether or not the reply arrives.
  abbrev pub reply : A → World S → Outcome A × World S
  reply a w =
      let next = record w { faults = later w.faults } in
      if fault_now w.faults then (raise exception, next) else (ok a, next)

  abbrev commit : Option (A × Database) → World S → Outcome A × World S
  commit none w = (raise exception, w)
  commit (some (a, db)) w = reply a (record w { db = db })

  -- One statement: it is not executed, or violates a constraint (`none`), or changes the tables and
  -- returns rows, unless its reply is lost. Outside a transaction it is committed at once.
  unfoldable pub statement : (World S → Option (A × Database)) → Action S A
  statement f w =
      let next = record w { faults = later w.faults } in
      if fault_now w.faults then (raise exception, next) else commit (f w) next

  -- conn.fetchrow, conn.fetch, conn.fetchval of a SELECT
  unfoldable pub fetch : (Database → A) → Action S A
  unfolding statement
  fetch f = statement (λ w. some (f w.db, w.db))

  -- `async with conn.transaction()`: a raise inside, or a COMMIT that is not executed, undoes every
  -- statement; a COMMIT whose reply is lost has been executed.
  abbrev pub end_transaction : Database → Outcome A → World S → Outcome A × World S
  end_transaction before (raise e) w = (raise e, record w { db = before })
  end_transaction before (ok a) w =
      if fault_now w.faults
      then (raise exception, record w { faults = later w.faults; db = before })
      else reply a (record w { faults = later w.faults })

  unfoldable pub transaction : Action S A → Action S A
  transaction m w = let (r, w') = m w in end_transaction w.db r w'

  -- except HTTPException: raise
  -- except Exception: raise HTTPException(500, detail)
  abbrev pub convert : String → Outcome A → World S → Outcome A × World S
  convert detail (ok a) w = (ok a, w)
  convert detail (raise (http code d)) w = (raise (http code d), w)
  convert detail (raise (value_error d)) w = (raise (http 500 detail), w)
  convert detail (raise exception) w = (raise (http 500 detail), w)

  unfoldable pub handler : String → Action S A → Action S A
  handler detail m w = let (r, w') = m w in convert detail r w'

-- conn.execute of an UPDATE or a DELETE
unfoldable pub execute : {S : Type 0} → (World S → Database) → Action S (Unit {0})
unfolding statement
execute f = statement (λ w. some (tt, f w))

-- conn.execute of an INSERT: `none` is a violated constraint, which raises.
abbrev with_unit : Option Database → Option (Unit {0} × Database)
with_unit none = none
with_unit (some db) = some (tt, db)

unfoldable pub insert : {S : Type 0} → (World S → Option Database) → Action S (Unit {0})
unfolding statement
insert f = statement (λ w. with_unit (f w))

-- await manager.broadcast_to_party(party_id, event, data)
unfoldable pub broadcast : {S : Type 0} → ℕ → Message → Action S (Unit {0})
broadcast party_id m w =
    let (c, out) = broadcast_to_party w.link party_id m w.manager in
    (ok tt, record w { manager = c; sent = w.sent ++ out })

-- Opens every action at once, for what computes through whole handlers.
unfoldable pub actions : Unit {0}
unfolding statement fetch transaction handler execute insert broadcast
actions = tt
