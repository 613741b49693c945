-- ===== src/Redis/Memory.antt =====
-- A Redis server whose commands are computed: the entry of each key, its seconds left and its
-- value, in a state where no time passes. It shows that the documented effects can hold together.
use matchmaker_platform.Prelude.{ℕ, ◌≡◌, true, Option, none, some, arith, if◌then◌else◌}
use matchmaker_platform.Redis.{Key, Value, same_key, RedisServer}

abbrev pub Entries : Type 0
Entries = Key → Option (ℕ × Value)

abbrev pub value_of : Option (ℕ × Value) → Option Value
value_of none = none
value_of (some e) = some e.1

abbrev pub ttl_of : Option (ℕ × Value) → Option ℕ
ttl_of none = none
ttl_of (some e) = some e.0

abbrev pub setex : Key → ℕ → Value → Entries → Entries
setex k t v s j = if same_key k j then some (t, v) else s j

abbrev pub delete : Key → Entries → Entries
delete k s j = if same_key k j then none else s j

same_key_refl : (k : Key) → same_key k k ≡ true
same_key_refl (Key.party a) = ground arith
same_key_refl (Key.ready_check a) = ground arith
same_key_refl (Key.queue_pos a) = ground arith
same_key_refl (Key.player_session a) = ground arith
same_key_refl (Key.heartbeat a) = ground arith

pub get_law :
    (j k : Key) (t : ℕ) (v : Value) (s : Entries)
    → value_of (setex k t v s j) ≡ (if same_key k j then some v else value_of (s j))
get_law j k t v s = ground arith

pub delete_law :
    (j k : Key) (s : Entries)
    → value_of (delete k s j) ≡ (if same_key k j then none else value_of (s j))
delete_law j k s = ground arith

pub ttl_law : (k : Key) (t : ℕ) (v : Value) (s : Entries) → ttl_of (setex k t v s k) ≡ some t
ttl_law k t v s = rw (same_key_refl k)

pub ttl_delete_law : (k : Key) (s : Entries) → ttl_of (delete k s k) ≡ none
ttl_delete_law k s = rw (same_key_refl k)

abbrev pub memory : RedisServer
memory = record {
  State = Entries;
  get = λ k s. value_of (s k);
  setex = setex;
  delete = delete;
  ttl = λ k s. ttl_of (s k);
  get-setex = λ j k t v s _. get_law j k t v s;
  get-delete = delete_law;
  ttl-setex = λ k t v s _. ttl_law k t v s;
  ttl-delete = ttl_delete_law;
}
