-- ===== src/Env.antt =====
-- What an operation takes from outside the repository: the clock, `json.dumps` with `hashlib`,
-- `str.strip` and `str`, and the rows that other transactions hold locked.
use eldridge.Prelude.{ℕ, String, Bool, ◌≡◌, Option, none, some, ◌==◌, string_eq, if◌then◌else◌}
use eldridge.Persistence.Json.{Json, Fields}

-- Timestamps are numbers of seconds; an operation reads the clock once.
pub record Env : Type 0 where
  pub now : ℕ
  -- `json.dumps(value, sort_keys=True, separators=(",", ":")).encode()`
  pub json_dumps : Fields → String
  -- `sha256(bytes).hexdigest()`
  pub sha256 : String → String
  pub strip : String → String
  -- `str(value)` of a value that is not a text
  pub repr : Json → String
  -- the tasks that `with_for_update(skip_locked=True)` passes over
  pub task_locked : ℕ → Bool

-- The text under a key of an object.
unfoldable pub text_at : String → Fields → Option String
text_at k Fields.done = none
text_at k (Fields.field j (Json.text v) fs) = if j == k then some v else text_at k fs
text_at k (Fields.field j _ fs) = if j == k then none else text_at k fs

-- No two texts that were hashed have one digest, and from the text of an object `json.loads`
-- reads back what stands under its keys.
pub record IsCollisionFree (env : Env) : Type 0 where
  pub injective : (a b : String) → env.sha256 a ≡ env.sha256 b → a ≡ b
  pub read_back :
      (f g : Fields)
      → env.json_dumps f ≡ env.json_dumps g
      → (k : String) → text_at k f ≡ text_at k g

-- `sha256(json.dumps(...).encode()).hexdigest()`
unfoldable pub digest : Env → Fields → String
digest env value = env.sha256 (env.json_dumps value)
