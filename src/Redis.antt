-- ===== src/Redis.antt =====
-- The Redis server as the code uses it: `get`, `set` with `ex`, `exists` and `delete`, with the
-- clock in seconds. A key is gone from the second at which it expires.
use nalang_project.Prelude.{
  ℕ, ◌+◌, String, ◌≡◌, Bool, Option, none, some, arith, leb, if◌then◌else◌, ◌==◌, string_eq,
}
use nalang_project.Dict.{Dict, lookup, insert, erase, is_some, lookup-insert, lookup-erase}

pub record Entry {ℓ} (V : Type ℓ) : Type ℓ where
  pub value : V
  pub expires : ℕ

abbrev pub Redis {ℓ} : Type ℓ → Type ℓ
Redis V = Dict String (Entry V)

module _ {ℓ} {V : Type ℓ} where
  abbrev pub live : ℕ → Option (Entry V) → Option V
  live now none = none
  live now (some e) = if leb e.expires now then none else some e.value

  -- `redis_client.get(key)`
  unfoldable pub get : ℕ → String → Redis V → Option V
  get now key r = live now (lookup key r)

  -- `redis_client.set(key, value, ex=seconds)`
  unfoldable pub set : ℕ → String → V → ℕ → Redis V → Redis V
  set now key v ex r = insert key (record { value = v; expires = now + ex }) r

  -- `redis_client.delete(key)`
  unfoldable pub delete : String → Redis V → Redis V
  delete key r = erase key r

  -- `redis_client.exists(key)`
  unfoldable pub exists : ℕ → String → Redis V → Bool
  unfolding get
  exists now key r = is_some (get now key r)

  -- A value can be read while its time lasts, and other keys are as before.
  pub get-set :
      (now later ex : ℕ) (key other : String) (v : V) (r : Redis V)
      → get later other (set now key v ex r) ≡ (
          if key == other
          then (if leb (now + ex) later then none else some v)
          else get later other r)
  unfolding get set
  get-set now later ex key other v r =
      ground (arith, lookup-insert key other (record { value = v; expires = now + ex }) r)

  pub get-delete :
      (now : ℕ) (key other : String) (r : Redis V)
      → get now other (delete key r) ≡ (if key == other then none else get now other r)
  unfolding get delete
  get-delete now key other r = ground (arith, lookup-erase key other r)

  pub delete-absent : (key : String) (r : Redis V) → lookup key r ≡ none → delete key r ≡ r
  unfolding delete
  delete-absent key r h = nalang_project.Dict.erase-absent key r h

pub ruleset redis_laws = (get-set, get-delete)
