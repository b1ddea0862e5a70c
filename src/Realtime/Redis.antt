-- ===== src/Realtime/Redis.antt =====
-- The Redis commands that the realtime services call, with their documented replies, over any
-- store `S`. Redis is not part of the repository: each service takes the commands as a parameter.
-- A time to live is positive where it is given, and a key that runs out is a reply of nothing; the
-- laws speak of commands that follow one another before that. `realtime_redis.service.ts` passes
-- the commands on, and JSON texts are the records that they stand for.
use open_chat_be.Prelude.{
  List, NoDup, Option, String, contains, if◌then◌else◌, nat_eq, none, not, some, string_eq, ℕ, ◌&&◌,
  ◌==◌, ◌||◌, ◌≡◌, ◌≢◌,
}

-- GET, SET with a time to live, and GETDEL, on values of one type
pub record StringCommands (S V : Type 0) : Type 0 where
  pub get : String → S → Option V
  pub set : String → V → ℕ → S → S
  pub del : String → S → S
  pub get-set :
      (k j : String) (v : V) (ttl : ℕ) (s : S)
      → get j (set k v ttl s) ≡ (if k == j then some v else get j s)
  pub get-del : (k j : String) (s : S) → get j (del k s) ≡ (if k == j then none else get j s)

-- SMEMBERS, SADD, SREM, DEL and PEXPIRE; SMEMBERS gives each member once, in some order
pub record SetCommands (S : Type 0) : Type 0 where
  pub smembers : String → S → List String
  pub sadd : String → List String → S → S
  pub srem : String → List String → S → S
  pub del : String → S → S
  pub pexpire : String → ℕ → S → S
  pub smembers-NoDup : (k : String) (s : S) → NoDup (smembers k s)
  pub smembers-sadd :
      (k j : String) (ms : List String) (s : S) (m : String)
      → contains (smembers j (sadd k ms s)) m
        ≡ ((k == j && contains ms m) || contains (smembers j s) m)
  pub smembers-srem :
      (k j : String) (ms : List String) (s : S) (m : String)
      → contains (smembers j (srem k ms s)) m
        ≡ (not (k == j && contains ms m) && contains (smembers j s) m)
  pub smembers-del :
      (k j : String) (s : S) (m : String)
      → contains (smembers j (del k s)) m ≡ (not (k == j) && contains (smembers j s) m)
  pub smembers-pexpire :
      (k j : String) (ttl : ℕ) (s : S) → smembers j (pexpire k ttl s) ≡ smembers j s

-- HGET, HSET, HDEL, HGETALL and PEXPIRE
pub record HashCommands (S V : Type 0) : Type 0 where
  pub hget : String → String → S → Option V
  pub hset : String → String → V → S → S
  pub hdel : String → String → S → S
  pub hgetall : String → S → List V
  pub pexpire : String → ℕ → S → S
  pub hget-hset :
      (k f : String) (v : V) (s : S) (j g : String)
      → hget j g (hset k f v s) ≡ (if k == j && f == g then some v else hget j g s)
  pub hget-hdel :
      (k f : String) (s : S) (j g : String)
      → hget j g (hdel k f s) ≡ (if k == j && f == g then none else hget j g s)
  pub hget-pexpire :
      (k : String) (ttl : ℕ) (s : S) (j g : String) → hget j g (pexpire k ttl s) ≡ hget j g s

-- Values and sets in one store: a command on a set changes no value, and SET changes no set but
-- one under its own key.
pub record SessionStore (S V : Type 0) : Type 0 where
  pub strings : StringCommands S V
  pub sets : SetCommands S
  pub get-sadd :
      (k j : String) (ms : List String) (s : S) → strings.get j (sets.sadd k ms s) ≡ strings.get j s
  pub get-srem :
      (k j : String) (ms : List String) (s : S) → strings.get j (sets.srem k ms s) ≡ strings.get j s
  pub smembers-set :
      (k j : String) (v : V) (ttl : ℕ) (s : S)
      → k ≢ j
      → sets.smembers j (strings.set k v ttl s) ≡ sets.smembers j s
