-- ===== src/Realtime/Examples.antt =====
-- A store kept in memory that obeys the laws of the Redis commands, and a small node, for the
-- examples.
pub mod Access
pub mod Traffic
pub mod Places
pub mod Nodes
use open_chat_be.Prelude.{
  List, Map, NoDup-to_set, String, [], arith, contains, contains-append, contains-keep,
  contains-to_set, erase, if◌then◌else◌, insert, keep, lookup, lookup-erase, lookup-insert, nat_eq,
  none, not, or_else, refl, some, string_eq, to_set, values, ◌&&◌, ◌++◌, ◌==◌, ◌||◌, ◌≡◌,
}
use open_chat_be.Realtime.Types.{AuthChallengeRecord, RealtimeSessionRecord, ReliableEnvelope}
use open_chat_be.Realtime.Redis.{StringCommands, SetCommands, HashCommands, SessionStore}

-- The payload of an envelope is a text.
pub record Memory : Type 0 where
  pub challenges : Map String AuthChallengeRecord
  pub sessions : Map String RealtimeSessionRecord
  pub sets : Map String (List String)
  pub pending : Map String (Map String (ReliableEnvelope String))

abbrev pub no_memory : Memory
no_memory = record { challenges = []; sessions = []; sets = []; pending = [] }

unfoldable pub challenge_commands : StringCommands Memory AuthChallengeRecord
challenge_commands = record {
  get = λ k s. lookup k s.challenges;
  set = λ k v ttl s. record s { challenges = insert k v s.challenges };
  del = λ k s. record s { challenges = erase k s.challenges };
  get-set = λ k j v ttl s. lookup-insert k j v s.challenges;
  get-del = λ k j s. lookup-erase k j s.challenges;
}

unfoldable pub session_commands : StringCommands Memory RealtimeSessionRecord
session_commands = record {
  get = λ k s. lookup k s.sessions;
  set = λ k v ttl s. record s { sessions = insert k v s.sessions };
  del = λ k s. record s { sessions = erase k s.sessions };
  get-set = λ k j v ttl s. lookup-insert k j v s.sessions;
  get-del = λ k j s. lookup-erase k j s.sessions;
}

abbrev members_of : String → Map String (List String) → List String
members_of k m = to_set (or_else (lookup k m) [])

members_of-put :
    (k j : String) (ms : List String) (m : Map String (List String)) (x : String)
    → contains (members_of j (insert k ms m)) x
      ≡ (if k == j then contains ms x else contains (members_of j m) x)
members_of-put k j ms m x = ground (
  arith,
  lookup-insert k j ms m,
  contains-to_set ms x,
  contains-to_set (or_else (lookup j m) []) x,
)

abbrev less : List String → List String → List String
less ms xs = keep (λ x. not (contains ms x)) xs

pub members_of-more :
    (k j : String) (ms : List String) (m : Map String (List String)) (x : String)
    → contains (members_of j (insert k (ms ++ members_of k m) m)) x
      ≡ ((k == j && contains ms x) || contains (members_of j m) x)
members_of-more k j ms m x = ground (
  arith,
  members_of-put k j (ms ++ members_of k m) m x,
  contains-append ms (members_of k m) x,
  string_eq.beq_iff k j,
)

pub members_of-less :
    (k j : String) (ms : List String) (m : Map String (List String)) (x : String)
    → contains (members_of j (insert k (less ms (members_of k m)) m)) x
      ≡ (not (k == j && contains ms x) && contains (members_of j m) x)
members_of-less k j ms m x = ground (
  arith,
  members_of-put k j (less ms (members_of k m)) m x,
  contains-keep (λ y. not (contains ms y)) (members_of k m) x,
  string_eq.beq_iff k j,
)

pub members_of-none :
    (k j : String) (m : Map String (List String)) (x : String)
    → contains (members_of j (insert k [] m)) x ≡ (not (k == j) && contains (members_of j m) x)
unfolding contains
members_of-none k j m x = ground (arith, members_of-put k j [] m x)

unfoldable pub set_commands : SetCommands Memory
set_commands = record {
  smembers = λ k s. members_of k s.sets;
  sadd = λ k ms s. record s { sets = insert k (ms ++ members_of k s.sets) s.sets };
  srem = λ k ms s. record s { sets = insert k (less ms (members_of k s.sets)) s.sets };
  del = λ k s. record s { sets = insert k [] s.sets };
  pexpire = λ k ttl s. s;
  smembers-NoDup = λ k s. NoDup-to_set (or_else (lookup k s.sets) []);
  smembers-sadd = λ k j ms s m. members_of-more k j ms s.sets m;
  smembers-srem = λ k j ms s m. members_of-less k j ms s.sets m;
  smembers-del = λ k j s m. members_of-none k j s.sets m;
  smembers-pexpire = λ k j ttl s. refl;
}

unfoldable pub session_store : SessionStore Memory RealtimeSessionRecord
unfolding session_commands set_commands
session_store = record {
  strings = session_commands;
  sets = set_commands;
  get-sadd = λ k j ms s. refl;
  get-srem = λ k j ms s. refl;
  smembers-set = λ k j v ttl s h. refl;
}

abbrev hash_at : String → Memory → Map String (ReliableEnvelope String)
hash_at k s = or_else (lookup k s.pending) []

pub hash_at-put :
    (k j g : String) (m : Map String (ReliableEnvelope String)) (s : Memory)
    → lookup g (hash_at j (record s { pending = insert k m s.pending }))
      ≡ (if k == j then lookup g m else lookup g (hash_at j s))
hash_at-put k j g m s = ground (arith, lookup-insert k j m s.pending)

pub hash_at-insert :
    (k f : String) (v : ReliableEnvelope String) (s : Memory) (j g : String)
    → lookup g (hash_at j (record s { pending = insert k (insert f v (hash_at k s)) s.pending }))
      ≡ (if k == j && f == g then some v else lookup g (hash_at j s))
hash_at-insert k f v s j g = ground (
  arith,
  hash_at-put k j g (insert f v (hash_at k s)) s,
  lookup-insert f g v (hash_at k s),
  string_eq.beq_iff k j,
)

pub hash_at-erase :
    (k f : String) (s : Memory) (j g : String)
    → lookup g (hash_at j (record s { pending = insert k (erase f (hash_at k s)) s.pending }))
      ≡ (if k == j && f == g then none else lookup g (hash_at j s))
hash_at-erase k f s j g = ground (
  arith,
  hash_at-put k j g (erase f (hash_at k s)) s,
  lookup-erase f g (hash_at k s),
  string_eq.beq_iff k j,
)

unfoldable pub pending_commands : HashCommands Memory (ReliableEnvelope String)
pending_commands = record {
  hget = λ k f s. lookup f (hash_at k s);
  hset = λ k f v s. record s { pending = insert k (insert f v (hash_at k s)) s.pending };
  hdel = λ k f s. record s { pending = insert k (erase f (hash_at k s)) s.pending };
  hgetall = λ k s. values (hash_at k s);
  pexpire = λ k ttl s. s;
  hget-hset = λ k f v s j g. hash_at-insert k f v s j g;
  hget-hdel = λ k f s j g. hash_at-erase k f s j g;
  hget-pexpire = λ k ttl s j g. refl;
}
