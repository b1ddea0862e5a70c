-- ===== src/Realtime/Examples/Nodes.antt =====
-- A node that a client enters, answers and leaves.
use open_chat_be.Prelude.{String, lookup, nat_eq, ne_of_beq, refl, string_eq, true}
use open_chat_be.Realtime.Gateway.{Gateway}
use open_chat_be.Realtime.Gateway.Node.{
  Event, connection, auth_connect, chat_join, disconnect, handle, initial, start, next,
}
use open_chat_be.Realtime.Gateway.Node.Entry.{IsSoundNode}
use open_chat_be.Realtime.Gateway.Node.Soundness.{Reach-IsSoundNode}
use open_chat_be.Realtime.Sessions.Restore.{AreKeyed}
use open_chat_be.Realtime.Examples.{Memory, challenge_commands, session_store, pending_commands}
use open_chat_be.Realtime.Examples.Access.{alice, world, challenged, config, body}

abbrev handled : Event Memory String → Gateway Memory → Gateway Memory
handled e g =
    handle challenge_commands session_store pending_commands world config 3 (λ client. true) e g

abbrev connected : Gateway Memory
connected = handled (connection 1 "socket") (initial challenged)

abbrev entered : Gateway Memory
entered = handled (auth_connect 20 "s1" 1 body) connected

keyed : AreKeyed session_store config.sessions connected.redis
unfolding open_chat_be.Prelude.lookup session_store handle
    open_chat_be.Realtime.Gateway.handle_connection
keyed id r found = cc found

abbrev left : Gateway Memory
left = handled (disconnect 40 1) (handled (chat_join alice "r1") entered)

Reach-IsSoundNode_example : IsSoundNode left
unfolding challenge_commands session_store open_chat_be.Prelude.lookup
Reach-IsSoundNode_example =
    Reach-IsSoundNode challenge_commands session_store pending_commands world config 3
      (λ client. true) (λ key id s. refl) challenged left
      (next
        (next
          (next (next start (connection 1 "socket") refl) (auth_connect 20 "s1" 1 body)
            (ne_of_beq "s1" "" refl, keyed))
          (chat_join alice "r1") tt)
        (disconnect 40 1) tt)
