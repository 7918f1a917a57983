-- ===== src/Gateway/Tests.antt =====
-- Two clients at the hub, and three calls of the balancer.
use dantegpu_core.Prelude.{
  String, List, [], ◌∷◌, none, Bool, true, false, not, ◌≡◌, ◌↔◌, refl, pos, Unicode, ascii, ok,
  arith, inl, inr,
}
use dantegpu_core.Gateway.Balancer.{ServiceEntry, next}
use dantegpu_core.Gateway.Hub.{Message, Client, Clients, panicked, new_hub, handle_message, write}
use dantegpu_core.Gateway.Hub.Running.{
  started, broadcast, broadcast_to_all, broadcast_to_user, send_on, take_message, take_registration,
  take_unregistration,
}
use dantegpu_core.Gateway.Hub.Safety.{HasUniqueIds, IsReady, IsDistinct, IsOpen}
use dantegpu_core.Gateway.Hub.Turns.{IsSound, StaysSound, HasRoom, SendingOpen, BroadcastOpen}
use dantegpu_core.Gateway.Hub.Histories.{Event, run, IsProper, run-Survives}

instance abbrev tables : Unicode
tables = ascii

-- The first client has room for one message.
abbrev client_of : Bool → Client
client_of true = record { id = "a"; user_id = "ann"; capacity = 1 }
client_of false = record { id = "b"; user_id = "bob"; capacity = 2 }

abbrev same_bool : Bool → Bool → Bool
same_bool true q = q
same_bool false q = not q

same_bool_iff : (p q : Bool) → (same_bool p q ≡ true) ↔ (p ≡ q)
same_bool_iff p q = ground arith

instance abbrev two_clients : Clients Bool
two_clients = record { client = client_of; same = same_bool; same_iff = same_bool_iff }

two_clients-HasUniqueIds : HasUniqueIds two_clients
unfolding HasUniqueIds
two_clients-HasUniqueIds true true e = refl
two_clients-HasUniqueIds true false e = ground (arith, e)
two_clients-HasUniqueIds false true e = ground (arith, e)
two_clients-HasUniqueIds false false e = refl

abbrev notice : Message
notice = record { type = "notification"; body = []; timestamp = 1 }

-- A send and a broadcast take turns; a second broadcast, alone, finds the first client full and closes it.
abbrev events : List (Event Bool)
events =
    Event.registers true
    ∷ Event.registers false
    ∷ Event.calls_user "bob" notice
    ∷ Event.calls_all notice
    ∷ Event.takes
    ∷ Event.sends 0
    ∷ Event.broadcasts
    ∷ Event.sends 0
    ∷ Event.broadcasts
    ∷ Event.sends 0
    ∷ Event.broadcasts
    ∷ Event.writes 1 false
    ∷ Event.calls_all notice
    ∷ Event.takes
    ∷ Event.broadcasts
    ∷ Event.broadcasts
    ∷ Event.broadcasts
    ∷ Event.unregisters true
    ∷ []

events-IsProper : IsProper events started
unfolding IsProper IsOpen started new_hub take_registration take_message broadcast_to_all
    broadcast_to_user send_on HasRoom broadcast write take_unregistration
events-IsProper = (
  refl,
  (
    refl,
    (
      tt,
      (
        tt,
        (
          tt,
          (
            tt,
            (
              inr refl,
              (
                tt,
                (
                  inr refl,
                  (tt, (inl refl, (tt, (tt, (tt, (inl refl, (inl refl, (inl refl, (tt, tt))))))))),
                ),
              ),
            ),
          ),
        ),
      ),
    ),
  ),
)

run-Survives_example : StaysSound (run events started)
unfolding IsSound IsReady IsDistinct BroadcastOpen SendingOpen started new_hub
run-Survives_example =
    run-Survives events started two_clients-HasUniqueIds events-IsProper ((tt, tt), (tt, tt))

-- A ping of a client that a broadcast has closed panics.
ping_of_closed_panics :
    handle_message 5 true
      (record { type = "ping"; body = []; timestamp = 4 })
      (record new_hub { channels = λ p. record { queue = []; is_closed = true } })
    ≡ panicked
unfolding handle_message new_hub
ping_of_closed_panics = refl

-- The broadcast closes the first client, which is full, between the start of a send to its user and its visit.
send_while_broadcasting_panics :
    run
      (Event.registers true
        ∷ Event.calls_all notice
        ∷ Event.takes
        ∷ Event.broadcasts
        ∷ Event.broadcasts
        ∷ Event.calls_user "ann" notice
        ∷ Event.calls_all notice
        ∷ Event.takes
        ∷ Event.broadcasts
        ∷ Event.sends 0
        ∷ [])
      started
    ≡ none
unfolding run started take_registration take_message broadcast_to_all broadcast new_hub
    broadcast_to_user send_on
send_while_broadcasting_panics = refl

-- Both clients have one ID.
abbrev shared_id : Clients Bool
shared_id = record {
  client = λ p. record { id = "a"; user_id = "ann"; capacity = 0 };
  same = same_bool;
  same_iff = same_bool_iff;
}

-- The first is closed by a broadcast, the second registers, and the first unregisters.
reused_id_panics :
    run ⦃c = shared_id⦄
      (Event.registers true
        ∷ Event.calls_all notice
        ∷ Event.takes
        ∷ Event.broadcasts
        ∷ Event.broadcasts
        ∷ Event.registers false
        ∷ Event.unregisters true
        ∷ [])
      started
    ≡ none
unfolding run started take_registration take_message broadcast_to_all broadcast new_hub
    take_unregistration
reused_id_panics = refl

abbrev entry : String → ServiceEntry
entry address = record {
  service_address = address;
  node_address = "node";
  port = pos 80;
  meta = [];
  tags = "HTTPS" ∷ [];
}

-- The first call takes the second entry.
first_is_second :
    (next (λ t. none) (entry "one" ∷ entry "two" ∷ []) 0).1
    ≡ ok (record { scheme = "https"; address = "two"; port = pos 80 })
unfolding next
first_is_second = refl
