-- ===== src/Gateway/Hub/Histories.antt =====
-- Interleavings of the loops of the hub.
use dantegpu_core.Prelude.{ℕ, String, List, [], ◌∷◌, Option, none, some, ◌≡◌, refl, sym, ◌⊎◌}
use mathlib.Core.Path.{subst}
use dantegpu_core.Gateway.Hub.{Message, Clients, write}
use dantegpu_core.Gateway.Hub.Running.{
  Running, after, take_registration, take_unregistration, take_message, broadcast, broadcast_to_all,
  broadcast_to_user, send_on,
}
use dantegpu_core.Gateway.Hub.Safety.{HasUniqueIds, IsOpen}
use dantegpu_core.Gateway.Hub.Turns.{
  HasRoom, IsSound, StaysSound, registers_StaysSound, unregisters_StaysSound, takes_StaysSound,
  broadcasts_StaysSound, sends_StaysSound, writes_StaysSound, called_all, called_user,
}

-- What happens at a hub; a message of a client other than a ping does nothing.
pub data Event (P : Type 0) : Type 0 where
  -- `Run` takes a client to register or to unregister, or a message to broadcast
  registers unregisters : P → Event P
  takes : Event P
  -- the broadcast visits its next client
  broadcasts : Event P
  -- `BroadcastToAll` and `BroadcastToUser` are called
  calls_all : Message → Event P
  calls_user : String → Message → Event P
  -- one `BroadcastToUser` visits its next client
  sends : ℕ → Event P
  -- `WritePump` takes so many messages
  writes : ℕ → P → Event P

module _ {P : Type 0} ⦃c : Clients P⦄ where
  unfoldable pub step : Event P → Running P → Option (Running P)
  step (Event.registers p) r = take_registration p r
  step (Event.unregisters p) r = take_unregistration p r
  step Event.takes r = take_message r
  step Event.broadcasts r = broadcast r
  step (Event.calls_all m) r = some (broadcast_to_all m r)
  step (Event.calls_user user m) r = some (broadcast_to_user user m r)
  step (Event.sends n) r = send_on n r
  step (Event.writes n p) r = after r (λ h. record r { hub = h }) (write n p r.hub)

  unfoldable pub follow : (Running P → Option (Running P)) → Option (Running P) → Option (Running P)
  follow f (some r) = f r
  follow f none = none

  unfoldable pub run : List (Event P) → Running P → Option (Running P)
  unfolding step follow
  run [] r = some r
  run (e ∷ es) r = follow (run es) (step e r)

  unfoldable pub Then : (Running P → Type 0) → Option (Running P) → Type 0
  Then Q (some r) = Q r
  Then Q none = Unit

  -- A client registers with an open channel, and the broadcast finds no full channel while a `BroadcastToUser`
  -- goes on.
  unfoldable pub MayHappen : Event P → Running P → Type 0
  MayHappen (Event.registers p) r = IsOpen r.hub p
  MayHappen Event.broadcasts r = (r.sending ≡ []) ⊎ HasRoom r.broadcasting r.hub
  MayHappen _ r = Unit

  unfoldable pub IsProper : List (Event P) → Running P → Type 0
  unfolding step MayHappen Then
  IsProper [] r = Unit
  IsProper (e ∷ es) r = MayHappen e r × Then (IsProper es) (step e r)

  step-StaysSound :
      (e : Event P) (r : Running P)
      → HasUniqueIds c
      → MayHappen e r
      → IsSound r
      → StaysSound (step e r)
  unfolding step MayHappen
  step-StaysSound (Event.registers p) r u m i = registers_StaysSound p r m i
  step-StaysSound (Event.unregisters p) r u m i = unregisters_StaysSound p r u i
  step-StaysSound Event.takes r u m i = takes_StaysSound r.hub r.queued r.broadcasting r.sending i
  step-StaysSound Event.broadcasts r u m i =
      broadcasts_StaysSound r.hub r.queued r.broadcasting r.sending m i
  step-StaysSound (Event.calls_all x) r u m i = called_all x r i
  step-StaysSound (Event.calls_user user x) r u m i = called_user user x r i
  step-StaysSound (Event.sends n) r u m i = sends_StaysSound n r i
  step-StaysSound (Event.writes n p) r u m i = writes_StaysSound n p r i

  -- Where no two clients have one ID, each registers with an open channel, and the broadcast finds no full channel while a
  -- BroadcastToUser goes on, no interleaving of registering, unregistering, writing and the turns of the loops sends on
  -- or closes a closed channel, and every client in the hub or still to be visited stays open.
  pub run-Survives :
      (events : List (Event P)) (r : Running P)
      → HasUniqueIds c
      → IsProper events r
      → IsSound r
      → StaysSound (run events r)
  unfolding run IsProper StaysSound Then follow
  run-Survives [] r u p i = (r, (refl, i))
  run-Survives (e ∷ es) r u p i =
      let (k, (s, sound)) = step-StaysSound e r u p.0 i in
      subst (λ x. StaysSound (follow (run es) x)) (sym s)
        (run-Survives es k u (subst (Then (IsProper es)) s p.1) sound)
