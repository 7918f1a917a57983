-- ===== src/Gateway/Hub.antt =====
-- services/api-gateway/internal/websocket/hub.go. A client is known by its pointer, of a type with a test of equality;
-- the map from IDs to clients is the list of its clients, whose keys are their IDs. A send on
-- or a close of a closed channel panics.
use dantegpu_core.Prelude.{
  ℕ, zero, suc, ◌+◌, String, List, [], ◌∷◌, ◌++◌, Bool, true, false, not, ◌&&◌, ◌||◌, if◌then◌else◌,
  ltb, text_eq, filter, length, drop, Params, Json, Fields, Items, ◌≡◌, ◌↔◌,
}
pub mod Running
pub mod Safety
pub mod Turns
pub mod Histories

pub record Message : Type 0 where
  pub type : String
  pub body : Params
  pub timestamp : ℕ

pub record Client : Type 0 where
  pub id : String
  pub user_id : String
  -- of `Send`
  pub capacity : ℕ

-- Pointers to clients.
pub record Clients (P : Type 0) : Type 0 where
  pub client : P → Client
  pub same : P → P → Bool
  pub same_iff : (p q : P) → (same p q ≡ true) ↔ (p ≡ q)

-- The channel `Send`.
pub record Channel : Type 0 where
  pub queue : List Message
  pub is_closed : Bool

pub record Hub (P : Type 0) : Type 0 where
  pub clients : List P
  pub channels : P → Channel

-- What a step comes to; `blocked` waits for room.
pub data Stepped (P : Type 0) : Type 0 where
  went : Hub P → Stepped P
  panicked blocked : Stepped P

-- `NewHub`, with the channels of the clients that are still to come.
unfoldable pub new_hub : {P : Type 0} → Hub P
new_hub = record { clients = []; channels = λ p. record { queue = []; is_closed = false } }

module _ {P : Type 0} ⦃c : Clients P⦄ where
  abbrev pub set_channel : P → Channel → Hub P → Hub P
  set_channel p new h = record h { channels = λ q. if c.same q p then new else h.channels q }

  abbrev pub has_id : String → P → Bool
  has_id id p = text_eq (c.client p).id id

  -- `delete(h.clients, id)`
  unfoldable pub drop_id : String → List P → List P
  drop_id id ps = filter (λ p. not (has_id id p)) ps

  unfoldable pub knows : String → List P → Bool
  knows id [] = false
  knows id (p ∷ ps) = has_id id p || knows id ps

  -- `close(client.Send)`
  unfoldable pub close : P → Hub P → Stepped P
  close p h =
      if (h.channels p).is_closed
      then panicked
      else went (set_channel p (record (h.channels p) { is_closed = true }) h)

  -- `client.Send <- message`, where there is room
  unfoldable pub push : P → Message → Hub P → Hub P
  push p m h = set_channel p (record (h.channels p) { queue = (h.channels p).queue ++ m ∷ [] }) h

  unfoldable pub has_room : P → Hub P → Bool
  has_room p h = ltb (length (h.channels p).queue) (c.client p).capacity

  -- The cases of `Run`.
  unfoldable pub register : P → Hub P → Stepped P
  unfolding drop_id
  register p h = went (record h { clients = p ∷ drop_id (c.client p).id h.clients })

  unfoldable pub unregister : P → Hub P → Stepped P
  unfolding knows drop_id close
  unregister p h =
      if knows (c.client p).id h.clients
      then close p (record h { clients = drop_id (c.client p).id h.clients })
      else went h

  -- One client of the broadcast: it gets the message or is closed and dropped.
  unfoldable pub send_or_drop : P → Message → Hub P → Stepped P
  unfolding has_room push close drop_id
  send_or_drop p m h =
      if (h.channels p).is_closed
      then panicked
      else if has_room p h
      then went (push p m h)
      else close p (record h { clients = drop_id (c.client p).id h.clients })

  -- One client of `BroadcastToUser`.
  unfoldable pub send_or_skip : String → P → Message → Hub P → Stepped P
  unfolding has_room push
  send_or_skip user p m h =
      if not (text_eq (c.client p).user_id user)
      then went h
      else if (h.channels p).is_closed
      then panicked
      else if has_room p h
      then went (push p m h)
      else went h

  -- `handleMessage`: a ping is answered on `Send`, which waits for room.
  unfoldable pub handle_message : ℕ → P → Message → Hub P → Stepped P
  unfolding has_room push
  handle_message now p m h =
      if not (text_eq m.type "ping")
      then went h
      else if (h.channels p).is_closed
      then panicked
      else if has_room p h
      then went (push p (record { type = "pong"; body = []; timestamp = now }) h)
      else blocked

  -- `WritePump` takes so many messages.
  unfoldable pub write : ℕ → P → Hub P → Stepped P
  write n p h =
      went (set_channel p (record (h.channels p) { queue = drop n (h.channels p).queue }) h)

  -- `GetClientCount` and `GetUserClientCount`
  unfoldable pub get_client_count : Hub P → ℕ
  get_client_count h = length h.clients

  unfoldable pub count_user : String → List P → ℕ
  count_user user [] = 0
  count_user user (p ∷ ps) =
      (if text_eq (c.client p).user_id user then 1 else 0) + count_user user ps

  unfoldable pub get_user_client_count : String → Hub P → ℕ
  unfolding count_user
  get_user_client_count user h = count_user user h.clients
