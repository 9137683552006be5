-- ===== src/Hub.antt =====
-- ws/hub.go: the hub as a step relation. Run is one goroutine that receives from the unbuffered
-- channels Register and Unregister and from Broadcast, whose buffer holds 256 messages. A send to an
-- unbuffered channel is one step with its receipt, so that it can be taken only while Run stands in
-- its select. The goroutines of ServeWs (register, unregister) and of the bridge in ws/bridge.go
-- (queue a message) may take their steps at any time at which these are possible. A connection is a
-- number.
pub mod Blocking
pub mod Busy
pub mod Reachable
pub mod Connections
pub mod Leak
use deping_client_service.Base.{
  List, String, [], delete_where, insert_missing, length, ℕ, ◌++◌, ◌<◌, ◌==◌, ◌∷◌, ◌≡◌,
}

-- Where Run stands: in its select, in the loop over the copied clients, or at the send to Unregister
-- after a failed write.
pub data Phase : Type 0 where
  selecting : Phase
  writing : String → List ℕ → Phase
  unregistering : ℕ → String → List ℕ → Phase

pub record Hub : Type 0 where
  pub clients : List ℕ
  pub broadcast : List String
  pub phase : Phase
  -- The messages that were written, the newest first.
  pub written : List (ℕ × String)

abbrev pub new_hub : Hub
new_hub = record { clients = []; broadcast = []; phase = selecting; written = [] }

abbrev pub buffer_size : ℕ
buffer_size = 256

-- Clients[client] = true, and delete(Clients, client)
abbrev pub add_client : ℕ → List ℕ → List ℕ
add_client c cs = insert_missing (λ x. x == c) c cs

abbrev pub drop_client : ℕ → List ℕ → List ℕ
drop_client c cs = delete_where (λ x. x == c) cs

pub data Step : Hub → Hub → Type 0 where
  register_client :
      (c : ℕ) (h : Hub)
      → h.phase ≡ selecting
      → Step h (record h { clients = add_client c h.clients })
  unregister_client :
      (c : ℕ) (h : Hub)
      → h.phase ≡ selecting
      → Step h (record h { clients = drop_client c h.clients })
  queue :
      (m : String) (h : Hub)
      → length h.broadcast < buffer_size
      → Step h (record h { broadcast = h.broadcast ++ m ∷ [] })
  receive :
      (m : String) (ms : List String) (h : Hub)
      → h.phase ≡ selecting
      → h.broadcast ≡ m ∷ ms
      → Step h (record h { broadcast = ms; phase = writing m h.clients })
  write :
      (m : String) (c : ℕ) (cs : List ℕ) (h : Hub)
      → h.phase ≡ writing m (c ∷ cs)
      → Step h (record h { phase = writing m cs; written = (c, m) ∷ h.written })
  write_error :
      (m : String) (c : ℕ) (cs : List ℕ) (h : Hub)
      → h.phase ≡ writing m (c ∷ cs)
      → Step h (record h { phase = unregistering c m cs })
  finish : (m : String) (h : Hub) → h.phase ≡ writing m [] → Step h (record h { phase = selecting })

-- Any number of steps.
pub data Steps : Hub → Hub → Type 0 where
  stop : (h : Hub) → Steps h h
  next : (h h' h'' : Hub) → Step h h' → Steps h' h'' → Steps h h''
