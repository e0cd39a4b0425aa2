-- ===== src/WebSocketPool/Directory.antt =====
-- The directory of online devices among the registrations and removals of all workers.
use cpp_backend_server.Base.{
  ℕ, ◌<◌, ◌≡◌, refl, ap, ◌∙◌, Bool, true, false, not, ◌&&◌, ◌||◌, Option, none, some, List, [], ◌∷◌,
  leb, ◌==◌, ==_refl, ==→eq, if◌then◌else◌, if_cases, Bool-cases, inl, inr, All, arith,
}
use cpp_backend_server.WebSocketPool.{
  Uuid, OnlineConnection, WebSocketPool, find, insert_or_assign, erase, add_index, is_same,
  remove_found, remove_index, push_of, push_found, push_to_device,
}

abbrev Entries : Type 0
Entries = List (Uuid × OnlineConnection)

find-insert :
    (i j : Uuid) (c : OnlineConnection) (m : Entries)
    → find j (insert_or_assign i c m) ≡ (if i == j then some c else find j m)
unfolding find insert_or_assign
find-insert i j c [] = refl
find-insert i j c ((d, x) ∷ m) = ground (arith, find-insert i j c m)

find-erase_other : (i j : Uuid) (m : Entries) → (i == j) ≡ false → find j (erase i m) ≡ find j m
unfolding find erase
find-erase_other i j [] e = refl
find-erase_other i j ((d, x) ∷ m) e = ground (arith, e, find-erase_other i j m e)

-- What workers tell the pool.
pub data Event : Type 0 where
  adds : Uuid → OnlineConnection → Event
  removes : Uuid → ℕ → ℕ → ℕ → Event

pub play : WebSocketPool → List Event → WebSocketPool
play p [] = p
play p (adds d c ∷ es) = play (add_index p d c) es
play p (removes d w fd s ∷ es) = play (remove_index p d w fd s) es

-- Anything but a new registration of the device, or the removal of the connection itself.
abbrev pub IsHarmless : Uuid → OnlineConnection → Event → Type 0
IsHarmless device c (adds d x) = (d == device) ≡ false
IsHarmless device c (removes d w fd s) = (d == device) && is_same c w fd s ≡ false

-- Registered and reachable.
record IsOnline (device : Uuid) (c : OnlineConnection) (p : WebSocketPool) : Type 0 where
  initialized : p.initialized ≡ true
  running : p.stopping ≡ false
  worker : leb p.worker_count c.worker_id ≡ false
  found : find device p.online_connections ≡ some c

refused :
    (stopping initialized : Bool) (workers worker : ℕ)
    → initialized ≡ true
    → stopping ≡ false
    → worker < workers
    → ¬ (stopping || not initialized || leb workers worker ≡ true)
refused stopping initialized workers worker i s w e = ground (arith, i, s, w, e)

add_index-IsOnline :
    (device : Uuid) (c : OnlineConnection) (p : WebSocketPool)
    → p.initialized ≡ true
    → p.stopping ≡ false
    → c.worker_id < p.worker_count
    → IsOnline device c (add_index p device c)
unfolding add_index
add_index-IsOnline device c p i s w =
    if_cases (IsOnline device c) (p.stopping || not p.initialized || leb p.worker_count c.worker_id)
      p (record p { online_connections = insert_or_assign device c p.online_connections })
      (λ e. absurd (refused p.stopping p.initialized _ _ i s w e))
      (λ e. record {
        initialized = i;
        running = s;
        worker = ground (arith, w);
        found =
            find-insert device device c p.online_connections
            ∙ ap (λ b. if b then some c else find device p.online_connections) (==_refl device);
      })

add_index-keeps :
    (device d : Uuid) (c x : OnlineConnection) (p : WebSocketPool)
    → (d == device) ≡ false
    → IsOnline device c p
    → IsOnline device c (add_index p d x)
unfolding add_index
add_index-keeps device d c x p e h =
    if_cases (IsOnline device c) (p.stopping || not p.initialized || leb p.worker_count x.worker_id)
      p (record p { online_connections = insert_or_assign d x p.online_connections }) (λ r. h)
      (λ r. record {
        initialized = h.initialized;
        running = h.running;
        worker = h.worker;
        found =
            find-insert d device x p.online_connections
            ∙ ap (λ b. if b then some x else find device p.online_connections) e
            ∙ h.found;
      })

remove_other :
    (device d : Uuid) (c : OnlineConnection) (w fd s : ℕ) (p : WebSocketPool)
    (o : Option OnlineConnection)
    → (d == device) ≡ false
    → IsOnline device c p
    → IsOnline device c (remove_found p d w fd s o)
unfolding remove_found
remove_other device d c w fd s p none e h = h
remove_other device d c w fd s p (some x) e h =
    if_cases (IsOnline device c) (is_same x w fd s)
      (record p { online_connections = erase d p.online_connections }) p
      (λ r. record {
        initialized = h.initialized;
        running = h.running;
        worker = h.worker;
        found = find-erase_other d device p.online_connections e ∙ h.found;
      })
      (λ r. h)

remove_index-keeps :
    (device d : Uuid) (c : OnlineConnection) (w fd s : ℕ) (p : WebSocketPool)
    → (d == device) && is_same c w fd s ≡ false
    → IsOnline device c p
    → IsOnline device c (remove_index p d w fd s)
unfolding remove_index remove_found
remove_index-keeps device d c w fd s p e h = elim (Bool-cases (d == device)) [
  | inl q ↦
      let there : find d p.online_connections ≡ some c =
        ap (λ k. find k p.online_connections) (==→eq d device q) ∙ h.found in
      rw there
        (if_cases (IsOnline device c) (is_same c w fd s) _ p (λ r. absurd (cc (e, q, r))) (λ r. h))
  | inr q ↦ remove_other device d c w fd s p (find d p.online_connections) q h
]

play-IsOnline :
    (device : Uuid) (c : OnlineConnection) (es : List Event) (p : WebSocketPool)
    → All (IsHarmless device c) es
    → IsOnline device c p
    → IsOnline device c (play p es)
unfolding play
play-IsOnline device c [] p all h = h
play-IsOnline device c (adds d x ∷ es) p all h =
    play-IsOnline device c es _ all.1 (add_index-keeps device d c x p all.0 h)
play-IsOnline device c (removes d w fd s ∷ es) p all h =
    play-IsOnline device c es _ all.1 (remove_index-keeps device d c w fd s p all.0 h)

-- Once an open pool has registered a connection for a device, a push to the device goes to that
-- connection, whatever the workers tell the pool in between, as long as nobody registers the device
-- anew or removes this very connection: a late removal of an older session, with another worker,
-- descriptor or session number, does not unregister it.
pub push_to_device-registered :
    (device : Uuid) (c : OnlineConnection) (p : WebSocketPool) (es : List Event)
    → p.initialized ≡ true
    → p.stopping ≡ false
    → c.worker_id < p.worker_count
    → All (IsHarmless device c) es
    → push_to_device (play (add_index p device c) es) device ≡ push_of device c ∷ []
unfolding push_to_device push_found
push_to_device-registered device c p es i s w all =
    let h = play-IsOnline device c es _ all (add_index-IsOnline device c p i s w) in
    rw (h.initialized, h.running, h.found, h.worker) refl
