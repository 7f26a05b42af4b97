-- ===== src/BrokerClient/Linked.antt =====
-- The connection of afkak/brokerclient.py's client: what `proto`, `connector`, `_dDown` and `requests`
-- may be at the same time.
use afkak.Prelude.{ℕ, ◌≡◌, refl, ◌≢◌, Bool, true, false, Option, none, some, [], ◌∷◌, arith}
use afkak.Prelude.Int.{ℤ}
use afkak.Wire.Struct.{Bytes}
use afkak.Protocol.Grouping.{Dict, ℤ_eq}
use afkak.BrokerClient.{
  RequestState, Connector, attempt, delay, stopped, Down, up, closing, closed, BrokerClient,
  connected, connect_failed, try_connect,
}

-- An open client with requests has a connection or is getting one, never both; a closed one has
-- neither, and no requests.
abbrev pub linked : Down → Option ℕ → Option Connector → Dict ℤ RequestState → Bool
linked up (some conn) none l = true
linked up (some conn) (some c) l = false
linked up none (some attempt) l = true
linked up none (some delay) l = true
linked up none (some stopped) l = false
linked up none none [] = true
linked up none none (x ∷ l) = false
linked closing (some conn) none [] = true
linked closing _ _ _ = false
linked closed none none [] = true
linked closed none (some stopped) [] = true
linked closed _ _ _ = false

abbrev pub IsLinked : BrokerClient → Type 0
IsLinked st = linked st.down st.proto st.connector st.requests ≡ true

-- Only whether there are requests matters.
linked_fewer :
    (down : Down) (proto : Option ℕ) (c : Option Connector) (m l : Dict ℤ RequestState)
    → (m ≡ [] → l ≡ [])
    → linked down proto c m ≡ true
    → linked down proto c l ≡ true
linked_fewer down proto c [] l f h = rw (f refl) h
linked_fewer up (some conn) none (x ∷ m) l f h = refl
linked_fewer up (some conn) (some c) (x ∷ m) l f h = cc h
linked_fewer up none (some attempt) (x ∷ m) l f h = refl
linked_fewer up none (some delay) (x ∷ m) l f h = refl
linked_fewer up none (some stopped) (x ∷ m) l f h = cc h
linked_fewer up none none (x ∷ m) l f h = cc h
linked_fewer closing (some conn) none (x ∷ m) l f h = cc h
linked_fewer closing (some conn) (some c) (x ∷ m) l f h = cc h
linked_fewer closing none c (x ∷ m) l f h = cc h
linked_fewer closed none none (x ∷ m) l f h = cc h
linked_fewer closed none (some stopped) (x ∷ m) l f h = cc h
linked_fewer closed none (some attempt) (x ∷ m) l f h = cc h
linked_fewer closed none (some delay) (x ∷ m) l f h = cc h
linked_fewer closed (some conn) c (x ∷ m) l f h = cc h

-- What the attributes tell of one another.
pub linked_attempt :
    (down : Down) (proto : Option ℕ) (c : Connector) (l : Dict ℤ RequestState)
    → linked down proto (some c) l ≡ true
    → c ≢ stopped
    → (down ≡ up) × (proto ≡ none)
linked_attempt down proto c l h n = ground arith

pub linked_proto :
    (down : Down) (conn : ℕ) (c : Option Connector) (l : Dict ℤ RequestState)
    → linked down (some conn) c l ≡ true
    → (down ≢ closed) × (c ≡ none)
linked_proto down conn c l h = ground arith

module _ (st : BrokerClient) (h : IsLinked st) where
  pub fewer-IsLinked :
      (l : Dict ℤ RequestState)
      → (st.requests ≡ [] → l ≡ [])
      → IsLinked (record st { requests = l })
  fewer-IsLinked l f = linked_fewer st.down st.proto st.connector st.requests l f h

  -- A connector whose deferred may fire.
  trying :
      (c : Connector) → st.connector ≡ some c → c ≢ stopped → (st.down ≡ up) × (st.proto ≡ none)
  trying c p n = linked_attempt st.down st.proto c st.requests (rw p at h) n

  pub connected-IsLinked :
      (send_string : Bytes → Option ℕ)
      → st.connector ≡ some attempt
      → IsLinked (connected send_string st).0
  unfolding connected
  connected-IsLinked send_string p = let now = trying attempt p (cc) in rw now.0

  pub connect_failed-IsLinked : st.connector ≡ some attempt → IsLinked (connect_failed st).0
  connect_failed-IsLinked p = let now = trying attempt p (cc) in rw (now.0, now.1)

  pub try_connect-IsLinked : st.connector ≡ some delay → IsLinked (try_connect st).0
  try_connect-IsLinked p = let now = trying delay p (cc) in rw (now.0, now.1)
