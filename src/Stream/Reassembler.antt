-- ===== src/Stream/Reassembler.antt =====
-- class StreamReassembler of dpkt/stream.py: the table of connections, the delivery of reassembled
-- data to the callbacks, and eviction. `self.connections` is a Python dict, a list of entries in the
-- order of insertion.
pub mod Feed
pub mod Keys
pub mod Dict
pub mod Bounds
pub mod Delivered
pub mod EndToEnd
pub mod Counts
use dpkt_ng.Base.{
  ℕ, ◌+◌, ◌-◌, ◌/◌, ◌%◌, Bool, true, false, not, ◌&&◌, ◌||◌, Option, none, some, List, [], ◌∷◌,
  ◌++◌, leb, ltb, ◌==◌, list_eq, if◌then◌else◌, length,
}
use dpkt_ng.Base.Int.{ℤ, pos, ◌+ℤ◌, ◌-ℤ◌, ltb_ℤ}
use dpkt_ng.Stream.Buffer.{DirectionBuffer, is_empty, get_data}
use dpkt_ng.Stream.Connection.{Connection, new_connection, is_closed, feed_connection, merged_data}

-- A 4-byte address, as the '4s' field of an IP header holds it.
pub record Addr : Type 0 where
  pub b0 : ℕ
  pub b1 : ℕ
  pub b2 : ℕ
  pub b3 : ℕ

-- The decimal text of a byte.
unfoldable pub decimal : ℕ → List ℕ
decimal n =
    if ltb n 10
    then (48 + n) ∷ []
    else if ltb n 100
    then (48 + n / 10) ∷ (48 + n % 10) ∷ []
    else (48 + n / 100) ∷ (48 + n / 10 % 10) ∷ (48 + n % 10) ∷ []

-- socket.inet_ntoa: the dotted text.
unfoldable pub inet_ntoa : Addr → List ℕ
inet_ntoa a =
    decimal a.b0 ++ (b'.' ∷ decimal a.b1) ++ (b'.' ∷ decimal a.b2) ++ (b'.' ∷ decimal a.b3)

-- (ip, port)
abbrev pub Endpoint : Type 0
Endpoint = List ℕ × ℕ

-- Python's `<` on texts.
unfoldable pub text_lt : List ℕ → List ℕ → Bool
text_lt [] [] = false
text_lt [] (y ∷ ys) = true
text_lt (x ∷ xs) [] = false
text_lt (x ∷ xs) (y ∷ ys) = ltb x y || ((x == y) && text_lt xs ys)

-- Python's `<=` on pairs: by the first parts that differ.
unfoldable pub endpoint_le : Endpoint → Endpoint → Bool
endpoint_le a b = if list_eq a.0 b.0 then leb a.1 b.1 else text_lt a.0 b.0

-- The 4-tuple (ip, port, ip, port).
abbrev pub ConnId : Type 0
ConnId = Endpoint × Endpoint

-- `a + b if a <= b else b + a`
unfoldable pub conn_id : Endpoint → Endpoint → ConnId
conn_id a b = if endpoint_le a b then (a, b) else (b, a)

abbrev pub endpoint_eq : Endpoint → Endpoint → Bool
endpoint_eq a b = list_eq a.0 b.0 && (a.1 == b.1)

unfoldable pub id_eq : ConnId → ConnId → Bool
id_eq k j = endpoint_eq k.0 j.0 && endpoint_eq k.1 j.1

abbrev pub Table : Type 0
Table = List (ConnId × Connection)

-- connections.get(k)
unfoldable pub lookup : ConnId → Table → Option Connection
lookup k [] = none
lookup k ((j, c) ∷ rest) = if id_eq j k then some c else lookup k rest

-- connections[k] = c, which keeps the place of a key that is there.
unfoldable pub put : ConnId → Connection → Table → Table
put k c [] = (k, c) ∷ []
put k c ((j, d) ∷ rest) = if id_eq j k then (j, c) ∷ rest else (j, d) ∷ put k c rest

-- del connections[k]
unfoldable pub remove : ConnId → Table → Table
remove k [] = []
remove k ((j, d) ∷ rest) = if id_eq j k then rest else (j, d) ∷ remove k rest

-- `output_mode` is read only as `output_mode == 'separate'`. A callback is known by its number.
pub record StreamReassembler : Type 0 where
  pub max_connections : ℕ
  pub max_buffer_per_dir : ℕ
  pub separate : Bool
  pub fill_gaps : Bool
  pub connections : Table
  pub callbacks : List ℕ

-- A call cb(conn, data), with the id of the connection.
pub record Delivery : Type 0 where
  pub callback : ℕ
  pub conn : ConnId
  pub bytes : List ℕ

-- The fields of the parsed IP and TCP headers that `feed` reads.
pub record TcpPacket : Type 0 where
  pub src : Addr
  pub dst : Addr
  pub sport : ℕ
  pub dport : ℕ
  pub seq : ℕ
  pub ack : ℕ
  pub flags : ℕ
  pub payload : List ℕ

-- StreamReassembler.on_data
unfoldable pub on_data : ℕ → StreamReassembler → StreamReassembler
on_data cb r = record r { callbacks = r.callbacks ++ cb ∷ [] }

abbrev pub holds_nothing : Connection → Bool
holds_nothing c =
    is_empty c.c2s.contiguous
    && (is_empty c.c2s.segments && (is_empty c.s2c.contiguous && is_empty c.s2c.segments))

-- The first entry that passes a test.
unfoldable pub first_id : (Connection → Bool) → Table → Option ConnId
first_id p [] = none
first_id p ((k, c) ∷ rest) = if p c then some k else first_id p rest

-- The key of `max`: the out-of-order bytes of both directions.
unfoldable pub waiting : Connection → ℤ
waiting c =
    pos c.c2s.total_buffered
    -ℤ pos (length c.c2s.contiguous)
    +ℤ pos c.s2c.total_buffered
    -ℤ pos (length c.s2c.contiguous)

-- `max` keeps the first of equal entries.
unfoldable pub worst_from : ConnId → Connection → Table → ConnId
worst_from k c [] = k
worst_from k c ((j, d) ∷ rest) = elim (ltb_ℤ (waiting c) (waiting d)) [
  | true ↦ worst_from j d rest
  | false ↦ worst_from k c rest
]

abbrev pub worst : Table → Option ConnId
worst [] = none
worst ((k, c) ∷ rest) = some (worst_from k c rest)

abbrev pub or_else {ℓ} : {A : Type ℓ} → Option A → Option A → Option A
or_else none o = o
or_else (some a) o = some a

-- The entry that `_evict_one` deletes.
unfoldable pub victim : Table → Option ConnId
victim t =
    or_else (first_id (λ c. is_closed c && holds_nothing c) t)
      (or_else (first_id is_closed t) (worst t))

abbrev pub remove_found : Option ConnId → Table → Table
remove_found none t = t
remove_found (some k) t = remove k t

-- StreamReassembler._evict_one
unfoldable pub evict_one : Table → Table
evict_one t = remove_found (victim t) t
