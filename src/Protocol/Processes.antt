-- ===== src/Protocol/Processes.antt =====
-- internal/protocol/management.go: `processRegistry` and `processList`. Every operation holds the lock for
-- all of its access to the map, so that any interleaving is a sequence of operations. The map is the list
-- of its entries: the key of an entry is its ID. A function of a connection is known by a number.
pub mod Laws
use goinception_plus.Prelude.{
  ℕ, ◌-◌, ◌/◌, Bool, true, false, not, ◌&&◌, Option, none, some, List, [], ◌∷◌, ◌++◌, if◌then◌else◌,
  ◌==◌, nat_eq, ltb, take, length, map,
}
use goinception_plus.Strings.{Text, txt}
use goinception_plus.Strings.Utf8.{encode}

-- The zero time is none.
pub record ProcessInfo : Type 0 where
  pub id : ℕ
  pub user : Text
  pub from_host : Text
  pub dest_user : Text
  pub dest_host : Text
  pub dest_port : ℕ
  pub database : Text
  pub command : Text
  pub state : Text
  pub info : Text
  pub started : Option ℕ
  pub cancel : Option ℕ
  pub close_conn : Option ℕ

-- `items[id]`
unfoldable pub item : ℕ → List ProcessInfo → Option ProcessInfo
item id [] = none
item id (p ∷ rest) = if p.id == id then some p else item id rest

unfoldable pub add : ProcessInfo → List ProcessInfo → List ProcessInfo
add p [] = p ∷ []
add p (q ∷ rest) = let later = add p rest in if q.id == p.id then p ∷ rest else q ∷ later

unfoldable pub remove : ℕ → List ProcessInfo → List ProcessInfo
remove id [] = []
remove id (p ∷ rest) = let later = remove id rest in if p.id == id then later else p ∷ later

-- A change of the entry that is there.
unfoldable pub update : ℕ → (ProcessInfo → ProcessInfo) → List ProcessInfo → List ProcessInfo
update id f [] = []
update id f (p ∷ rest) =
    let later = update id f rest in if p.id == id then f p ∷ rest else p ∷ later

pub data Operation : Type 0 where
  add_process : ProcessInfo → Operation
  remove_process : ℕ → Operation
  set_db : ℕ → Text → Operation
  set_target : ℕ → Text → Text → ℕ → Operation
  begin_command : ℕ → Text → Text → ℕ → ℕ → Operation
  end_command : ℕ → Operation

-- What an operation makes of an entry that stays; `begin` reads the clock.
unfoldable pub changed : Operation → ProcessInfo → ProcessInfo
changed (set_db id db) p = record p { database = db }
changed (set_target id user host port) p = record p {
  dest_user = user;
  dest_host = host;
  dest_port = port;
}
changed (begin_command id command info now cancel) p = record p {
  command = command;
  state = txt "executing";
  info = info;
  started = some now;
  cancel = some cancel;
}
changed (end_command id) p = record p {
  command = txt "Sleep";
  state = [];
  info = [];
  cancel = none;
}
changed (add_process q) p = q
changed (remove_process id) p = p

unfoldable pub apply : Operation → List ProcessInfo → List ProcessInfo
unfolding add remove update changed
apply (add_process p) r = add p r
apply (remove_process id) r = remove id r
apply (set_db id db) r = update id (changed (set_db id db)) r
apply (set_target id user host port) r = update id (changed (set_target id user host port)) r
apply (begin_command id command info now cancel) r =
    update id (changed (begin_command id command info now cancel)) r
apply (end_command id) r = update id (changed (end_command id)) r

unfoldable pub apply_all : List Operation → List ProcessInfo → List ProcessInfo
unfolding apply
apply_all [] r = r
apply_all (op ∷ rest) r = apply_all rest (apply op r)

unfoldable pub insert_by_id : ProcessInfo → List ProcessInfo → List ProcessInfo
insert_by_id p [] = p ∷ []
insert_by_id p (q ∷ rest) =
    let later = insert_by_id p rest in if ltb p.id q.id then p ∷ q ∷ rest else q ∷ later

-- The entries by their IDs.
unfoldable pub snapshot : List ProcessInfo → List ProcessInfo
unfolding insert_by_id
snapshot [] = []
snapshot (p ∷ rest) = insert_by_id p (snapshot rest)

abbrev calls_of : Option ℕ → List ℕ
calls_of none = []
calls_of (some f) = f ∷ []

-- The functions that are called, and whether the process is there.
unfoldable pub kill : ℕ → Bool → List ProcessInfo → Bool × List ℕ
unfolding item
kill id connection r = elim (item id r) [
  | none ↦ (false, [])
  | some p ↦ (true, calls_of p.cancel ++ (if connection then calls_of p.close_conn else []))
]

unfoldable pub close_all : List ProcessInfo → List ℕ
close_all [] = []
close_all (p ∷ rest) = calls_of p.cancel ++ (calls_of p.close_conn ++ close_all rest)

-- A row of the process list; the info is bytes.
pub record ProcessRow : Type 0 where
  pub id : ℕ
  pub dest_user : Text
  pub dest_host : Text
  pub dest_port : ℕ
  pub from_host : Text
  pub command : Text
  pub state : Text
  pub seconds : ℕ
  pub info : List ℕ

-- `now` is in nanoseconds, as the times of the entries.
unfoldable pub process_row : Bool → ℕ → ProcessInfo → ProcessRow
process_row full now p =
    let info = encode p.info in
    record {
      id = p.id;
      dest_user = p.dest_user;
      dest_host = p.dest_host;
      dest_port = p.dest_port;
      from_host = p.user ++ (txt "@" ++ p.from_host);
      command = p.command;
      state = p.state;
      seconds = elim p.started [ none ↦ 0 | some t ↦ (now - t) / 1000000000 ];
      info = if not full && ltb 100 (length info) then take 100 info else info;
    }

unfoldable pub process_list : Bool → ℕ → List ProcessInfo → List ProcessRow
unfolding process_row snapshot
process_list full now r = map (process_row full now) (snapshot r)
