-- ===== src/Tests/Protocol.antt =====
-- Examples of the theorems on the connections and the patterns of the protocol.
use goinception_plus.Prelude.{ℕ, arith, true, none, some, List, [], ◌∷◌, ◌≡◌, ◌↔◌, refl}
use goinception_plus.Strings.{Text, txt}
use goinception_plus.Protocol.Processes.{
  ProcessInfo, item, Operation, add_process, remove_process, set_db, begin_command, apply_all,
  snapshot, kill,
}
use goinception_plus.Protocol.Processes.Laws.{IsIncreasing, view_of, snapshot-view_of}
use goinception_plus.Protocol.Patterns.{like, unquote}
use goinception_plus.Protocol.Patterns.Laws.{IsLike, like_iff}

abbrev connected : ℕ → ProcessInfo
connected id = record {
  id = id;
  user = txt "root";
  from_host = txt "localhost";
  dest_user = [];
  dest_host = [];
  dest_port = 0;
  database = [];
  command = txt "Sleep";
  state = [];
  info = [];
  started = none;
  cancel = none;
  close_conn = some id;
}

-- Two connections, of which the later is closed while the earlier executes.
abbrev operations : List Operation
operations =
    add_process (connected 9)
    ∷ add_process (connected 4)
    ∷ set_db 4 (txt "app")
    ∷ begin_command 4 (txt "Query") (txt "select 1") 100 7
    ∷ remove_process 9
    ∷ []

snapshot-view_of_example :
    IsIncreasing (snapshot (apply_all operations []))
    × ((id : ℕ) → item id (snapshot (apply_all operations [])) ≡ view_of operations (λ n. none) id)
snapshot-view_of_example = snapshot-view_of operations

killed : kill 4 true (apply_all operations []) ≡ (true, 7 ∷ 4 ∷ [])
unfolding kill apply_all
killed = refl

like_iff_example : (like (txt "MAX_k") (txt "m%_K") ≡ true) ↔ IsLike (txt "MAX_k") (txt "m%_K")
like_iff_example = like_iff (txt "MAX_k") (txt "m%_K") (ground arith) (ground arith)

unquoted : unquote (txt " 'it''s' ") ≡ txt "it's"
unfolding unquote goinception_plus.Strings.trim_space
unquoted = refl
