-- ===== src/Client/Commands/Rounds.antt =====
-- What the commands lead to.
use distributed_server_clien.Prelude.Bytes.{Bytes, codes, str_eq_refl}
use distributed_server_clien.Prelude.{
  ◌≡◌, ap, false, List, [], ◌∷◌, ◌++◌, Option, none, some, arith,
}
use distributed_server_clien.Client.Search.{SearchResults}
use distributed_server_clien.Client.Commands.{
  Action, exit, discover, unknown_filename, search, fetch, upload, remove, rejected, Reading,
  invalid_user_input, user_command, is_param_required, read_user_command, fetch_from, dispatch,
  run_round, run,
}

-- The server of an action that is a fetch.
abbrev pub server_of : Action → Option (Bytes × Bytes)
server_of (fetch filename server_ip) = some (filename, server_ip)
server_of exit = none
server_of discover = none
server_of unknown_filename = none
server_of (search pattern) = none
server_of (upload file_path) = none
server_of (remove filename) = none
server_of (rejected reason) = none

fetch_from-server_of :
    (param f ip : Bytes) (o : Option Bytes)
    → server_of (fetch_from param o) ≡ some (f, ip)
    → (param ≡ f) × (o ≡ some ip)
fetch_from-server_of param f ip none h = absurd (cc h)
fetch_from-server_of param f ip (some a) h = (cc h, cc h)

dispatch-server_of :
    (results : SearchResults) (comm param f ip : Bytes)
    → server_of (dispatch results comm param) ≡ some (f, ip)
    → results f ≡ some ip
unfolding dispatch
dispatch-server_of results comm param f ip h =
    ground (arith, fetch_from-server_of param f ip (results param))

read_user_command-cases :
    (to_lower : Bytes → Bytes) (results : SearchResults) (f ip : Bytes) (r : Reading)
    → server_of (elim r [
      | invalid_user_input reason ↦ rejected reason
      | user_command command param ↦ dispatch results (to_lower command) param
    ])
      ≡ some (f, ip)
    → results f ≡ some ip
read_user_command-cases to_lower results f ip (invalid_user_input reason) h = absurd (cc h)
read_user_command-cases to_lower results f ip (user_command command param) h =
    dispatch-server_of results (to_lower command) param f ip h

-- A line of input starts a fetch of a name from a server only if the results of the last search
-- have that server for that name.
pub run_round-fetch :
    (to_lower : Bytes → Bytes) (results : SearchResults) (tokens : List Bytes) (f ip : Bytes)
    → run_round to_lower results tokens ≡ fetch f ip
    → results f ≡ some ip
unfolding run_round
run_round-fetch to_lower results tokens f ip h =
    read_user_command-cases to_lower results f ip (read_user_command tokens) (ap server_of h)

read_user_command_alone :
    (t : Bytes) → is_param_required t ≡ false → read_user_command (t ∷ []) ≡ user_command t []
unfolding read_user_command
read_user_command_alone t p = ground arith

dispatch_exit :
    (results : SearchResults) (param : Bytes) → dispatch results (codes "exit") param ≡ exit
unfolding dispatch
dispatch_exit results param = ground (arith, str_eq_refl (codes "exit"))

run_round_exit :
    (to_lower : Bytes → Bytes) (results : SearchResults) (t : Bytes)
    → to_lower t ≡ codes "exit"
    → is_param_required t ≡ false
    → run_round to_lower results (t ∷ []) ≡ exit
unfolding run_round
run_round_exit to_lower results t e p =
    rw (read_user_command_alone t p, run_round, e) (dispatch_exit results [])

-- The loop of the client's `run` reads no line behind one whose only token `to_lower` makes `exit`
-- of and for which no parameter is required.
pub run_stops :
    (to_lower : Bytes → Bytes) (results : List Action → SearchResults) (done : List Action)
    (lines more : List (List Bytes)) (t : Bytes)
    → to_lower t ≡ codes "exit"
    → is_param_required t ≡ false
    → run to_lower results done (lines ++ (t ∷ []) ∷ more)
      ≡ run to_lower results done (lines ++ (t ∷ []) ∷ [])
unfolding run
run_stops to_lower results done [] more t e p = rw (run_round_exit to_lower (results done) t e p)
run_stops to_lower results done (l ∷ lines) more t e p =
    let a = run_round to_lower (results done) l in
    let rest = run_stops to_lower results (done ++ a ∷ []) lines more t e p in rw rest
