-- ===== src/Client/Commands.antt =====
-- The commands of the user (client/client.cpp): `read_user_command` and the loop of `run`. The tokens
-- of a line, as boost::split makes them, and boost::to_lower are arguments.
pub mod Rounds
use distributed_server_clien.Prelude.Bytes.{Bytes, codes, str_eq}
use distributed_server_clien.Prelude.{
  ℕ, Bool, true, false, ◌&&◌, ◌||◌, List, [], ◌∷◌, ◌++◌, Option, none, some, if◌then◌else◌,
}
use distributed_server_clien.Client.Search.{SearchResults}

pub data InvalidInput : Type 0 where
  no_command too_many_parameters parameter_required unknown_command : InvalidInput

unfoldable pub is_param_required : Bytes → Bool
is_param_required command =
    str_eq command (codes "fetch")
    || (str_eq command (codes "upload") || str_eq command (codes "remove"))

unfoldable pub no_parameter_allowed : Bytes → Bool
no_parameter_allowed command = str_eq command (codes "exit") || str_eq command (codes "discover")

-- boost::algorithm::join with one blank.
abbrev pub join_blanks : List Bytes → Bytes
join_blanks [] = []
join_blanks (t ∷ []) = t
join_blanks (t ∷ t' ∷ ts) = t ++ b' ' ∷ join_blanks (t' ∷ ts)

pub data Reading : Type 0 where
  invalid_user_input : InvalidInput → Reading
  user_command : (command param : Bytes) → Reading

abbrev pub is_nil : List Bytes → Bool
is_nil [] = true
is_nil (t ∷ ts) = false

unfoldable pub read_user_command : List Bytes → Reading
read_user_command [] = invalid_user_input no_command
read_user_command (t ∷ ts) =
    if is_nil ts
    then (if is_param_required t then invalid_user_input parameter_required else user_command t [])
    else if no_parameter_allowed t
    then invalid_user_input too_many_parameters
    else user_command t (join_blanks ts)

-- What `run` does with a line; `fetch` and `upload` go to a thread.
pub data Action : Type 0 where
  exit discover unknown_filename : Action
  search : (pattern : Bytes) → Action
  fetch : (filename server_ip : Bytes) → Action
  upload : (file_path : Bytes) → Action
  remove : (filename : Bytes) → Action
  rejected : InvalidInput → Action

abbrev pub fetch_from : Bytes → Option Bytes → Action
fetch_from param none = unknown_filename
fetch_from param (some server_ip) = fetch param server_ip

-- The body of the loop, behind `to_lower`.
unfoldable pub dispatch : SearchResults → Bytes → Bytes → Action
dispatch last_search_results comm param =
    if str_eq comm (codes "exit")
    then exit
    else if str_eq comm (codes "discover")
    then discover
    else if str_eq comm (codes "search")
    then search param
    else if str_eq comm (codes "fetch")
    then fetch_from param (last_search_results param)
    else if str_eq comm (codes "upload")
    then upload param
    else if str_eq comm (codes "remove")
    then remove param
    else rejected unknown_command

unfoldable pub run_round : (Bytes → Bytes) → SearchResults → List Bytes → Action
run_round to_lower last_search_results tokens = elim (read_user_command tokens) [
  | invalid_user_input reason ↦ rejected reason
  | user_command command param ↦ dispatch last_search_results (to_lower command) param
]

abbrev pub is_exit : Action → Bool
is_exit exit = true
is_exit discover = false
is_exit unknown_filename = false
is_exit (search pattern) = false
is_exit (fetch filename server_ip) = false
is_exit (upload file_path) = false
is_exit (remove filename) = false
is_exit (rejected reason) = false

-- The lines that `run` reads: none behind the one that ends it.
unfoldable pub run :
    (Bytes → Bytes) → (List Action → SearchResults) → List Action → List (List Bytes) → List Action
run to_lower results done [] = done
run to_lower results done (line ∷ lines) =
    let action = run_round to_lower (results done) line in
    let rest = run to_lower results (done ++ action ∷ []) lines in
    if is_exit action then done ++ action ∷ [] else rest
