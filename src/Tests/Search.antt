-- ===== src/Tests/Search.antt =====
-- The theorem on a whole search at a concrete input, with a function that splits at newlines.
use distributed_server_clien.Prelude.Bytes.{Bytes, contains, starts_with, str_eq}
use distributed_server_clien.Prelude.{
  ℕ, ◌≡◌, refl, ap, List, [], ◌∷◌, ◌++◌, Option, none, some, arith, ◌==◌, if◌then◌else◌, true,
  false,
}
use distributed_server_clien.Tests.Data.{old_name, old_name-NoNul, node}
use distributed_server_clien.Tests.Start.{net}
use distributed_server_clien.Tests.Session.{server_ip, timeout}
use distributed_server_clien.Client.Requests.{send_search}
use distributed_server_clien.Client.Replies.{Round}
use distributed_server_clien.Client.Search.{search}
use distributed_server_clien.Client.Output.{search_output}
use distributed_server_clien.Logger.{cout, display_files_list}
use distributed_server_clien.Exchange.Session.Output.{search_output-run_round}
use distributed_server_clien.Server.FileSystem.InMemory.{Files, in_memory}
use distributed_server_clien.Server.FileSet.{has}
use distributed_server_clien.Server.FilesList.Replies.{tail_text}
use distributed_server_clien.Server.Run.{run_round}
use distributed_server_clien.Server.Upload.{Node}
use distributed_server_clien.Exchange.Session.Search.{
  AllOneLine, arrivals, SplitsLines, search-run_round,
}

-- A byte in front of the first line.
abbrev onto : ℕ → List Bytes → List Bytes
onto b [] = []
onto b (line ∷ lines) = (b ∷ line) ∷ lines

abbrev split_lines : Bytes → List Bytes
split_lines [] = [] ∷ []
split_lines (b ∷ bs) = let lines = split_lines bs in if b == b'\n' then [] ∷ lines else onto b lines

split_lines-tail_text :
    (f : Bytes) (fs : List Bytes)
    → contains (b'\n' ∷ []) f ≡ false
    → AllOneLine fs
    → split_lines (f ++ tail_text fs) ≡ f ∷ fs
unfolding contains starts_with
split_lines-tail_text [] [] h k = refl
split_lines-tail_text [] (g ∷ fs) h k =
    ap (λ (ls : List Bytes). [] ∷ ls) (split_lines-tail_text g fs k.0 k.1)
split_lines-tail_text (b ∷ f) fs h k = ground (arith, split_lines-tail_text f fs (ground arith) k)

split_lines-SplitsLines : (seq : ℕ) → SplitsLines split_lines seq
split_lines-SplitsLines seq f fs h = split_lines-tail_text f fs h.0 h.1

-- What the server answers, between two timeouts.
abbrev answered : Option (Node Files × List (Option Bytes)) → List Round
answered none = []
answered (some (node', replies)) = (timeout ∷ []) ++ (arrivals server_ip replies ++ timeout ∷ [])

search-run_round_example :
    (asking : Bytes) × (send_search true (some 19) 7 (b'a' ∷ []) ≡ some asking)
    × (search split_lines 7
          (some asking)
          (answered (run_round in_memory net node (some asking)))
          old_name
        ≡ some server_ip)
unfolding contains starts_with has str_eq
search-run_round_example =
    search-run_round in_memory net node split_lines 7 (b'a' ∷ []) old_name server_ip
      (λ datagram. answered (run_round in_memory net node (some datagram))) (timeout ∷ [])
      (timeout ∷ []) (split_lines-SplitsLines 7) (omega arith) (omega arith, tt) (omega arith)
      (λ k. refl) (old_name-NoNul, tt) (omega arith, tt) (refl, tt) (omega arith) (refl, tt)
      (refl, tt) (λ datagram replies h. ap answered h)

-- Each argument with a blank in front.
abbrev spaced : Bytes → List Bytes → Bytes
spaced text [] = []
spaced text (argument ∷ arguments) = b' ' ∷ (argument ++ spaced text arguments)

search_output-run_round_example :
    (asking : Bytes) × (send_search true (some 19) 7 (b'a' ∷ []) ≡ some asking)
    × (search_output spaced
          (λ n. n ∷ [])
          (λ r. 10001)
          (λ r. [])
          split_lines
          7
          (answered (run_round in_memory net node (some asking)))
        ≡ cout (b' ' ∷ b'a' ∷ b'b' ∷ b' ' ∷ b'1' ∷ []) ∷ [])
unfolding contains starts_with has str_eq display_files_list
search_output-run_round_example =
    search_output-run_round spaced (λ n. n ∷ []) (λ r. 10001) (λ r. []) split_lines 7 in_memory net
      node (b'a' ∷ []) server_ip
      (λ datagram. answered (run_round in_memory net node (some datagram))) (timeout ∷ [])
      (timeout ∷ []) (split_lines-SplitsLines 7) (omega arith) (omega arith, tt) (omega arith)
      (λ k. refl) (old_name-NoNul, tt) (omega arith, tt) (refl, tt) (omega arith) (refl, tt)
      (refl, tt) (λ datagram replies h. ap answered h)
