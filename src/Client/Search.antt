-- ===== src/Client/Search.antt =====
-- The results of a search (client/client.cpp): `last_search_results` as the function that it is, and
-- `receive_search_respond`, a round of which is one turn of the loop. boost::split by newlines is a
-- parameter.
use distributed_server_clien.Prelude.Bytes.{Bytes, str_eq, str_eq_iff}
use distributed_server_clien.Prelude.{
  ℕ, ◌≡◌, ◌∙◌, ap, refl, List, [], ◌∷◌, ◌++◌, Option, none, some, arith, if◌then◌else◌,
}
use distributed_server_clien.Client.Replies.{Round, search_reply}
use distributed_server_clien.Server.FileSet.{has}

abbrev pub SearchResults : Type 0
SearchResults = Bytes → Option Bytes

-- `last_search_results[file] = server_ip`.
abbrev pub set_result : SearchResults → Bytes → Bytes → SearchResults
set_result results file server_ip f = if str_eq file f then some server_ip else results f

unfoldable pub update_search_results : SearchResults → List Bytes → Bytes → SearchResults
update_search_results results [] server_ip = results
update_search_results results (file ∷ files) server_ip =
    update_search_results (set_result results file server_ip) files server_ip

unfoldable pub search_round : (Bytes → List Bytes) → ℕ → SearchResults → Round → SearchResults
search_round split expected_seq results r = elim (search_reply expected_seq r.datagram) [
  | none ↦ results
  | some text ↦ update_search_results results (split text) r.source_ip
]

unfoldable pub receive_search_respond :
    (Bytes → List Bytes) → ℕ → SearchResults → List Round → SearchResults
receive_search_respond split expected_seq results [] = results
receive_search_respond split expected_seq results (r ∷ rs) =
    receive_search_respond split expected_seq (search_round split expected_seq results r) rs

-- `search`: the old results go even if nothing is sent.
unfoldable pub search : (Bytes → List Bytes) → ℕ → Option Bytes → List Round → SearchResults
search split message_seq sent rounds = elim sent [
  | none ↦ λ f. none
  | some datagram ↦ receive_search_respond split message_seq (λ f. none) rounds
]

-- Each listed name is set, and no other.
pub update_search_results_lem :
    (results : SearchResults) (files : List Bytes) (ip f : Bytes)
    → update_search_results results files ip f ≡ (if has f files then some ip else results f)
unfolding update_search_results has
update_search_results_lem results [] ip f = refl
update_search_results_lem results (file ∷ files) ip f =
    update_search_results_lem (set_result results file ip) files ip f
    ∙ ground (arith, str_eq_iff file f, str_eq_iff f file)

receive_search_respond-append :
    (split : Bytes → List Bytes) (seq : ℕ) (results : SearchResults) (rs : List Round) (r : Round)
    → receive_search_respond split seq results (rs ++ r ∷ [])
      ≡ search_round split seq (receive_search_respond split seq results rs) r
unfolding receive_search_respond
receive_search_respond-append split seq results [] r = refl
receive_search_respond-append split seq results (r' ∷ rs) r =
    receive_search_respond-append split seq (search_round split seq results r') rs r

-- Behind a valid last reply to a search, each name that is listed in it has the source of that
-- reply as its server, and each other name has the server that it had without that reply.
pub receive_search_respond_last :
    (split : Bytes → List Bytes) (seq : ℕ) (results : SearchResults) (rs : List Round) (r : Round)
    (text f : Bytes)
    → search_reply seq r.datagram ≡ some text
    → receive_search_respond split seq results (rs ++ r ∷ []) f ≡ (
        if has f (split text)
        then some r.source_ip
        else receive_search_respond split seq results rs f)
unfolding search_round
receive_search_respond_last split seq results rs r text f e =
    ap (λ (t : SearchResults). t f) (receive_search_respond-append split seq results rs r)
    ∙ rw (e, search_round)
        (update_search_results_lem (receive_search_respond split seq results rs) (split text)
          r.source_ip f)
